-- ===== src/Pager/Key.antt =====
-- `StreamPager::EntryKey` of src/loki/pager.cpp: two entries that share a key.
use duckdb_loki.Base.{◌≡◌, ap, ◌∷◌, ◌++◌, append_assoc, Bytes}
use duckdb_loki.Base.Int.{ℤ, int_to_string}
use duckdb_loki.Types.{StringMap}
use duckdb_loki.Pager.{append_labels, entry_key}

-- An entry whose stream has a label has the key of another entry: of the one whose line goes on with the
-- two separator bytes and the label's name and value, in the stream without that label.
pub entry_key_collision :
    (ts_ns : ℤ) (line name value : Bytes) (labels : StringMap)
    → entry_key ts_ns line ((name, value) ∷ labels)
      ≡ entry_key ts_ns (line ++ (0x1e ∷ (name ++ (0x1d ∷ value)))) labels
unfolding entry_key
entry_key_collision ts_ns line name value labels =
    ap (λ key. append_labels key labels)
      (append_assoc (int_to_string ts_ns) (0x1f ∷ line) (0x1e ∷ (name ++ (0x1d ∷ value))))
