-- ===== src/Pager/SameEntry.antt =====
-- When `StreamPager::EntryKey` of src/loki/pager.cpp takes two entries for the same.
use duckdb_loki.Base.{
  ◌≡◌, refl, sym, Bool, true, false, ◌&&◌, [], ◌∷◌, arith, Bytes, str_eq, str_eq_refl, eq_of_str_eq,
}
use duckdb_loki.Base.Int.{ℤ, eq_ℤ, eq_of_parts}
use duckdb_loki.Base.Find.{Lacks}
use duckdb_loki.Types.{StringMap, StreamEntry}
use duckdb_loki.Pager.{entry_key}
use duckdb_loki.Pager.Unique.{AreClean, entry_key-injective}

abbrev pub labels_eq : StringMap → StringMap → Bool
labels_eq [] [] = true
labels_eq [] (m ∷ ms) = false
labels_eq (l ∷ ls) [] = false
labels_eq ((name, value) ∷ ls) ((name', value') ∷ ms) =
    str_eq name name' && str_eq value value' && labels_eq ls ms

abbrev pub Labelled : Type 0
Labelled = StringMap × StreamEntry

-- Time, line and labels are the same.
abbrev pub same_entry : Labelled → Labelled → Bool
same_entry (ls, e) (ms, f) = eq_ℤ e.ts_ns f.ts_ns && str_eq e.line f.line && labels_eq ls ms

-- The entries hold no separator bytes where a key could be misread.
abbrev pub CleanEntry : Labelled → Type 0
CleanEntry (ls, e) = Lacks 0x1e e.line × AreClean ls

labels_eq_refl : (ls : StringMap) → labels_eq ls ls ≡ true
labels_eq_refl [] = refl
labels_eq_refl ((name, value) ∷ ls) =
    ground (arith, str_eq_refl name, str_eq_refl value, labels_eq_refl ls)

eq_of_labels_eq : (ls ms : StringMap) → labels_eq ls ms ≡ true → ls ≡ ms
eq_of_labels_eq [] [] h = refl
eq_of_labels_eq [] (m ∷ ms) h = cc
eq_of_labels_eq (l ∷ ls) [] h = cc
eq_of_labels_eq ((name, value) ∷ ls) ((name', value') ∷ ms) h =
    ground (arith, eq_of_str_eq name name', eq_of_str_eq value value', eq_of_labels_eq ls ms)

both_true : (a b : Bool) → (a ≡ true → b ≡ true) → (b ≡ true → a ≡ true) → a ≡ b
both_true true true h k = refl
both_true true false h k = sym (h refl)
both_true false true h k = k refl
both_true false false h k = refl

eq_ℤ_refl : (a : ℤ) → eq_ℤ a a ≡ true
eq_ℤ_refl a = ground arith

abbrev pub key_of : Labelled → Bytes
key_of (ls, e) = entry_key e.ts_ns e.line ls

-- The code's comparison of keys is that of the entries.
pub key-same_entry :
    (x y : Labelled) → CleanEntry x → CleanEntry y → str_eq (key_of x) (key_of y) ≡ same_entry x y
key-same_entry (ls, e) (ms, f) (hl, hs) (hm, hf) =
    both_true (str_eq (key_of (ls, e)) (key_of (ms, f))) (same_entry (ls, e) (ms, f))
      (λ h.
        let (t, l, m) =
          entry_key-injective e.ts_ns f.ts_ns e.line f.line ls ms hl hm hs hf
            (eq_of_str_eq _ _ h) in
        rw (t, l, m) (ground (arith, eq_ℤ_refl f.ts_ns, str_eq_refl f.line, labels_eq_refl ms)))
      (λ h.
        let t : e.ts_ns ≡ f.ts_ns = eq_of_parts e.ts_ns f.ts_ns (ground arith) in
        let l : e.line ≡ f.line = eq_of_str_eq e.line f.line (ground arith) in
        let m : ls ≡ ms = eq_of_labels_eq ls ms (ground arith) in
        rw (t, l, m) (str_eq_refl (key_of (ms, f))))
