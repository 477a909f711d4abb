-- ===== src/Pager/Unique.antt =====
-- `StreamPager::EntryKey` of src/loki/pager.cpp, and how a key is read.
use duckdb_loki.Base.{
  ℕ, ◌≡◌, refl, sym, ap, ◌∙◌, some, [], ◌∷◌, ◌++◌, append_assoc, append-nil, arith, Bytes, All,
}
use duckdb_loki.Base.Int.{ℤ, int_to_string}
use duckdb_loki.Base.Digits.{int_to_string-injective, int_to_string-Lacks}
use duckdb_loki.Base.Find.{Lacks, split_first, split_first-append}
use duckdb_loki.Types.{StringMap}
use duckdb_loki.Pager.{append_labels, entry_key}

-- The labels' names hold no group separator, and their values no record separator.
abbrev pub AreClean : StringMap → Type 0
AreClean = All (λ (name, value). Lacks 0x1d name × Lacks 0x1e value)

-- What is put behind the line.
abbrev labels_text : StringMap → Bytes
labels_text [] = []
labels_text ((name, value) ∷ labels) = 0x1e ∷ (name ++ (0x1d ∷ (value ++ labels_text labels)))

append_labels-text :
    (key : Bytes) (labels : StringMap) → append_labels key labels ≡ key ++ labels_text labels
unfolding append_labels
append_labels-text key [] = sym (append-nil key)
append_labels-text key ((name, value) ∷ labels) =
    append_labels-text (key ++ (0x1e ∷ (name ++ (0x1d ∷ value)))) labels
    ∙ append_assoc key (0x1e ∷ (name ++ (0x1d ∷ value))) (labels_text labels)
    ∙ ap (λ t. key ++ 0x1e ∷ t) (append_assoc name (0x1d ∷ value) (labels_text labels))

some_injective : (r q : Bytes × Bytes) → some r ≡ some q → r ≡ q
some_injective r q h = cc

-- What stands before the first separator, and what stands behind it.
cut :
    (d : ℕ) (s t u v : Bytes) → Lacks d s → Lacks d u → s ++ d ∷ t ≡ u ++ d ∷ v → (s ≡ u) × (t ≡ v)
cut d s t u v hs hu e =
    let r : Bytes × Bytes = (s, t) in
    let q : Bytes × Bytes = (u, v) in
    let same : r ≡ q =
      some_injective r q
        (sym (split_first-append d s t hs) ∙ ap (split_first d) e ∙ split_first-append d u v hu) in
    (ap (λ (p : Bytes × Bytes). p.0) same, ap (λ (p : Bytes × Bytes). p.1) same)

no_separator : (d : ℕ) (s t u : Bytes) → Lacks d u → s ++ d ∷ t ≡ u → ⊥
no_separator d [] t [] h e = cc
no_separator d [] t (c ∷ u) (hc, h) e = ground arith
no_separator d (b ∷ s) t [] h e = cc
no_separator d (b ∷ s) t (c ∷ u) (hc, h) e = no_separator d s t u h cc

texts-injective :
    (s u : Bytes) (ls ms : StringMap)
    → Lacks 0x1e s
    → Lacks 0x1e u
    → AreClean ls
    → AreClean ms
    → s ++ labels_text ls ≡ u ++ labels_text ms
    → (s ≡ u) × (ls ≡ ms)
texts-injective s u [] [] hs hu hl hm e = (sym (append-nil s) ∙ e ∙ append-nil u, refl)
texts-injective s u [] ((name, value) ∷ ms) hs hu hl hm e =
    absurd (no_separator 0x1e u _ s hs (sym (sym (append-nil s) ∙ e)))
texts-injective s u ((name, value) ∷ ls) [] hs hu hl hm e =
    absurd (no_separator 0x1e s _ u hu (e ∙ append-nil u))
texts-injective s u ((name, value) ∷ ls) ((name', value') ∷ ms) hs hu ((hn, hv), hl)
      ((hn', hv'), hm) e =
    let (same, e') = cut 0x1e s _ u _ hs hu e in
    let (names, e'') =
      cut 0x1d name (value ++ labels_text ls) name' (value' ++ labels_text ms) hn hn' e' in
    let (values, rest) = texts-injective value value' ls ms hv hv' hl hm e'' in (same, ground arith)

-- Two entries whose lines hold no record separator and whose labels are clean share a key only where time, line
-- and labels are the same.
pub entry_key-injective :
    (a b : ℤ) (s t : Bytes) (ls ms : StringMap)
    → Lacks 0x1e s
    → Lacks 0x1e t
    → AreClean ls
    → AreClean ms
    → entry_key a s ls ≡ entry_key b t ms
    → (a ≡ b) × (s ≡ t) × (ls ≡ ms)
unfolding entry_key
entry_key-injective a b s t ls ms hs ht hl hm e =
    let whole : int_to_string a ++ 0x1f ∷ (s ++ labels_text ls)
        ≡ int_to_string b ++ 0x1f ∷ (t ++ labels_text ms) =
      sym (append_assoc (int_to_string a) (0x1f ∷ s) (labels_text ls))
      ∙ sym (append_labels-text (int_to_string a ++ 0x1f ∷ s) ls)
      ∙ e
      ∙ append_labels-text (int_to_string b ++ 0x1f ∷ t) ms
      ∙ append_assoc (int_to_string b) (0x1f ∷ t) (labels_text ms) in
    let (times, rest) =
      cut 0x1f (int_to_string a) (s ++ labels_text ls) (int_to_string b) (t ++ labels_text ms)
        (int_to_string-Lacks a) (int_to_string-Lacks b) whole in
    let (lines, labels) = texts-injective s t ls ms hs ht hl hm rest in
    (int_to_string-injective a b times, lines, labels)
