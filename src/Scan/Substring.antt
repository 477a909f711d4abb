-- ===== src/Scan/Substring.antt =====
-- Prefixes, suffixes and parts of a text, which the line filters of src/loki/loki_scan.cpp test, and how
-- to decide them.
use duckdb_loki.Base.{
  ℕ, ◌≡◌, ◌≢◌, refl, ap, true, [], ◌∷◌, ◌++◌, ◌==◌, ==_iff, Bytes, Bool-cases, inl, inr,
}
use duckdb_loki.Logql.Like.{Contains}

abbrev pub HasPrefix : Bytes → Bytes → Type 0
HasPrefix part text = (after : Bytes) × (text ≡ part ++ after)

abbrev pub HasSuffix : Bytes → Bytes → Type 0
HasSuffix part text = (before : Bytes) × (text ≡ before ++ part)

prefix_no_nil : (c : ℕ) (part after : Bytes) → [] ≢ (c ∷ part) ++ after
prefix_no_nil c part after e = cc

prefix_head : (c d : ℕ) (part text after : Bytes) → d ∷ text ≡ (c ∷ part) ++ after → d ≡ c
prefix_head c d part text after e = cc

prefix_tail :
    (c d : ℕ) (part text after : Bytes) → d ∷ text ≡ (c ∷ part) ++ after → text ≡ part ++ after
prefix_tail c d part text after e = cc

prefix? : (part text : Bytes) → Dec (HasPrefix part text)
prefix? [] text = yes (text, refl)
prefix? (c ∷ part) [] = no (λ (after, e). prefix_no_nil c part after e)
prefix? (c ∷ part) (d ∷ text) = elim (Bool-cases (d == c)) [
  | inr differ ↦ no (λ (after, e).
      let same : (d == c) ≡ true = (==_iff d c).1 (prefix_head c d part text after e) in cc)
  | inl same ↦ elim (prefix? part text) [
    | yes (after, e) ↦ let e' : d ≡ c = (==_iff d c).0 same in yes (after, cc)
    | no none_there ↦ no (λ (after, e). none_there (after, prefix_tail c d part text after e))
  ]
]

Contains-tail :
    (part : Bytes) (d : ℕ) (text : Bytes)
    → Contains part (d ∷ text)
    → ¬ HasPrefix part (d ∷ text)
    → Contains part text
Contains-tail part d text ([], after, e) h = absurd (h (after, e))
Contains-tail part d text (c ∷ before, after, e) h = (before, after, cc)

Contains-nil : (part : Bytes) → Contains part [] → HasPrefix part []
Contains-nil part ([], after, e) = (after, e)
Contains-nil part (c ∷ before, after, e) = cc

pub contains? : (part text : Bytes) → Dec (Contains part text)
contains? part [] = elim (prefix? part []) [
  | yes (after, e) ↦ yes ([], after, e)
  | no h ↦ no (λ k. h (Contains-nil part k))
]
contains? part (d ∷ text) = elim (prefix? part (d ∷ text)) [
  | yes (after, e) ↦ yes ([], after, e)
  | no h ↦ elim (contains? part text) [
    | yes (before, after, e) ↦ yes (d ∷ before, after, ap (λ t. d ∷ t) e)
    | no h' ↦ no (λ k. h' (Contains-tail part d text k h))
  ]
]
