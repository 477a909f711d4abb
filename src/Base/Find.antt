-- ===== src/Base/Find.antt =====
-- `std::string::find` and `rfind` of one byte.
use Prim.Native.Nat.{ℕ}
use mathlib.Core.Path.{◌≡◌, refl}
use mathlib.Core.Bool.{true, false}
use mathlib.Core.Option.{Option, none, some}
use mathlib.Core.List.{[], ◌∷◌, ◌++◌}
use native.Mathlib.Omega.{arith}
use duckdb_loki.Base.Tests.{◌==◌}
use duckdb_loki.Base.Lists.{All}
use duckdb_loki.Base.Text.{Bytes}

-- `s.find(c)`: what stands before the first `c`, and what stands behind it.
unfoldable pub split_first : ℕ → Bytes → Option (Bytes × Bytes)
split_first d [] = none
split_first d (c ∷ s) = elim (c == d) [
  | true ↦ some ([], s)
  | false ↦ elim (split_first d s) [ none ↦ none | some (before, after) ↦ some (c ∷ before, after) ]
]

-- `s.rfind(c)`: what stands before the last `c`, and what stands behind it.
unfoldable pub split_last : ℕ → Bytes → Option (Bytes × Bytes)
split_last d [] = none
split_last d (c ∷ s) = elim (split_last d s) [
  | some (before, after) ↦ some (c ∷ before, after)
  | none ↦ elim (c == d) [ true ↦ some ([], s) | false ↦ none ]
]

abbrev pub Lacks : ℕ → Bytes → Type 0
Lacks b = All (λ c. (c == b) ≡ false)

pub split_last-none : (d : ℕ) (s : Bytes) → Lacks d s → split_last d s ≡ none
unfolding split_last
split_last-none d [] h = refl
split_last-none d (c ∷ s) (hc, h) = rw (split_last-none d s h, hc)

pub split_last-append : (d : ℕ) (s t : Bytes) → Lacks d t → split_last d (s ++ d ∷ t) ≡ some (s, t)
unfolding split_last
split_last-append d [] t h = ground (arith, split_last-none d t h)
split_last-append d (c ∷ s) t h = rw (split_last-append d s t h)

pub split_first-append :
    (d : ℕ) (s t : Bytes) → Lacks d s → split_first d (s ++ d ∷ t) ≡ some (s, t)
unfolding split_first
split_first-append d [] t h = ground arith
split_first-append d (c ∷ s) t (hc, h) = ground (arith, split_first-append d s t h)

pub split_first-some :
    (d : ℕ) (s before after : Bytes)
    → split_first d s ≡ some (before, after)
    → (s ≡ before ++ d ∷ after) × Lacks d before
unfolding split_first
split_first-some d [] before after h = cc
split_first-some d (c ∷ s) [] after h = ground arith
split_first-some d (c ∷ s) (b ∷ before) after h = ground (arith, split_first-some d s before after)

pub split_last-none-Lacks : (d : ℕ) (s : Bytes) → split_last d s ≡ none → Lacks d s
unfolding split_last
split_last-none-Lacks d [] h = tt
split_last-none-Lacks d (c ∷ s) h = ground (arith, split_last-none-Lacks d s)

pub split_last-some :
    (d : ℕ) (s before after : Bytes)
    → split_last d s ≡ some (before, after)
    → (s ≡ before ++ d ∷ after) × Lacks d after
unfolding split_last
split_last-some d [] before after h = cc
split_last-some d (c ∷ s) [] after h = ground (arith, split_last-none-Lacks d s)
split_last-some d (c ∷ s) (b ∷ before) after h = ground (arith, split_last-some d s before after)
