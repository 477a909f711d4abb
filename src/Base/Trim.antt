-- ===== src/Base/Trim.antt =====
-- Trimming: a padded text is trimmed back, and what is trimmed was padding.
use mathlib.Core.List.{reverse-append, reverse-reverse}
use duckdb_loki.Base.Lists.{take_while, drop_while, All, All-append}
use duckdb_loki.Base.Text.{Bytes, trim_by}
use Prim.Native.Nat.{ℕ}
use mathlib.Core.Path.{◌≡◌, refl, ap}
use mathlib.Core.Bool.{Bool, true, false}
use mathlib.Core.List.{[], ◌∷◌, ◌++◌, reverse}
use native.Mathlib.Omega.{arith}

abbrev pub Passes : (ℕ → Bool) → Bytes → Type 0
Passes p = All (λ c. p c ≡ true)

abbrev pub Fails : (ℕ → Bool) → Bytes → Type 0
Fails p = All (λ c. p c ≡ false)

module _ (p : ℕ → Bool) where
  pub drop_while-append : (pad s : Bytes) → Passes p pad → drop_while p (pad ++ s) ≡ drop_while p s
  drop_while-append [] s h = refl
  drop_while-append (c ∷ pad) s (hc, h) = rw hc (drop_while-append pad s h)

  pub drop_while_none : (s : Bytes) → Fails p s → drop_while p s ≡ s
  drop_while_none [] h = refl
  drop_while_none (c ∷ s) (hc, h) = rw hc

  pub drop_while_all : (s : Bytes) → Passes p s → drop_while p s ≡ []
  drop_while_all [] h = refl
  drop_while_all (c ∷ s) (hc, h) = rw hc (drop_while_all s h)

  pub take_while-append_none : (s t : Bytes) → Passes p s → Fails p t → take_while p (s ++ t) ≡ s
  take_while-append_none [] [] h k = refl
  take_while-append_none [] (c ∷ t) h (kc, k) = rw kc
  take_while-append_none (c ∷ s) t (hc, h) k =
      rw hc (ap (λ u. c ∷ u) (take_while-append_none s t h k))

  -- The prefix ends at the first byte that fails.
  pub take_while_stop :
      (s t : Bytes) (c : ℕ) → Passes p s → p c ≡ false → take_while p (s ++ c ∷ t) ≡ s
  take_while_stop [] t c h k = rw k
  take_while_stop (d ∷ s) t c (hd, h) k = rw hd (ap (λ u. d ∷ u) (take_while_stop s t c h k))

  pub drop_while_stop :
      (s t : Bytes) (c : ℕ) → Passes p s → p c ≡ false → drop_while p (s ++ c ∷ t) ≡ c ∷ t
  drop_while_stop [] t c h k = rw k
  drop_while_stop (d ∷ s) t c (hd, h) k = rw hd (drop_while_stop s t c h k)

  pub take_while-Passes : (s : Bytes) → Passes p (take_while p s)
  take_while-Passes [] = tt
  take_while-Passes (c ∷ s) = ground (arith, take_while-Passes s)

  pub reverse-All {ℓ} : (P : ℕ → Type ℓ) (s : Bytes) → All P s → All P (reverse s)
  reverse-All P [] h = tt
  reverse-All P (c ∷ s) (hc, h) =
      rw (reverse-append (c ∷ []) s)
        (All-append P (reverse s) (c ∷ []) (reverse-All P s h) (hc, tt))

  -- Padding on both sides of a text with none inside is trimmed away.
  pub trim_by-pad :
      (left s right : Bytes)
      → Passes p left
      → Passes p right
      → Fails p s
      → trim_by p (left ++ (s ++ right)) ≡ s
  trim_by-pad left [] right hl hr hs = rw (drop_while-append left right hl, drop_while_all right hr)
  trim_by-pad left (c ∷ s) right hl hr (hc, hs) =
      rw
        (
          drop_while-append left (c ∷ (s ++ right)) hl,
          hc,
          reverse-append (c ∷ s) right,
          drop_while-append (reverse right) (reverse (c ∷ s)) (reverse-All _ right hr),
          drop_while_none (reverse (c ∷ s)) (reverse-All _ (c ∷ s) (hc, hs)),
        )
        (reverse-reverse (c ∷ s))
