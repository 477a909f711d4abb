-- ===== src/Base/Digits.antt =====
-- `std::to_string` of a number, and how its text is read.
use Prim.Native.Nat.{ℕ, zero, suc, ◌+◌, ◌*◌, ◌/◌, ◌%◌, ◌-◌, ◌≤◌, ◌<◌}
use mathlib.Core.Path.{◌≡◌, refl, sym, ap, ◌∙◌}
use mathlib.Core.List.{[], ◌∷◌}
use mathlib.Core.Logic.{inl, inr}
use native.Mathlib.Omega.{arith}
use duckdb_loki.Base.Tests.{ltb, Bool-cases}
use duckdb_loki.Base.Lists.{All}
use duckdb_loki.Base.Find.{Lacks}
use duckdb_loki.Base.Text.{Bytes, to_digits, nat_to_string}
use duckdb_loki.Base.Int.{ℤ, pos, negsuc, int_to_string}

-- The number of a text of digits, behind digits read before.
abbrev read_digits : ℕ → Bytes → ℕ
read_digits n [] = n
read_digits n (c ∷ s) = read_digits (n * 10 + (c - b'0')) s

abbrev AreDigits : Bytes → Type 0
AreDigits = All (λ c. b'0' ≤ c)

read_digits-to_digits :
    (fuel n : ℕ) (out : Bytes) → n < fuel → read_digits 0 (to_digits fuel n out) ≡ read_digits n out
unfolding to_digits
read_digits-to_digits zero n out h = absurd (omega arith)
read_digits-to_digits (suc fuel) n out h = elim (Bool-cases (ltb n 10)) [
  | inl one ↦ rw (one, to_digits) (ap (λ m. read_digits m out) (omega arith))
  | inr more ↦
      rw (more, to_digits)
        (read_digits-to_digits fuel (n / 10) ((b'0' + n % 10) ∷ out) (ground arith)
          ∙ ap (λ m. read_digits m out) (omega arith))
]

to_digits-AreDigits : (fuel n : ℕ) (out : Bytes) → AreDigits out → AreDigits (to_digits fuel n out)
unfolding to_digits
to_digits-AreDigits zero n out h = h
to_digits-AreDigits (suc fuel) n out h =
    ground (arith, to_digits-AreDigits fuel (n / 10) ((b'0' + n % 10) ∷ out))

nat_to_string-AreDigits : (n : ℕ) → AreDigits (nat_to_string n)
unfolding nat_to_string
nat_to_string-AreDigits n = to_digits-AreDigits (suc n) n [] tt

nat_to_string-injective : (m n : ℕ) → nat_to_string m ≡ nat_to_string n → m ≡ n
unfolding nat_to_string
nat_to_string-injective m n h =
    sym (read_digits-to_digits (suc m) m [] (omega arith))
    ∙ ap (read_digits 0) h
    ∙ read_digits-to_digits (suc n) n [] (omega arith)

digits-no_sign : (s t : Bytes) → AreDigits s → s ≡ b'-' ∷ t → ⊥
digits-no_sign [] t h e = cc
digits-no_sign (c ∷ s) t (hc, h) e = ground arith

tail_of : (s t : Bytes) → b'-' ∷ s ≡ b'-' ∷ t → s ≡ t
tail_of s t h = cc

pub int_to_string-injective : (a b : ℤ) → int_to_string a ≡ int_to_string b → a ≡ b
unfolding int_to_string
int_to_string-injective (pos m) (pos n) h = ap pos (nat_to_string-injective m n h)
int_to_string-injective (pos m) (negsuc n) h =
    absurd (digits-no_sign (nat_to_string m) _ (nat_to_string-AreDigits m) h)
int_to_string-injective (negsuc m) (pos n) h =
    absurd (digits-no_sign (nat_to_string n) _ (nat_to_string-AreDigits n) (sym h))
int_to_string-injective (negsuc m) (negsuc n) h =
    let e = nat_to_string-injective (suc m) (suc n) (tail_of _ _ h) in ap negsuc (omega arith)

AreDigits-Lacks : (d : ℕ) (s : Bytes) → d < b'0' → AreDigits s → Lacks d s
AreDigits-Lacks d [] n h = tt
AreDigits-Lacks d (c ∷ s) n (hc, h) = (ground arith, AreDigits-Lacks d s n h)

-- The unit separator is no digit and no sign.
pub int_to_string-Lacks : (a : ℤ) → Lacks 0x1f (int_to_string a)
unfolding int_to_string
int_to_string-Lacks (pos n) = AreDigits-Lacks 0x1f _ (omega arith) (nat_to_string-AreDigits n)
int_to_string-Lacks (negsuc n) =
    (refl, AreDigits-Lacks 0x1f _ (omega arith) (nat_to_string-AreDigits (suc n)))
