-- ===== src/TimeBounds/Checked.antt =====
-- The checked sum and product of src/loki/time_bounds.cpp agree with unbounded arithmetic.
use duckdb_loki.Base.{
  ℕ, zero, suc, ◌-◌, ◌*◌, ◌/◌, ◌≤◌, ◌^◌, ◌≡◌, refl, Bool, not, ◌&&◌, ◌≢◌, ◌↔◌, Option, none, some,
  arith, if◌then◌else◌,
}
use duckdb_loki.Base.Int.{
  ℤ, pos, negsuc, ◌+ℤ◌, ◌-ℤ◌, ◌*ℤ◌, ◌/ℤ◌, leb_ℤ, int64_max, int64_min, IsInt64, -ℤ_parts,
}
use native.Mathlib.Nat.{le-div_iff_mul-le}
use duckdb_loki.TimeBounds.{try_add_nanos, try_multiply_nanos, multiply_overflows}

abbrev pub in_int64 : ℤ → Bool
in_int64 a = leb_ℤ int64_min a && leb_ℤ a int64_max

-- What a checked operation promises of the exact result.
abbrev pub if_in_int64 : ℤ → Option ℤ
if_in_int64 a = if in_int64 a then some a else none

-- The checked sum of two int64 values is the exact sum where that is an int64, and fails otherwise.
pub try_add_nanos-exact :
    (left right : ℤ)
    → IsInt64 left
    → IsInt64 right
    → try_add_nanos left right ≡ if_in_int64 (left +ℤ right)
unfolding try_add_nanos ◌+ℤ◌ ◌-ℤ◌
try_add_nanos-exact (pos a) (pos b) hl hr = ground arith
try_add_nanos-exact (pos a) (negsuc b) hl hr = ground arith
try_add_nanos-exact (negsuc a) (pos b) hl hr = ground arith
try_add_nanos-exact (negsuc a) (negsuc b) hl hr = ground arith

-- The division tests say whether the product of the magnitudes passes a bound.
fits_iff : (a b m : ℕ) → (suc a ≤ m / suc b) ↔ (suc a * suc b ≤ m)
fits_iff a b m = le-div_iff_mul-le (omega arith)

abbrev IsNonzero : ℤ → Type 0
IsNonzero a = a ≢ pos 0

multiply_overflows-exact :
    (left right : ℤ)
    → IsNonzero left
    → IsNonzero right
    → multiply_overflows left right ≡ not (in_int64 (left *ℤ right))
unfolding multiply_overflows ◌*ℤ◌ ◌/ℤ◌
multiply_overflows-exact (pos (suc a)) (pos (suc b)) l r = ground (arith, fits_iff a b (2 ^ 63 - 1))
multiply_overflows-exact (pos (suc a)) (negsuc b) l r = ground (arith, fits_iff b a (2 ^ 63))
multiply_overflows-exact (negsuc a) (pos (suc b)) l r = ground (arith, fits_iff a b (2 ^ 63))
multiply_overflows-exact (negsuc a) (negsuc b) l r = ground (arith, fits_iff a b (2 ^ 63 - 1))
multiply_overflows-exact (pos zero) right l r = absurd (l refl)
multiply_overflows-exact left (pos zero) l r = absurd (r refl)

zero-*ℤ : (a : ℤ) → pos 0 *ℤ a ≡ pos 0
unfolding ◌*ℤ◌
zero-*ℤ (pos a) = ground arith
zero-*ℤ (negsuc a) = ground arith

*ℤ-zero : (a : ℤ) → a *ℤ pos 0 ≡ pos 0
unfolding ◌*ℤ◌
*ℤ-zero (pos a) = ground arith
*ℤ-zero (negsuc a) = ground arith

negate_left : (a : ℤ) → negsuc 0 *ℤ a ≡ pos 0 -ℤ a
unfolding ◌*ℤ◌ ◌-ℤ◌
negate_left (pos a) = ground arith
negate_left (negsuc a) = ground arith

negate_right : (a : ℤ) → a *ℤ negsuc 0 ≡ pos 0 -ℤ a
unfolding ◌*ℤ◌ ◌-ℤ◌
negate_right (pos a) = ground arith
negate_right (negsuc a) = ground arith

-- The checked product of two int64 values is the exact product where that is an int64, and fails
-- otherwise.
pub try_multiply_nanos-exact :
    (left right : ℤ)
    → IsInt64 left
    → IsInt64 right
    → try_multiply_nanos left right ≡ if_in_int64 (left *ℤ right)
unfolding try_multiply_nanos
try_multiply_nanos-exact left right hl hr = ground (
  arith,
  multiply_overflows-exact left right,
  zero-*ℤ right,
  *ℤ-zero left,
  negate_left right,
  negate_right left,
  -ℤ_parts (pos 0) right,
  -ℤ_parts (pos 0) left,
)
