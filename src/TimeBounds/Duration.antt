-- ===== src/TimeBounds/Duration.antt =====
-- `ParseDurationToNanos` of src/loki/time_bounds.cpp: the texts that it reads, and their values.
use duckdb_loki.Base.{
  ℕ, ◌+◌, ◌-◌, ◌*◌, ◌^◌, ◌≤◌, ◌≡◌, ◌≢◌, refl, inl, inr, take_while, drop_while, or_throw, trim_by,
  Option-cases, ◌>>=◌, Option, none, some, [], ◌∷◌, ◌++◌, map, arith, leb, if◌then◌else◌, Bytes,
  All-append, str_eq, Result, ok, throw, out_of_range,
}
use duckdb_loki.Base.Int.{ℤ, pos, ◌+ℤ◌, ◌*ℤ◌, ◌≤ℤ◌, int64_max}
use duckdb_loki.Base.Trim.{
  Passes, take_while-Passes, Fails, trim_by-pad, take_while-append_none, drop_while-append,
  drop_while_none,
}
use duckdb_loki.TimeBounds.{
  try_add_nanos, try_multiply_nanos, is_blank, is_digit, to_lower, unit_nanos, parse_digits,
  parse_duration_to_nanos, read_duration, duration_too_large, duration_too_large_nanos,
}
use duckdb_loki.TimeBounds.Checked.{try_add_nanos-exact, try_multiply_nanos-exact}

-- The number that digits spell behind `n`, with no bound.
abbrev pub decimal : ℕ → Bytes → ℕ
decimal n [] = n
decimal n (c ∷ s) = decimal (n * 10 + (c - b'0')) s

abbrev pub max_nanos : ℕ
max_nanos = 2 ^ 63 - 1

le-decimal : (n : ℕ) (s : Bytes) → n ≤ decimal n s
le-decimal n [] = omega arith
le-decimal n (c ∷ s) = omega (arith, le-decimal (n * 10 + (c - b'0')) s)

abbrev bounded : ℕ → Option ℤ
bounded n = if leb n max_nanos then some (pos n) else none

try_multiply_nanos_pos :
    (a b : ℕ) → a ≤ max_nanos → b ≤ max_nanos → try_multiply_nanos (pos a) (pos b) ≡ bounded (a * b)
unfolding ◌*ℤ◌
try_multiply_nanos_pos a b ha hb =
    rw (try_multiply_nanos-exact (pos a) (pos b) (omega arith) (omega arith)) (ground arith)

try_add_nanos_pos :
    (a b : ℕ) → a ≤ max_nanos → b ≤ max_nanos → try_add_nanos (pos a) (pos b) ≡ bounded (a + b)
unfolding ◌+ℤ◌
try_add_nanos_pos a b ha hb =
    rw (try_add_nanos-exact (pos a) (pos b) (omega arith) (omega arith)) (ground arith)

-- The digit loop finds the number, or leaves int64 exactly where the number does.
parse_digits-exact :
    (n : ℕ) (s : Bytes)
    → n ≤ max_nanos
    → Passes is_digit s
    → parse_digits (pos n) s ≡ bounded (decimal n s)
unfolding parse_digits
parse_digits-exact n [] h k = ground arith
parse_digits-exact n (c ∷ s) h (hc, k) = ground (
  arith,
  try_multiply_nanos_pos n 10,
  try_add_nanos_pos (n * 10) (c - b'0'),
  parse_digits-exact (n * 10 + (c - b'0')) s,
  le-decimal (n * 10 + (c - b'0')) s,
)

-- A suffix that names a unit holds no blank and no digit.
unit_nanos_letters :
    (s : Bytes) (unit : ℕ)
    → unit_nanos (map to_lower s) ≡ some unit
    → Fails is_blank s × Fails is_digit s × (unit ≤ max_nanos)
unfolding unit_nanos str_eq
unit_nanos_letters [] unit h = ground arith
unit_nanos_letters (c ∷ []) unit h = ground arith
unit_nanos_letters (c ∷ d ∷ []) unit h = ground arith
unit_nanos_letters (c ∷ d ∷ e ∷ s) unit h = ground arith

digits-Fails : (s : Bytes) → Passes is_digit s → Fails is_blank s
digits-Fails [] h = tt
digits-Fails (c ∷ s) (hc, h) = (ground arith, digits-Fails s h)

-- What the text stands for: the number times the unit, where both fit.
abbrev pub duration_value : Bytes → ℕ → ℕ → Result ℤ
duration_value text value unit =
    if leb value max_nanos
    then (if leb (value * unit) max_nanos
        then ok (pos (value * unit))
        else throw (out_of_range (duration_too_large_nanos text)))
    else throw (out_of_range (duration_too_large text))

read_duration-reads :
    (text digits suffix : Bytes) (unit : ℕ)
    → Passes is_digit digits
    → digits ≢ []
    → unit_nanos (map to_lower suffix) ≡ some unit
    → read_duration text (digits ++ suffix) ≡ duration_value text (decimal 0 digits) unit
unfolding read_duration
read_duration-reads text [] suffix unit hd hne hu = absurd (hne refl)
read_duration-reads text (c ∷ digits) suffix unit hd hne hu =
    let (_, no_digits, unit_fits) = unit_nanos_letters suffix unit hu in
    rw
      (
        take_while-append_none is_digit (c ∷ digits) suffix hd no_digits,
        drop_while-append is_digit (c ∷ digits) suffix hd,
        drop_while_none is_digit suffix no_digits,
        hu,
        parse_digits-exact 0 (c ∷ digits) (omega arith) hd,
      )
      (ground (arith, try_multiply_nanos_pos (decimal 0 (c ∷ digits)) unit))

-- Blanks, digits, a unit suffix in either case, and blanks are read as the number times the unit,
-- where the number and the product are int64 values; past that the text is out of range.
pub parse_duration_to_nanos-reads :
    (left digits suffix right : Bytes) (unit : ℕ)
    → Passes is_blank left
    → Passes is_blank right
    → Passes is_digit digits
    → digits ≢ []
    → unit_nanos (map to_lower suffix) ≡ some unit
    → parse_duration_to_nanos (left ++ ((digits ++ suffix) ++ right))
      ≡ duration_value (left ++ ((digits ++ suffix) ++ right)) (decimal 0 digits) unit
unfolding parse_duration_to_nanos
parse_duration_to_nanos-reads left digits suffix right unit hl hr hd hne hu =
    let (no_blanks, _, _) = unit_nanos_letters suffix unit hu in
    rw
      (trim_by-pad is_blank left (digits ++ suffix) right hl hr
        (All-append _ digits suffix (digits-Fails digits hd) no_blanks))
      (read_duration-reads _ digits suffix unit hd hne hu)

-- A number of nanoseconds that is not negative and is an int64.
abbrev pub IsSpan : ℤ → Type 0
IsSpan v = (pos 0 ≤ℤ v) × (v ≤ℤ int64_max)

spelled :
    (text digits : Bytes) (unit : ℕ)
    → Passes is_digit digits
    → unit ≤ max_nanos
    → (v : ℤ)
    → (do
      value ← or_throw (parse_digits (pos 0) digits) (out_of_range (duration_too_large text))
      or_throw (try_multiply_nanos value (pos unit)) (out_of_range (duration_too_large_nanos text)))
      ≡ ok v
    → IsSpan v
spelled text digits unit hd hu v h =
    ground (arith, parse_digits-exact 0 digits, try_multiply_nanos_pos (decimal 0 digits) unit)

abbrev spelled_with : Bytes → Bytes → ℕ → Result ℤ
spelled_with text digits unit = do
  value ← or_throw (parse_digits (pos 0) digits) (out_of_range (duration_too_large text))
  or_throw (try_multiply_nanos value (pos unit)) (out_of_range (duration_too_large_nanos text))

read_duration_ok :
    (text trimmed : Bytes) (v : ℤ)
    → read_duration text trimmed ≡ ok v
    → (unit : ℕ) × (unit_nanos (map to_lower (drop_while is_digit trimmed)) ≡ some unit)
      × (spelled_with text (take_while is_digit trimmed) unit ≡ ok v)
unfolding read_duration
read_duration_ok text trimmed v h =
    elim (Option-cases (unit_nanos (map to_lower (drop_while is_digit trimmed)))) [
      | inl e ↦ absurd (ground arith)
      | inr (unit, e) ↦ (unit, e, ground arith)
    ]

-- Every duration that is read is an int64, and not negative.
pub parse_duration_to_nanos-IsSpan :
    (text : Bytes) (v : ℤ) → parse_duration_to_nanos text ≡ ok v → IsSpan v
unfolding parse_duration_to_nanos
parse_duration_to_nanos-IsSpan text v h =
    let trimmed = trim_by is_blank text in
    let (unit, e, h') = read_duration_ok text trimmed v h in
    let (_, _, fits) = unit_nanos_letters (drop_while is_digit trimmed) unit e in
    spelled text (take_while is_digit trimmed) unit (take_while-Passes is_digit trimmed) fits v h'
