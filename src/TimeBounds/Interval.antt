-- ===== src/TimeBounds/Interval.antt =====
-- `IntervalToNanos` of src/loki/time_bounds.cpp, on every branch.
use duckdb_loki.Base.{
  ◌≡◌, inl, inr, ap, ◌&&◌, Bool-cases, true, arith, if◌then◌else◌, Result, ok, throw,
  invalid_argument, out_of_range, ◌>>=◌, or_throw,
}
use duckdb_loki.Base.Int.{ℤ, pos, ◌+ℤ◌, ◌*ℤ◌, eq_ℤ, IsInt64}
use duckdb_loki.TimeBounds.{
  try_add_nanos, interval_to_nanos, nanos_per_day, nanos_per_micro, calendar_dependent,
  interval_too_large,
}
use duckdb_loki.TimeBounds.Checked.{
  in_int64, if_in_int64, try_add_nanos-exact, try_multiply_nanos-exact,
}

-- The exact offset, where the days, the microseconds and their sum all fit.
abbrev pub interval_offset : ℤ → ℤ → Result ℤ
interval_offset day_nanos micro_nanos =
    if in_int64 day_nanos && in_int64 micro_nanos && in_int64 (day_nanos +ℤ micro_nanos)
    then ok (day_nanos +ℤ micro_nanos)
    else throw (out_of_range interval_too_large)

in_int64-IsInt64 : (a : ℤ) → in_int64 a ≡ true → IsInt64 a
in_int64-IsInt64 a h = ground arith

checked_sum :
    (a b : ℤ)
    → (do
      x ← or_throw (if_in_int64 a) (out_of_range interval_too_large)
      y ← or_throw (if_in_int64 b) (out_of_range interval_too_large)
      or_throw (try_add_nanos x y) (out_of_range interval_too_large))
      ≡ interval_offset a b
checked_sum a b = elim (Bool-cases (in_int64 a)) [
  | inr out ↦ rw out
  | inl fa ↦ elim (Bool-cases (in_int64 b)) [
    | inr out ↦ rw (fa, out)
    | inl fb ↦
        rw (fa, fb, try_add_nanos-exact a b (in_int64-IsInt64 a fa) (in_int64-IsInt64 b fb))
          (ground arith)
  ]
]

-- An interval with months is refused. Any other is its exact length in nanoseconds, where the
-- days, the microseconds and their sum are all int64 values, and out of range where one is not.
pub interval_to_nanos-exact :
    (months days micros : ℤ)
    → IsInt64 days
    → IsInt64 micros
    → interval_to_nanos months days micros ≡ (
        if eq_ℤ months (pos 0)
        then interval_offset (days *ℤ nanos_per_day) (micros *ℤ nanos_per_micro)
        else throw (invalid_argument calendar_dependent))
unfolding interval_to_nanos
interval_to_nanos-exact months days micros hd hm =
    rw
      (
        try_multiply_nanos-exact days nanos_per_day hd (omega arith),
        try_multiply_nanos-exact micros nanos_per_micro hm (omega arith),
      )
      (ap
        (λ (r : Result ℤ).
          if eq_ℤ months (pos 0) then r else throw (invalid_argument calendar_dependent))
        (checked_sum (days *ℤ nanos_per_day) (micros *ℤ nanos_per_micro)))

-- An interval that is taken is an int64 number of nanoseconds.
pub interval_to_nanos-IsInt64 :
    (months days micros v : ℤ)
    → IsInt64 days
    → IsInt64 micros
    → interval_to_nanos months days micros ≡ ok v
    → IsInt64 v
interval_to_nanos-IsInt64 months days micros v hd hm h =
    let e = interval_to_nanos-exact months days micros hd hm in ground (arith)
