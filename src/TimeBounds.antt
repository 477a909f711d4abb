-- ===== src/TimeBounds.antt =====
-- src/loki/time_bounds.cpp: checked nanosecond arithmetic, intervals and duration strings.
-- An `int64_t` is an integer with its range as a hypothesis; a `bool` with an out-parameter is an
-- `Option`, `none` where the function returns false.
pub mod Checked
pub mod Interval
pub mod Duration
use duckdb_loki.Base.{
  ℕ, ◌+◌, ◌-◌, ◌*◌, ◌≡◌, refl, Bool, true, false, ◌&&◌, ◌||◌, Option, none, some, List, [], ◌∷◌,
  ◌++◌, map, ltb, leb, ◌==◌, if◌then◌else◌, take_while, drop_while, Bytes, codes, str_eq, is_empty,
  trim_by, Result, ok, throw, invalid_argument, out_of_range, ◌>>=◌, ◌>>◌, throw_if, or_throw,
}
use duckdb_loki.Base.Int.{ℤ, pos, negsuc, ◌+ℤ◌, ◌-ℤ◌, ◌*ℤ◌, ◌/ℤ◌, ltb_ℤ, eq_ℤ, int64_max, int64_min}

unfoldable pub try_add_nanos : ℤ → ℤ → Option ℤ
try_add_nanos left right =
    if ltb_ℤ (pos 0) right && ltb_ℤ (int64_max -ℤ right) left
    then none
    else if ltb_ℤ right (pos 0) && ltb_ℤ left (int64_min -ℤ right)
    then none
    else some (left +ℤ right)

-- The division tests, once neither factor is 0 or -1.
multiply_overflows : ℤ → ℤ → Bool
multiply_overflows left right =
    if ltb_ℤ (pos 0) left
    then (if ltb_ℤ (pos 0) right
        then ltb_ℤ (int64_max /ℤ right) left
        else ltb_ℤ right (int64_min /ℤ left))
    else if ltb_ℤ (pos 0) right
    then ltb_ℤ left (int64_min /ℤ right)
    else ltb_ℤ left (int64_max /ℤ right)

unfoldable pub try_multiply_nanos : ℤ → ℤ → Option ℤ
unfolding multiply_overflows
try_multiply_nanos left right =
    if eq_ℤ left (pos 0) || eq_ℤ right (pos 0)
    then some (pos 0)
    else if eq_ℤ left (negsuc 0)
    then (if eq_ℤ right int64_min then none else some (pos 0 -ℤ right))
    else if eq_ℤ right (negsuc 0)
    then (if eq_ℤ left int64_min then none else some (pos 0 -ℤ left))
    else if multiply_overflows left right
    then none
    else some (left *ℤ right)

abbrev pub nanos_per_day : ℤ
nanos_per_day = pos (86400 * 1000 * 1000 * 1000)

abbrev pub nanos_per_micro : ℤ
nanos_per_micro = pos 1000

pub calendar_dependent : Bytes
calendar_dependent =
    codes
      "loki_scan: month/year INTERVAL bounds are calendar-dependent and not supported; pass an absolute TIMESTAMP (e.g. now() - INTERVAL 30 DAY) instead"

pub interval_too_large : Bytes
interval_too_large =
    codes
      "loki_scan: INTERVAL bound is too large to express as a nanosecond offset; pass an absolute TIMESTAMP instead"

pub interval_to_nanos : ℤ → ℤ → ℤ → Result ℤ
interval_to_nanos months days micros =
    if eq_ℤ months (pos 0)
    then (do
      day_nanos ← or_throw (try_multiply_nanos days nanos_per_day) (out_of_range interval_too_large)
      micro_nanos ←
          or_throw (try_multiply_nanos micros nanos_per_micro) (out_of_range interval_too_large)
      or_throw (try_add_nanos day_nanos micro_nanos) (out_of_range interval_too_large))
    else throw (invalid_argument calendar_dependent)

abbrev pub is_blank : ℕ → Bool
is_blank c = (c == b' ') || (c == 9)

abbrev pub is_digit : ℕ → Bool
is_digit c = leb b'0' c && leb c b'9'

abbrev pub to_lower : ℕ → ℕ
to_lower c = if leb b'A' c && leb c b'Z' then c - b'A' + b'a' else c

abbrev pub nanos_per_milli : ℕ
nanos_per_milli = 1000 * 1000

-- The nanoseconds in a unit, by its suffix in lower case.
unfoldable pub unit_nanos : Bytes → Option ℕ
unit_nanos suffix =
    if is_empty suffix || str_eq suffix (codes "s")
    then some (1000 * nanos_per_milli)
    else if str_eq suffix (codes "ms")
    then some nanos_per_milli
    else if str_eq suffix (codes "m")
    then some (60 * 1000 * nanos_per_milli)
    else if str_eq suffix (codes "h")
    then some (3600 * 1000 * nanos_per_milli)
    else if str_eq suffix (codes "d")
    then some (86400 * 1000 * nanos_per_milli)
    else none

-- The digit loop: `none` once a step leaves `int64_t`.
unfoldable pub parse_digits : ℤ → Bytes → Option ℤ
parse_digits value [] = some value
parse_digits value (c ∷ s) = elim (try_multiply_nanos value (pos 10)) [
  | none ↦ none
  | some tens ↦ elim (try_add_nanos tens (pos (c - b'0'))) [
    | none ↦ none
    | some next ↦ parse_digits next s
  ]
]

pub invalid_duration : Bytes → Bytes
invalid_duration text =
    codes "loki: invalid duration '"
    ++ (text
        ++ codes
            "'; expected a non-negative number with an optional unit suffix (ms, s, m, h, d) — e.g. '0', '30s', '5m', '1h'")

pub duration_too_large : Bytes → Bytes
duration_too_large text = codes "loki: duration '" ++ (text ++ codes "' is too large")

pub duration_too_large_nanos : Bytes → Bytes
duration_too_large_nanos text =
    codes "loki: duration '" ++ (text ++ codes "' is too large to express in nanoseconds")

-- `ParseDurationToNanos` behind its trimming.
read_duration : Bytes → Bytes → Result ℤ
read_duration text trimmed =
    let digits = take_while is_digit trimmed in
    let suffix = map to_lower (drop_while is_digit trimmed) in
    do
      throw_if (is_empty trimmed) (invalid_argument (invalid_duration text))
      throw_if (is_empty digits) (invalid_argument (invalid_duration text))
      unit ← or_throw (unit_nanos suffix) (invalid_argument (invalid_duration text))
      value ← or_throw (parse_digits (pos 0) digits) (out_of_range (duration_too_large text))
      or_throw (try_multiply_nanos value (pos unit)) (out_of_range (duration_too_large_nanos text))

pub parse_duration_to_nanos : Bytes → Result ℤ
unfolding read_duration
parse_duration_to_nanos text = read_duration text (trim_by is_blank text)
