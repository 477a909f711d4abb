-- ===== src/Catalog/Ttl.antt =====
-- `ParseTtlOption` of src/loki/catalog.cpp: which lifetimes it takes.
use duckdb_loki.Base.{
  ◌≡◌, refl, ap, ◌*◌, inl, inr, Bool-cases, Option, none, some, arith, Bytes, Exception,
  binder_exception, Result, ok, throw,
}
use duckdb_loki.Base.Int.{ℤ, pos, IsInt64, ◌*ℤ◌}
use duckdb_loki.TimeBounds.Checked.{try_multiply_nanos-exact}
use duckdb_loki.TimeBounds.Interval.{interval_to_nanos-IsInt64}
use duckdb_loki.TimeBounds.Duration.{IsSpan, parse_duration_to_nanos-IsSpan}
use duckdb_loki.Catalog.{DuckdbCatalog}
use duckdb_loki.Catalog.Options.{
  as_invalid_ttl, ttl_of_interval, ttl_of_seconds, ttl_of_parts, ttl_of, ttl_of_option,
  parse_ttl_option,
}

-- DuckDB's numbers are machine words: the days and microseconds of an INTERVAL, and `GetValue<int64_t>`.
pub record HasWords (api : DuckdbCatalog) : Type 0 where
  pub interval_words :
      (v : api.db.Value) (months days micros : ℤ)
      → api.db.interval_of v ≡ some (months, days, micros)
      → IsInt64 days × IsInt64 micros
  pub integral_words : (v : api.db.Value) (n : ℤ) → api.get_integral v ≡ some (ok n) → IsInt64 n

abbrev pub IsBinderException : Exception → Type 0
IsBinderException (binder_exception m) = Unit
IsBinderException e = ⊥

abbrev pub SpanOrRefused : Result ℤ → Type 0
SpanOrRefused (ok ns) = IsSpan ns
SpanOrRefused (throw e) = IsBinderException e

abbrev Spans : Result ℤ → Type 0
Spans r = (ns : ℤ) → r ≡ ok ns → IsSpan ns

ttl_of_interval-Spans :
    (months days micros : ℤ)
    → IsInt64 days
    → IsInt64 micros
    → Spans (ttl_of_interval (months, days, micros))
unfolding ttl_of_interval
ttl_of_interval-Spans months days micros hd hm ns h =
    ground (arith, interval_to_nanos-IsInt64 months days micros ns)

ttl_of_seconds-Spans :
    (value : Result ℤ) → ((n : ℤ) → value ≡ ok n → IsInt64 n) → Spans (ttl_of_seconds value)
unfolding ttl_of_seconds ◌*ℤ◌
ttl_of_seconds-Spans (throw e) words ns h = cc
ttl_of_seconds-Spans (ok n) words ns h =
    let small = words n refl in
    ground (arith, try_multiply_nanos-exact n (pos (1000 * 1000 * 1000)) small)

ttl_of_parts-Spans :
    (interval : Option (ℤ × ℤ × ℤ)) (integral : Option (Result ℤ)) (text : Bytes)
    → ((months days micros : ℤ)
        → interval ≡ some (months, days, micros)
        → IsInt64 days × IsInt64 micros)
    → ((n : ℤ) → integral ≡ some (ok n) → IsInt64 n)
    → Spans (ttl_of_parts interval integral text)
unfolding ttl_of_parts
ttl_of_parts-Spans (some (months, days, micros)) integral text hi hn =
    let (hd, hm) = hi months days micros refl in ttl_of_interval-Spans months days micros hd hm
ttl_of_parts-Spans none (some seconds) text hi hn =
    ttl_of_seconds-Spans seconds (λ n same. hn n (ap some same))
ttl_of_parts-Spans none none text hi hn = parse_duration_to_nanos-IsSpan text

as_invalid_ttl-SpanOrRefused :
    (key text : Bytes) (r : Result ℤ) → Spans r → SpanOrRefused (as_invalid_ttl key text r)
unfolding as_invalid_ttl
as_invalid_ttl-SpanOrRefused key text (ok ns) h = h ns refl
as_invalid_ttl-SpanOrRefused key text (throw e) h = tt

module _ (api : DuckdbCatalog) (words : HasWords api) where
  open api use {db}
  open db use {Value}

  ttl_of-Spans : (value : Value) → Spans (ttl_of api value)
  unfolding ttl_of
  ttl_of-Spans value =
      ttl_of_parts-Spans (db.interval_of value) (api.get_integral value) (db.to_string value)
        (words.interval_words value) (words.integral_words value)

  ttl_of_option-SpanOrRefused :
      (key : Bytes) (option : Option Value) → SpanOrRefused (ttl_of_option api key option)
  unfolding ttl_of_option
  ttl_of_option-SpanOrRefused key none = omega arith
  ttl_of_option-SpanOrRefused key (some value) = elim (Bool-cases (db.is_null value)) [
    | inl h ↦ rw h (omega arith)
    | inr h ↦ rw h (
        as_invalid_ttl-SpanOrRefused key (db.to_string value) (ttl_of api value)
          (ttl_of-Spans value))
  ]

  -- A lifetime that ATTACH takes is zero or more nanoseconds and an int64, however it was written; every
  -- other value is refused as a BinderException, also where its conversion throws.
  pub parse_ttl_option-SpanOrRefused :
      (options : Bytes → Option Value) (key : Bytes)
      → SpanOrRefused (parse_ttl_option api options key)
  unfolding parse_ttl_option
  parse_ttl_option-SpanOrRefused options key = ttl_of_option-SpanOrRefused key (options key)
