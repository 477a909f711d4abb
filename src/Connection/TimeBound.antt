-- ===== src/Connection/TimeBound.antt =====
-- `ResolveTimeBound` of src/loki/connection.cpp.
use duckdb_loki.Base.{◌≡◌, refl, none, some, Result, ok, ◌>>=◌, or_throw}
use duckdb_loki.Base.Int.{ℤ, pos, ◌+ℤ◌, IsInt64}
use duckdb_loki.TimeBounds.{interval_to_nanos, try_add_nanos}
use duckdb_loki.TimeBounds.Checked.{if_in_int64, try_add_nanos-exact}
use duckdb_loki.Connection.{Duckdb, as_binder, bound_too_far, bound_out_of_range}

module _ (db : Duckdb) where
  open db use {Value}

  unfoldable pub value_to_epoch_ns : Value → Result ℤ
  value_to_epoch_ns value =
      let as_ts = db.cast_to_timestamp value in
      or_throw (db.epoch_nanoseconds as_ts) (bound_out_of_range (db.to_string as_ts))

  unfoldable pub resolve_time_bound : Value → ℤ → Result ℤ
  unfolding as_binder value_to_epoch_ns
  resolve_time_bound value now_ns = elim (db.interval_of value) [
    | none ↦ value_to_epoch_ns value
    | some (months, days, micros) ↦ do
      offset_ns ← as_binder (interval_to_nanos months days micros)
      or_throw (try_add_nanos now_ns offset_ns) bound_too_far
  ]

  -- An interval without months is an offset from now: the bound is the exact sum where the offset and
  -- the sum are int64 values, and an exception where the sum is not.
  pub resolve_time_bound_interval :
      (value : Value) (now_ns days micros offset_ns : ℤ)
      → db.interval_of value ≡ some (pos 0, days, micros)
      → interval_to_nanos (pos 0) days micros ≡ ok offset_ns
      → IsInt64 now_ns
      → IsInt64 offset_ns
      → resolve_time_bound value now_ns ≡ or_throw (if_in_int64 (now_ns +ℤ offset_ns)) bound_too_far
  unfolding resolve_time_bound as_binder
  resolve_time_bound_interval value now_ns days micros offset_ns h k hn ho =
      rw (h, k, try_add_nanos-exact now_ns offset_ns hn ho, resolve_time_bound) refl
