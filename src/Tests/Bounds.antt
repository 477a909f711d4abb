-- ===== src/Tests/Bounds.antt =====
-- The theorems on src/loki/time_bounds.cpp at concrete inputs.
use duckdb_loki.Base.{◌≡◌, refl, none, arith, codes, str_eq, ok}
use duckdb_loki.Base.Int.{pos, negsuc, int64_max, ◌+ℤ◌, ◌*ℤ◌}
use duckdb_loki.TimeBounds.{try_add_nanos, interval_to_nanos, parse_duration_to_nanos, unit_nanos}
use duckdb_loki.TimeBounds.Checked.{try_add_nanos-exact}
use duckdb_loki.TimeBounds.Interval.{interval_to_nanos-exact}
use duckdb_loki.TimeBounds.Duration.{parse_duration_to_nanos-reads}

try_add_nanos-exact_example : try_add_nanos int64_max (pos 1) ≡ none
unfolding ◌+ℤ◌
try_add_nanos-exact_example = try_add_nanos-exact int64_max (pos 1) (omega arith) (omega arith)

-- One day less one second.
interval_to_nanos-exact_example :
    interval_to_nanos (pos 0) (pos 1) (negsuc 999999) ≡ ok (pos 86399000000000)
unfolding ◌*ℤ◌ ◌+ℤ◌
interval_to_nanos-exact_example =
    interval_to_nanos-exact (pos 0) (pos 1) (negsuc 999999) (omega arith) (omega arith)

parse_duration_to_nanos-reads_example :
    parse_duration_to_nanos (codes " 90M ") ≡ ok (pos 5400000000000)
unfolding unit_nanos str_eq
parse_duration_to_nanos-reads_example =
    parse_duration_to_nanos-reads (codes " ") (codes "90") (codes "M") (codes " ") 60000000000
      (refl, tt) (refl, tt) (refl, (refl, tt)) (λ e. cc) refl
