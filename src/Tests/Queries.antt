-- ===== src/Tests/Queries.antt =====
-- The theorems on src/loki/logql.cpp, and on the label names of src/loki/loki_scan.cpp, at concrete
-- inputs.
use duckdb_loki.Base.{◌≡◌, refl, some, List, [], ◌∷◌, ◌++◌, false, arith, codes, Bytes}
use duckdb_loki.Logql.{
  trim, is_valid_label_name, MatchOp, LabelMatcher, LineOp, LineFilter, build_selector_query,
  append_matchers, append_line_filters,
}
use duckdb_loki.Logql.Reader.{read_query}
use duckdb_loki.Logql.Reader.RoundTrip.{read_query-build_selector_query}
use duckdb_loki.Logql.Selector.{stream_selector, read_selector, build_selector_query_unrefined}

-- A value that tries to close its string and to add a matcher.
abbrev breakout : Bytes
breakout = codes "a\", b=\"c"

abbrev matchers : List LabelMatcher
matchers =
    record { label = codes "job"; op = MatchOp.eq; value = breakout }
    ∷ record { label = codes "env"; op = MatchOp.re; value = codes "a|b" }
    ∷ []

abbrev filters : List LineFilter
filters = record { op = LineOp.not_match; value = codes "^x" } ∷ []

read_query-build_selector_query_example :
    read_query 2 (build_selector_query [] matchers filters) ≡ some (matchers, filters)
unfolding is_valid_label_name
read_query-build_selector_query_example =
    read_query-build_selector_query 2 matchers filters (refl, (refl, tt)) (omega arith)
      (omega arith)

-- A base selector with a brace in a value and one in its pipeline.
abbrev with_pipeline : Bytes
with_pipeline = codes "{a=\"}\"} | line_format \"{{.m}}\""

build_selector_query_unrefined_example :
    (build_selector_query with_pipeline matchers []
      ≡ b'{'
        ∷ (codes "a=\"}\""
            ++ b'}'
              ∷ (codes " | line_format \"{{.m}"
                  ++ (append_matchers false matchers ++ b'}' ∷ codes " \""))))
    × (stream_selector (build_selector_query with_pipeline matchers []) ≡ some (codes "{a=\"}\""))
unfolding trim read_selector append_line_filters
build_selector_query_unrefined_example =
    build_selector_query_unrefined with_pipeline (codes "a=\"}\"") (codes " | line_format \"{{.m}")
      (codes "\"") matchers [] refl refl (refl, tt)
