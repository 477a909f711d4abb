-- ===== src/Scan/Pushdown/Pushes.antt =====
-- What one comparison or function in WHERE pushes into the bind data: `LokiPushdownComplexFilter` of
-- src/loki/loki_scan.cpp.
use duckdb_loki.Base.{
  Bool, true, false, not, ◌||◌, Option, none, some, List, [], ◌∷◌, ◌++◌, Bytes, codes, str_eq,
  if◌then◌else◌,
}
use duckdb_loki.Base.Int.{ℤ, pos, ◌+ℤ◌, int64_max, eq_ℤ, min_ℤ, max_ℤ}
use duckdb_loki.Logql.{
  MatchOp, LabelMatcher, LineOp, LineFilter, regex_escape_literal, try_like_to_substring,
}
use duckdb_loki.Scan.{LokiScanBindData, ExpressionType}

-- Whether the predicate is consumed, beside the bind data that it is pushed into.
abbrev pub Pushed : Type 0
Pushed = Bool × LokiScanBindData

unfoldable pub add_start_bound : LokiScanBindData → ℤ → LokiScanBindData
add_start_bound b ns = record b { pushed_start_ns = max_ℤ b.pushed_start_ns ns }

unfoldable pub add_end_bound : LokiScanBindData → ℤ → LokiScanBindData
add_end_bound b ns = record b { pushed_end_ns = min_ℤ b.pushed_end_ns ns }

unfoldable pub push_matcher : LokiScanBindData → LabelMatcher → LokiScanBindData
push_matcher b m = record b { pushed_matchers = b.pushed_matchers ++ m ∷ [] }

unfoldable pub push_line_filter : LokiScanBindData → LineFilter → LokiScanBindData
push_line_filter b f = record b { pushed_line_filters = b.pushed_line_filters ++ f ∷ [] }

unfoldable pub is_label_column : List Bytes → Bytes → Bool
is_label_column [] name = false
is_label_column (label ∷ labels) name = str_eq label name || is_label_column labels name

unfoldable pub negate_line_op : LineOp → LineOp
negate_line_op LineOp.contains = LineOp.not_contains
negate_line_op LineOp.not_contains = LineOp.contains
negate_line_op LineOp.match = LineOp.not_match
negate_line_op LineOp.not_match = LineOp.match

-- The bound that a comparison of `timestamp` with an instant gives.
unfoldable pub push_time_bound : LokiScanBindData → ExpressionType → ℤ → LokiScanBindData
unfolding add_start_bound add_end_bound
push_time_bound b ExpressionType.compare_greaterthan ns = add_start_bound b ns
push_time_bound b ExpressionType.compare_greaterthanorequalto ns = add_start_bound b ns
push_time_bound b ExpressionType.compare_lessthan ns = add_end_bound b ns
push_time_bound b ExpressionType.compare_lessthanorequalto ns =
    if not (eq_ℤ ns int64_max) then add_end_bound b (ns +ℤ pos 1) else b
push_time_bound b ExpressionType.compare_equal ns =
    if not (eq_ℤ ns int64_max) then add_end_bound (add_start_bound b ns) (ns +ℤ pos 1) else b
push_time_bound b op ns = b

-- The matcher of a comparison of a promoted label; only equality is consumed.
unfoldable pub push_label_comparison : LokiScanBindData → Bytes → ExpressionType → Bytes → Pushed
unfolding push_matcher
push_label_comparison b name ExpressionType.compare_equal value =
    (true, push_matcher b (record { label = name; op = MatchOp.eq; value = value }))
push_label_comparison b name ExpressionType.compare_notequal value =
    (false, push_matcher b (record { label = name; op = MatchOp.neq; value = value }))
push_label_comparison b name op value = (false, b)

-- The line filter of a function on `line`, before negation; `none` where LIKE has no substring form.
unfoldable pub positive_filter : Bytes → Bytes → Option LineFilter
positive_filter fname pattern =
    if str_eq fname (codes "regexp_matches")
    then some (record { op = LineOp.match; value = pattern })
    else if str_eq fname (codes "contains")
    then some (record { op = LineOp.contains; value = pattern })
    else if str_eq fname (codes "prefix")
    then some (record { op = LineOp.match; value = codes "^" ++ regex_escape_literal pattern })
    else if str_eq fname (codes "suffix")
    then some (record { op = LineOp.match; value = regex_escape_literal pattern ++ codes "$" })
    else elim (try_like_to_substring pattern) [
      | none ↦ none
      | some substring ↦ some (record { op = LineOp.contains; value = substring })
    ]

abbrev pub is_line_function : Bytes → Bool
is_line_function fname =
    str_eq fname (codes "~~")
    || str_eq fname (codes "!~~")
    || str_eq fname (codes "regexp_matches")
    || str_eq fname (codes "contains")
    || str_eq fname (codes "prefix")
    || str_eq fname (codes "suffix")

abbrev pub xor : Bool → Bool → Bool
xor true b = not b
xor false b = b

-- The line filter of a function on `line`, negated once for `!~~` and once for an enclosing NOT.
unfoldable pub line_filter_of : Bytes → Bytes → Bool → Option LineFilter
unfolding positive_filter negate_line_op
line_filter_of fname pattern negated = elim (positive_filter fname pattern) [
  | none ↦ none
  | some f ↦ some (
      if xor negated (str_eq fname (codes "!~~")) then record f { op = negate_line_op f.op } else f)
]
