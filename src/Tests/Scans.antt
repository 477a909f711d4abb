-- ===== src/Tests/Scans.antt =====
-- The theorems on src/loki/pager.cpp and src/loki/loki_scan.cpp at concrete inputs.
use duckdb_loki.Base.{
  ℕ, zero, suc, ◌≡◌, ◌↔◌, inl, inr, refl, true, false, Option, none, some, List, [], ◌∷◌, arith,
  codes, Bytes, str_eq, ◌++◌, length, take,
}
use duckdb_loki.Base.Int.{◌-ℤ◌, ℤ, pos, ◌+ℤ◌, ◌≤ℤ◌, ◌<ℤ◌}
use duckdb_loki.Types.{find, StringMap, StreamEntry, StreamChunk}
use duckdb_loki.Pager.{StreamPager, new_pager, entry_key, accept, next_request, has_key}
use duckdb_loki.Pager.Key.{entry_key_collision}
use duckdb_loki.Pager.Rows.{room, entries_of}
use duckdb_loki.Pager.Boundary.{boundary_ns, rows_but, accept-rows_but}
use duckdb_loki.Pager.Progress.{Server, remaining}
use duckdb_loki.Pager.Total.{pages, Completes, pages_complete}
use duckdb_loki.Logql.{regex_escape_literal, regex_escape_char, LineOp, MatchOp}
use duckdb_loki.Scan.{
  LokiScanBindData, new_bind_data, ExpressionClass, ExpressionType, Planner, LogicalGet,
}
use duckdb_loki.Scan.InList.{read_alternatives, read_alternatives-in_list_regex}
use duckdb_loki.Scan.Pushdown.{
  in_list_regex, eval_constant, push_time_bound, push_label_comparison, line_filter_of,
  resolve_column_name, push_filter, push_matcher, is_label_column,
}
use duckdb_loki.Scan.Window.{InBounds, push_time_bound-InBounds, effective_window-InBounds}
use duckdb_loki.Scan.Init.{effective_start, effective_end}
use duckdb_loki.Scan.LineFilters.{LineHolds, Holds, prefix, line_filter_of-LineHolds}
use duckdb_loki.Scan.Labels.{
  Selected, LabelCompares, push_label_comparison-Selected, push_label_comparison_empty,
  push_filter-cast,
}

entry_key_collision_example :
    entry_key (pos 7) (codes "x") ((codes "a", codes "b") ∷ [])
    ≡ entry_key (pos 7) (codes "x" ++ (0x1e ∷ (codes "a" ++ (0x1d ∷ codes "b")))) []
entry_key_collision_example = entry_key_collision (pos 7) (codes "x") (codes "a") (codes "b") []

abbrev pager : StreamPager
pager = new_pager (codes "{a=\"b\"}") (pos 10) (pos 20) (codes "backward") (pos 3) (pos 2)

abbrev entry : ℤ → Bytes → StreamEntry
entry ts line = record { ts_ns = ts; line = line; structured_metadata = [] }

abbrev page : List StreamChunk
page =
    record { labels = []; values = entry (pos 19) (codes "x") ∷ entry (pos 15) (codes "y") ∷ [] }
    ∷ []

-- The page behind it, which starts with the last entry of `page`.
abbrev next_page : List StreamChunk
next_page =
    record { labels = []; values = entry (pos 15) (codes "y") ∷ entry (pos 12) (codes "z") ∷ [] }
    ∷ []

abbrev asked : StreamPager
asked = (next_request pager).1

accept-rows_but_example :
    ((accept (next_request (accept asked page).1).1 next_page).0
      ≡ take
          (room (accept asked page).1.user_limit (accept asked page).1.emitted)
          (rows_but (boundary_ns (accept asked page).1) (entries_of page) (entries_of next_page)))
    × ((accept (next_request (accept asked page).1).1 next_page).1.emitted
        ≡ (accept asked page).1.emitted
          +ℤ pos (length (accept (next_request (accept asked page).1).1 next_page).0))
unfolding accept next_request new_pager has_key ◌+ℤ◌ ◌-ℤ◌ str_eq
accept-rows_but_example =
    accept-rows_but asked page next_page refl (((refl, tt), tt), (((refl, tt), tt), tt))
      (((refl, tt), tt), (((refl, tt), tt), tt))

-- A server that has no entries.
abbrev no_entries : Server
no_entries request = []

pages_complete_example : Completes (pages 11 no_entries pager) pager
unfolding new_pager remaining str_eq ◌-ℤ◌
pages_complete_example =
    pages_complete 11 no_entries pager (λ logql start end limit direction. tt) (omega arith)
      (inr (omega arith))

-- `line NOT LIKE 'a%'` on the line `a`.
line_filter_of-LineHolds_example :
    LineHolds (λ r line. true) (record { op = LineOp.not_match; value = codes "^a" }) (codes "a")
    ↔ (¬ Holds (λ r line. true) prefix (codes "a") (codes "a"))
unfolding line_filter_of str_eq regex_escape_literal regex_escape_char
line_filter_of-LineHolds_example =
    line_filter_of-LineHolds (λ r line. true) prefix (codes "a") (codes "a") true
      (record { op = LineOp.not_match; value = codes "^a" })
      (λ r h. ((λ m. ([], refl), λ p. refl), (λ m. ([], refl), λ p. refl))) refl

push_time_bound-InBounds_example :
    InBounds
      (push_time_bound new_bind_data ExpressionType.compare_lessthanorequalto (pos 9))
      (pos 9)
push_time_bound-InBounds_example =
    push_time_bound-InBounds ExpressionType.compare_lessthanorequalto new_bind_data (pos 9) (pos 9)
      (omega arith) (omega arith, inl (omega arith)) (omega arith)

abbrev bounded : LokiScanBindData
bounded = record new_bind_data {
  pushdown_mode = true;
  has_param_start = true;
  start_ns = pos 5;
  pushed_start_ns = pos 3;
  pushed_end_ns = pos 9;
}

effective_window-InBounds_example :
    (effective_start bounded ≤ℤ pos 8) × (pos 8 <ℤ effective_end bounded)
effective_window-InBounds_example =
    effective_window-InBounds bounded (pos 8) refl (omega arith, inl (omega arith))
      (inl (omega arith)) (inr (refl, refl))

abbrev streams : StringMap
streams = (codes "job", codes "api") ∷ []

push_label_comparison-Selected_example :
    (LabelCompares ExpressionType.compare_equal streams (codes "job") (codes "api")
      → Selected (λ r s. true) streams []
      → Selected
          (λ r s. true)
          streams
          (push_label_comparison new_bind_data
            (codes "job")
            ExpressionType.compare_equal
            (codes "api")).1.pushed_matchers)
    × ((push_label_comparison new_bind_data
            (codes "job")
            ExpressionType.compare_equal
            (codes "api")).0
          ≡ true
        → Selected
            (λ r s. true)
            streams
            (push_label_comparison new_bind_data
              (codes "job")
              ExpressionType.compare_equal
              (codes "api")).1.pushed_matchers
        → LabelCompares ExpressionType.compare_equal streams (codes "job") (codes "api")
          × Selected (λ r s. true) streams [])
push_label_comparison-Selected_example =
    push_label_comparison-Selected (λ r s. true) ExpressionType.compare_equal new_bind_data
      (codes "job") (codes "api") streams (λ e. cc)

push_label_comparison_empty_example :
    ((push_label_comparison new_bind_data (codes "env") ExpressionType.compare_equal []).0 ≡ true)
    × Selected
        (λ r s. true)
        streams
        (push_label_comparison new_bind_data
          (codes "env")
          ExpressionType.compare_equal
          []).1.pushed_matchers
    × (¬ LabelCompares ExpressionType.compare_equal streams (codes "env") [])
unfolding find str_eq
push_label_comparison_empty_example =
    push_label_comparison_empty (λ r s. true) new_bind_data (codes "env") streams refl tt

-- Expressions are numbers of casts around the first column.
abbrev cast_child_of : ℕ → Option ℕ
cast_child_of zero = none
cast_child_of (suc n) = some n

abbrev planner : Planner
planner = record {
  Expr = ℕ;
  Value = Bytes;
  class_of = λ e. ExpressionClass.bound_column_ref;
  type_of = λ e. ExpressionType.other_type;
  children = λ e. [];
  function_name = λ e. [];
  column_index = λ e. 0;
  cast_child = cast_child_of;
  casts = λ e. e;
  is_comparison = λ e. false;
  left = λ e. e;
  right = λ e. e;
  flip = λ op. op;
  is_foldable = λ e. false;
  evaluate = λ e. none;
  is_null = λ v. false;
  to_string = λ v. v;
  cast_to_timestamp_ns = λ v. none;
  int64_of = λ v. pos 0;
}

abbrev get : LogicalGet
get = record { column_ids = 2 ∷ []; names = codes "timestamp" ∷ codes "line" ∷ codes "level" ∷ [] }

abbrev levels : LokiScanBindData
levels = record new_bind_data { label_columns = codes "level" ∷ [] }

abbrev casting_class_of : ℕ → ExpressionClass
casting_class_of zero = ExpressionClass.bound_column_ref
casting_class_of (suc n) = ExpressionClass.bound_function

-- `CAST(level AS ...) = 'api'`: 3 is the comparison, 2 the constant.
abbrev casting : Planner
casting = record planner {
  class_of = casting_class_of;
  type_of = λ e. ExpressionType.compare_equal;
  is_comparison = λ e. true;
  left = λ e. 1;
  right = λ e. 2;
  is_foldable = λ e. true;
  evaluate = λ e. some (codes "api");
}

push_filter-cast_example :
    (push_filter casting get levels 3
      ≡ push_label_comparison levels (codes "level") ExpressionType.compare_equal (codes "api"))
    × (ExpressionType.compare_equal ≡ ExpressionType.compare_equal
        → push_filter casting get levels 3 ≡ (
          true,
          push_matcher levels
              (record { label = codes "level"; op = MatchOp.eq; value = codes "api" }),
        ))
unfolding resolve_column_name eval_constant str_eq is_label_column
push_filter-cast_example =
    push_filter-cast casting get levels 3 0 (codes "level") (codes "api") refl refl refl refl refl
      refl refl refl

abbrev text_of_member : ℕ → Bytes
text_of_member zero = codes "api"
text_of_member (suc n) = codes "a.b|c"

abbrev constants : Planner
constants = record planner { is_foldable = λ e. true; evaluate = λ e. some (text_of_member e) }

read_alternatives-in_list_regex_example :
    (regex : Bytes) × (in_list_regex constants get [] (0 ∷ 1 ∷ []) ≡ some regex)
    × (read_alternatives regex ≡ some (codes "api" ∷ codes "a.b|c" ∷ []))
unfolding eval_constant
read_alternatives-in_list_regex_example =
    read_alternatives-in_list_regex constants get (codes "api") (codes "a.b|c" ∷ []) (0 ∷ 1 ∷ [])
      (λ e. cc) ((codes "api", refl, refl), ((codes "a.b|c", refl, refl), tt))
