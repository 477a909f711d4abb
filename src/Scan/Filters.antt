-- ===== src/Scan/Filters.antt =====
-- `LokiPushdownComplexFilter` of src/loki/loki_scan.cpp against SQL: which rows the predicates of WHERE are true of,
-- and which rows Loki answers with for what has been pushed.
pub mod Comparisons
pub mod Functions
pub mod InLists
pub mod Where
use duckdb_loki.Scan.InList.{AreConstants, read_alternatives}
use duckdb_loki.Base.{
  ◌≡◌, ◌≢◌, ◌≤◌, refl, ◌↔◌, Bool, true, false, not, ◌&&◌, ◌||◌, Option, none, some, List, [], ◌∷◌,
  Bytes, codes, str_eq, All, ◌⊎◌, if◌then◌else◌,
}
use duckdb_loki.Base.Int.{ℤ, int64_max, ◌≤ℤ◌}
use duckdb_loki.Types.{LokiRow, find}
use duckdb_loki.Logql.{LineFilter}
use duckdb_loki.Scan.{LokiScanBindData, ExpressionType, Planner, LogicalGet, ExpressionClass}
use duckdb_loki.Scan.Pushdown.{
  Pushed, comparison_sides, try_value_to_epoch_ns_exact, is_label_column, resolve_column_name,
  eval_constant, is_in, negated_function,
}
use duckdb_loki.Scan.Window.{Compares, InBounds}
use duckdb_loki.Scan.Labels.{Selected, LabelCompares}
use duckdb_loki.Scan.LineFilters.{LineHolds, LineFunction, name_of, AnchorsText, Holds}

-- `full_match` and `matches` are RE2, anchored and not; `holds` is what DuckDB evaluates a predicate to.
pub record Evaluation : Type 1 where
  pub planner : Planner
  pub get : LogicalGet
  pub full_match : Bytes → Bytes → Bool
  pub matches : Bytes → Bytes → Bool
  pub row : LokiRow
  pub holds : planner.Expr → Bool

abbrev pub IsOneOf : Bytes → List Bytes → Type 0
IsOneOf text [] = ⊥
IsOneOf text (t ∷ ts) = (text ≡ t) ⊎ IsOneOf text ts

module _ (ev : Evaluation) where
  open ev use {planner, get, full_match, matches, row, holds}

  -- What Loki tests of a row, but for the window.
  abbrev pub Kept : LokiScanBindData → Type 0
  Kept b =
      Selected full_match row.labels b.pushed_matchers
      × All (λ (f : LineFilter). LineHolds matches f row.line) b.pushed_line_filters

  -- Loki answers with the row.
  abbrev pub Passes : LokiScanBindData → Type 0
  Passes b = Kept b × InBounds b row.ts_ns

  -- What a predicate makes of the bind data: a row that it is true of is not lost, rows only go, and where it is
  -- erased, Loki's tests imply it.
  abbrev pub Sound : LokiScanBindData → planner.Expr → Pushed → Type 0
  Sound b filter result =
      (result.1.label_columns ≡ b.label_columns)
      × (holds filter ≡ true → Passes b → Passes result.1)
      × (Kept result.1 → Kept b)
      × (result.0 ≡ true → Kept result.1 → holds filter ≡ true)

  pub unchanged : (b : LokiScanBindData) (filter : planner.Expr) → Sound b filter (false, b)
  unchanged b filter = (refl, λ h p. p, λ k. k, λ h k. cc)

  -- What a comparison of a column with a constant means, where the column is `timestamp` or a promoted label; the
  -- text that a label is compared with is not empty.
  pub record MeansComparison (labels : List Bytes) (filter : planner.Expr) : Type 0 where
    pub timestamp :
        (name : Bytes) (op : ExpressionType) (v : planner.Value) (ns : ℤ)
        → comparison_sides planner get filter ≡ some (name, op, v)
        → str_eq name (codes "timestamp") ≡ true
        → try_value_to_epoch_ns_exact planner v ≡ some ns
        → (ns ≤ℤ int64_max) × (holds filter ≡ true → Compares op row.ts_ns ns)
    pub label :
        (name : Bytes) (op : ExpressionType) (v : planner.Value)
        → comparison_sides planner get filter ≡ some (name, op, v)
        → is_label_column labels name ≡ true
        → (planner.to_string v ≢ [])
          × (holds filter ≡ true → LabelCompares op row.labels name (planner.to_string v))
    pub label_equal :
        (name : Bytes) (v : planner.Value)
        → comparison_sides planner get filter ≡ some (name, ExpressionType.compare_equal, v)
        → is_label_column labels name ≡ true
        → find name row.labels ≡ some (planner.to_string v)
        → holds filter ≡ true

  -- What a function of `line` and a constant means, in a predicate that it is, or that negates it.
  abbrev pub MeansFunction : planner.Expr → planner.Expr → Bool → Type 0
  MeansFunction filter func negated =
      (function : LineFunction) (e c : planner.Expr) (v : planner.Value)
      → planner.children func ≡ e ∷ c ∷ []
      → resolve_column_name planner get e ≡ some (codes "line")
      → eval_constant planner c ≡ some v
      → planner.function_name func ≡ name_of function
      → AnchorsText matches (planner.to_string v) row.line
        × ((holds filter ≡ true) ↔ (
            if negated
            then ¬ Holds matches function (planner.to_string v) row.line
            else Holds matches function (planner.to_string v) row.line))

  -- What an IN list of texts means, none of them empty: the label is there and is one of them; and an expression that
  -- reads as these alternatives matches each of them and nothing else.
  abbrev pub MeansInList : List Bytes → planner.Expr → Type 0
  MeansInList labels filter =
      (name : Bytes) (e e2 : planner.Expr) (es : List planner.Expr) (texts : List Bytes)
      → planner.children filter ≡ e ∷ e2 ∷ es
      → is_in planner get (planner.type_of filter) ≡ true
      → resolve_column_name planner get e ≡ some name
      → is_label_column labels name ≡ true
      → AreConstants planner get (e2 ∷ es) texts
      → All (λ (t : Bytes). t ≢ []) texts
        × ((regex text : Bytes)
            → read_alternatives regex ≡ some texts
            → (full_match regex text ≡ true) ↔ IsOneOf text texts)
        × ((holds filter ≡ true)
            ↔ ((w : Bytes) × (find name row.labels ≡ some w) × IsOneOf w texts))

  -- What DuckDB evaluates a predicate to, where the code looks into it.
  pub record Means (labels : List Bytes) (filter : planner.Expr) : Type 0 where
    pub comparison :
        planner.class_of filter ≡ ExpressionClass.bound_function
        → planner.is_comparison filter ≡ true
        → MeansComparison labels filter
    pub function :
        planner.class_of filter ≡ ExpressionClass.bound_function
        → planner.is_comparison filter ≡ false
        → MeansFunction filter filter false
    pub negation :
        (func : planner.Expr)
        → planner.class_of filter ≡ ExpressionClass.bound_operator
        → negated_function planner get filter ≡ some func
        → MeansFunction filter func true
    pub in_list :
        planner.class_of filter ≡ ExpressionClass.bound_operator
        → negated_function planner get filter ≡ none
        → MeansInList labels filter
