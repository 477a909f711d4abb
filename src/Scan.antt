-- ===== src/Scan.antt =====
-- src/include/loki/loki_scan.hpp and src/loki/loki_scan.cpp: the bind data of a scan, and what the
-- scan reads of DuckDB's planner.
pub mod Pushdown
pub mod Window
pub mod Filters
pub mod Substring
pub mod LineFilters
pub mod Labels
pub mod InList
pub mod ColumnNames
pub mod Promote
pub mod Init
pub mod Cells
pub mod Output
pub mod Bind
use duckdb_loki.Base.{ℕ, ◌*◌, Bool, true, false, Option, none, some, List, [], ◌∷◌, Bytes, codes}
use duckdb_loki.Base.Int.{ℤ, pos, int64_max, int64_min}
use duckdb_loki.Auth.{AuthConfig}
use duckdb_loki.Logql.{LabelMatcher, LineFilter}

abbrev pub loki_nanos_per_hour : ℤ
loki_nanos_per_hour = pos (3600 * 1000 * 1000 * 1000)

pub record LokiScanBindData : Type 0 where
  pub endpoint : Bytes
  pub query : Bytes
  pub start_ns : ℤ
  pub end_ns : ℤ
  pub limit : ℤ
  pub direction : Bytes
  pub auth : AuthConfig
  pub label_columns : List Bytes
  pub fn_name : Bytes
  pub selector_hint : Bytes
  pub series_max_rows : ℕ
  pub pushdown_mode : Bool
  pub base_selector : Bytes
  pub pushed_matchers : List LabelMatcher
  pub pushed_line_filters : List LineFilter
  pub has_param_start : Bool
  pub has_param_end : Bool
  pub pushed_start_ns : ℤ
  pub pushed_end_ns : ℤ

-- The values that the members of `LokiScanBindData` are declared with.
abbrev pub new_bind_data : LokiScanBindData
new_bind_data = record {
  endpoint = [];
  query = [];
  start_ns = pos 0;
  end_ns = pos 0;
  limit = pos 5000;
  direction = codes "backward";
  auth = record { token = []; username = []; password = []; tenant = []; extra_headers = [] };
  label_columns = [];
  fn_name = codes "loki_scan";
  selector_hint =
      codes
        "pass selector := '{job=\"api\"}' or add a WHERE equality/IN on a promoted label column (labels := [...])";
  series_max_rows = 100000;
  pushdown_mode = false;
  base_selector = [];
  pushed_matchers = [];
  pushed_line_filters = [];
  has_param_start = false;
  has_param_end = false;
  pushed_start_ns = int64_min;
  pushed_end_ns = int64_max;
}

-- The classes and types of DuckDB's expressions that the code tells apart.
pub data ExpressionClass : Type 0 where
  bound_operator bound_function bound_column_ref other_class : ExpressionClass

pub data ExpressionType : Type 0 where
  compare_equal compare_notequal compare_lessthan compare_greaterthan : ExpressionType
  compare_lessthanorequalto compare_greaterthanorequalto compare_in : ExpressionType
  operator_not other_type : ExpressionType

-- DuckDB's expressions and values, as far as the code reads them.
pub record Planner : Type 1 where
  pub Expr : Type 0
  pub Value : Type 0
  pub class_of : Expr → ExpressionClass
  pub type_of : Expr → ExpressionType
  pub children : Expr → List Expr
  pub function_name : Expr → Bytes
  pub column_index : Expr → ℕ
  -- `BoundCastExpression::IsCast` with `Child`, and how many casts stand around an expression
  pub cast_child : Expr → Option Expr
  pub casts : Expr → ℕ
  -- `BoundComparisonExpression::IsComparison`, `Left` and `Right`, and `FlipComparisonExpression`
  pub is_comparison : Expr → Bool
  pub left : Expr → Expr
  pub right : Expr → Expr
  pub flip : ExpressionType → ExpressionType
  -- `IsFoldable` with `ExpressionExecutor::TryEvaluateScalar`, and `IsNull`
  pub is_foldable : Expr → Bool
  pub evaluate : Expr → Option Value
  pub is_null : Value → Bool
  pub to_string : Value → Bytes
  -- `DefaultTryCastAs(LogicalType::TIMESTAMP_NS)`, and the number of a value of that type
  pub cast_to_timestamp_ns : Value → Option Value
  pub int64_of : Value → ℤ

-- The columns of `LogicalGet` that the code reads.
pub record LogicalGet : Type 0 where
  pub column_ids : List ℕ
  pub names : List Bytes
