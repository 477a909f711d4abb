-- ===== src/Scan/Pushdown.antt =====
-- src/loki/loki_scan.cpp: the predicates of WHERE, translated to matchers, line filters and time bounds.
mod Pushes
use duckdb_loki.Base.{
  ℕ, zero, suc, Bool, true, false, not, ◌&&◌, ◌||◌, Option, none, some, List, [], ◌∷◌, ◌++◌, Bytes,
  codes, str_eq, is_empty, if◌then◌else◌, get_elem?,
}
use duckdb_loki.Base.Int.{ℤ, pos, ◌+ℤ◌, int64_max, eq_ℤ, min_ℤ, max_ℤ}
use duckdb_loki.Logql.{
  MatchOp, LabelMatcher, LineOp, LineFilter, regex_escape_literal, try_like_to_substring,
}
use duckdb_loki.Scan.{LokiScanBindData, ExpressionClass, ExpressionType, Planner, LogicalGet}
pub use duckdb_loki.Scan.Pushdown.Pushes.{Pushed, is_line_function, xor}
unfoldable pub use duckdb_loki.Scan.Pushdown.Pushes.{
  add_start_bound, add_end_bound, push_matcher, push_line_filter, is_label_column, negate_line_op,
  push_time_bound, push_label_comparison, positive_filter, line_filter_of,
}

abbrev pub both {ℓ κ} : {A : Type ℓ} {B : Type κ} → Option A → Option B → Option (A × B)
both none b = none
both (some a) none = none
both (some a) (some b) = some (a, b)

module _ (planner : Planner) where
  -- The loop of `StripCast`, on the number of casts.
  unfoldable pub strip_casts : ℕ → planner.Expr → planner.Expr
  strip_casts zero e = e
  strip_casts (suc n) e = elim (planner.cast_child e) [ none ↦ e | some c ↦ strip_casts n c ]

  unfoldable pub strip_cast : planner.Expr → planner.Expr
  unfolding strip_casts
  strip_cast e = strip_casts (planner.casts e) e

  unfoldable pub eval_constant : planner.Expr → Option planner.Value
  eval_constant e = if not (planner.is_foldable e) then none else elim (planner.evaluate e) [
    | none ↦ none
    | some v ↦ if planner.is_null v then none else some v
  ]

  unfoldable pub try_value_to_epoch_ns_exact : planner.Value → Option ℤ
  try_value_to_epoch_ns_exact value = elim (planner.cast_to_timestamp_ns value) [
    | none ↦ none
    | some as_ns ↦ if planner.is_null as_ns then none else some (planner.int64_of as_ns)
  ]

  module _ (get : LogicalGet) where
    -- `ResolveColumnName` behind `StripCast`.
    unfoldable pub inner_column_name : planner.Expr → Option Bytes
    inner_column_name inner = elim (planner.class_of inner) [
      | ExpressionClass.bound_column_ref ↦
          elim (get_elem? get.column_ids (planner.column_index inner)) [
            | none ↦ none
            | some storage ↦ get_elem? get.names storage
          ]
      | _ ↦ none
    ]

    unfoldable pub resolve_column_name : planner.Expr → Option Bytes
    unfolding strip_cast inner_column_name
    resolve_column_name e = inner_column_name (strip_cast e)

    -- The column, the operator and the constant of a comparison, with the column to the left.
    unfoldable pub comparison_sides : planner.Expr → Option (Bytes × ExpressionType × planner.Value)
    unfolding resolve_column_name eval_constant
    comparison_sides cmp =
        let op = planner.type_of cmp in
        let left = planner.left cmp in
        let right = planner.right cmp in
        let flipped : Option (Bytes × ExpressionType × planner.Value) =
          elim (both (resolve_column_name right) (eval_constant left)) [
            | some (name, v) ↦ some (name, planner.flip op, v)
            | none ↦ none
          ] in
        elim (both (resolve_column_name left) (eval_constant right)) [
          | some (name, v) ↦ some (name, op, v)
          | none ↦ flipped
        ]

    unfoldable pub try_comparison : LokiScanBindData → planner.Expr → Pushed
    unfolding comparison_sides push_time_bound push_label_comparison try_value_to_epoch_ns_exact
    try_comparison b cmp = elim (comparison_sides cmp) [
      | none ↦ (false, b)
      | some (name, op, constant) ↦
          if str_eq name (codes "timestamp")
          then elim (try_value_to_epoch_ns_exact constant) [
            | none ↦ (false, b)
            | some ns ↦ (false, push_time_bound b op ns)
          ]
          else if is_label_column b.label_columns name
          then push_label_comparison b name op (planner.to_string constant)
          else (false, b)
    ]

    -- The loop of `TryInList` over the members; `none` where one is not a constant.
    unfoldable pub in_list_regex : Bytes → List planner.Expr → Option Bytes
    in_list_regex regex [] = some regex
    in_list_regex regex (e ∷ es) = elim (eval_constant e) [
      | none ↦ none
      | some v ↦
          in_list_regex
            ((if is_empty regex then regex else regex ++ codes "|")
              ++ regex_escape_literal (planner.to_string v))
            es
    ]

    pub is_in : ExpressionType → Bool
    is_in ExpressionType.compare_in = true
    is_in op = false

    unfoldable pub try_in_list : LokiScanBindData → planner.Expr → Pushed
    unfolding in_list_regex push_matcher resolve_column_name is_in
    try_in_list b op = elim (planner.children op) [
      | [] ↦ (false, b)
      | e ∷ [] ↦ (false, b)
      | e ∷ (e2 ∷ es) ↦ elim (both (resolve_column_name e) (in_list_regex [] (e2 ∷ es))) [
        | some (name, regex) ↦
            if is_in (planner.type_of op) && is_label_column b.label_columns name
            then (true, push_matcher b (record { label = name; op = MatchOp.re; value = regex }))
            else (false, b)
        | _ ↦ (false, b)
      ]
    ]

    unfoldable pub try_function : LokiScanBindData → planner.Expr → Bool → Pushed
    unfolding line_filter_of push_line_filter resolve_column_name eval_constant
    try_function b func negated = elim (planner.children func) [
      | e ∷ (c ∷ []) ↦ elim (both (resolve_column_name e) (eval_constant c)) [
        | some (name, pattern) ↦
            let fname = planner.function_name func in
            if not (is_line_function fname) || not (str_eq name (codes "line"))
            then (false, b)
            else elim (line_filter_of fname (planner.to_string pattern) negated) [
              | none ↦ (false, b)
              | some f ↦ (true, push_line_filter b f)
            ]
        | _ ↦ (false, b)
      ]
      | _ ↦ (false, b)
    ]

    is_not : ExpressionType → Bool
    is_not ExpressionType.operator_not = true
    is_not op = false

    -- The child of a NOT around a function.
    unfoldable pub negated_function : planner.Expr → Option planner.Expr
    unfolding is_not
    negated_function op = elim (planner.children op) [
      | e ∷ [] ↦ elim (planner.class_of e) [
        | ExpressionClass.bound_function ↦ if is_not (planner.type_of op) then some e else none
        | _ ↦ none
      ]
      | _ ↦ none
    ]

    -- The body of the loop of `LokiPushdownComplexFilter`.
    unfoldable pub push_filter : LokiScanBindData → planner.Expr → Pushed
    unfolding try_comparison try_in_list try_function negated_function
    push_filter b filter = elim (planner.class_of filter) [
      | ExpressionClass.bound_operator ↦ elim (negated_function filter) [
        | some e ↦ try_function b e true
        | none ↦ try_in_list b filter
      ]
      | ExpressionClass.bound_function ↦
          if planner.is_comparison filter
          then try_comparison b filter
          else try_function b filter false
      | _ ↦ (false, b)
    ]

    -- The predicates that stay, and the bind data that the others are pushed into.
    unfoldable pub loki_pushdown_complex_filter :
        LokiScanBindData → List planner.Expr → List planner.Expr × LokiScanBindData
    unfolding push_filter
    loki_pushdown_complex_filter b [] = ([], b)
    loki_pushdown_complex_filter b (filter ∷ filters) =
        let (consumed, b') = push_filter b filter in
        let (residuals, b'') = loki_pushdown_complex_filter b' filters in
        (if consumed then residuals else filter ∷ residuals, b'')
