-- ===== src/Tests/Where.antt =====
-- The theorem on `LokiPushdownComplexFilter` of src/loki/loki_scan.cpp at a concrete WHERE: `job = 'api'`.
use mathlib.Core.Path.{subst}
use duckdb_loki.Base.{
  ℕ, zero, suc, ◌≡◌, ◌≢◌, ◌↔◌, refl, sym, ◌∙◌, Bool, true, false, some, none, [], ◌∷◌, All, arith,
  Bytes, codes, str_eq,
}
use duckdb_loki.Base.Int.{ℤ, pos}
use duckdb_loki.Types.{LokiRow, find}
use duckdb_loki.Scan.{
  LokiScanBindData, new_bind_data, ExpressionClass, ExpressionType, Planner, LogicalGet,
}
use duckdb_loki.Scan.Pushdown.{
  comparison_sides, loki_pushdown_complex_filter, try_value_to_epoch_ns_exact,
}
use duckdb_loki.Scan.Labels.{LabelCompares}
use duckdb_loki.Scan.Filters.{Evaluation, Means, Passes}
use duckdb_loki.Scan.Filters.Where.{loki_pushdown_complex_filter-Passes}

-- 0 is the column, 1 the constant, and 2 their comparison.
abbrev class_of : ℕ → ExpressionClass
class_of zero = ExpressionClass.bound_column_ref
class_of (suc zero) = ExpressionClass.other_class
class_of (suc (suc n)) = ExpressionClass.bound_function

abbrev is_foldable : ℕ → Bool
is_foldable (suc zero) = true
is_foldable n = false

abbrev planner : Planner
planner = record {
  Expr = ℕ;
  Value = Bytes;
  class_of = class_of;
  type_of = λ e. ExpressionType.compare_equal;
  children = λ e. [];
  function_name = λ e. [];
  column_index = λ e. 0;
  cast_child = λ e. none;
  casts = λ e. 0;
  is_comparison = λ e. true;
  left = λ e. 0;
  right = λ e. 1;
  flip = λ op. op;
  is_foldable = is_foldable;
  evaluate = λ e. some (codes "api");
  is_null = λ v. false;
  to_string = λ v. v;
  cast_to_timestamp_ns = λ v. none;
  int64_of = λ v. pos 0;
}

abbrev get : LogicalGet
get = record { column_ids = 0 ∷ []; names = codes "job" ∷ [] }

abbrev row : LokiRow
row = record {
  ts_ns = pos 5;
  line = codes "x";
  labels = (codes "job", codes "api") ∷ [];
  structured_metadata = [];
}

abbrev evaluation : Evaluation
evaluation = record {
  planner = planner;
  get = get;
  full_match = str_eq;
  matches = str_eq;
  row = row;
  holds = λ e. true;
}

abbrev bind_data : LokiScanBindData
bind_data = record new_bind_data { label_columns = codes "job" ∷ []; pushdown_mode = true }

sides :
    comparison_sides planner get 2 ≡ some (codes "job", ExpressionType.compare_equal, codes "api")
unfolding comparison_sides
sides = refl

some_path {ℓ} : {A : Type ℓ} {a b : A} → some a ≡ some b → a ≡ b
some_path h = cc

-- What holds of the one comparison holds of every way to read it.
read_sides :
    (P : Bytes → ExpressionType → Bytes → Type 0) (name : Bytes) (op : ExpressionType) (v : Bytes)
    → comparison_sides planner get 2 ≡ some (name, op, v)
    → P (codes "job") ExpressionType.compare_equal (codes "api")
    → P name op v
read_sides P name op v e p =
    subst (λ (r : Bytes × ExpressionType × Bytes). P r.0 r.1 r.2) (some_path (sym sides ∙ e)) p

-- No constant is a time here.
no_time : (v : Bytes) (ns : ℤ) → try_value_to_epoch_ns_exact planner v ≡ some ns → none ≡ some ns
unfolding try_value_to_epoch_ns_exact
no_time v ns e = e

none_is_no_some {ℓ} : {A : Type ℓ} {a : A} → none ≡ some a → ⊥
none_is_no_some h = cc

is_no_operator : ExpressionClass.bound_function ≡ ExpressionClass.bound_operator → ⊥
is_no_operator h = cc

true_is_not_false : true ≡ false → ⊥
true_is_not_false h = cc

api_of_job :
    ((codes "api") ≢ [])
    × (true ≡ true
        → LabelCompares ExpressionType.compare_equal row.labels (codes "job") (codes "api"))
unfolding find str_eq
api_of_job = ((λ h. cc), (λ h. refl))

means : Means evaluation (codes "job" ∷ []) 2
means = record {
  comparison = λ c i. record {
    timestamp = λ name op v ns e ts n. absurd (none_is_no_some (no_time v ns n));
    label = λ name op v e l.
        read_sides (λ name op v. (v ≢ []) × (true ≡ true → LabelCompares op row.labels name v)) name
          op v e api_of_job;
    label_equal = λ name v e l found. refl;
  };
  function = λ c i. absurd (true_is_not_false i);
  negation = λ func c n. absurd (is_no_operator c);
  in_list = λ c n. absurd (is_no_operator c);
}

loki_pushdown_complex_filter-Passes_example : All (λ (f : ℕ). true ≡ true) (2 ∷ []) ↔ (
    All (λ (f : ℕ). true ≡ true) (loki_pushdown_complex_filter planner get bind_data (2 ∷ [])).0
    × Passes evaluation (loki_pushdown_complex_filter planner get bind_data (2 ∷ [])).1)
loki_pushdown_complex_filter-Passes_example =
    loki_pushdown_complex_filter-Passes evaluation bind_data (2 ∷ []) refl refl refl refl
      (omega arith) (means, tt)
