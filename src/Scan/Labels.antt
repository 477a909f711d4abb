-- ===== src/Scan/Labels.antt =====
-- The comparisons of a promoted label in src/loki/loki_scan.cpp: what SQL tests, and what the matchers
-- that they become test.
use duckdb_loki.Base.{
  ℕ, suc, ◌≡◌, ◌≢◌, ◌∙◌, refl, sym, ap, Bool, true, false, Option, none, some, List, [], ◌∷◌, ◌++◌,
  Bytes, codes, str_eq, All, All-append,
}
use duckdb_loki.Types.{StringMap, find}
use duckdb_loki.Logql.{MatchOp, LabelMatcher}
use duckdb_loki.Scan.{LokiScanBindData, ExpressionType, Planner, LogicalGet, ExpressionClass}
use duckdb_loki.Scan.Pushdown.{
  push_label_comparison, push_matcher, strip_casts, strip_cast, resolve_column_name,
  inner_column_name, push_filter, try_comparison, comparison_sides, eval_constant, is_label_column,
}

abbrev pub or_empty : Option Bytes → Bytes
or_empty none = []
or_empty (some value) = value

-- The value of a label as Loki's matchers see it: a label that a stream lacks is empty.
abbrev pub label_value : StringMap → Bytes → Bytes
label_value labels name = or_empty (find name labels)

module _ (full_match : Bytes → Bytes → Bool) where
  -- What Loki tests of a stream's labels; `full_match` is an anchored match of a regular expression.
  abbrev pub Matches : StringMap → LabelMatcher → Type 0
  Matches labels m = elim m.op [
    | MatchOp.eq ↦ label_value labels m.label ≡ m.value
    | MatchOp.neq ↦ label_value labels m.label ≢ m.value
    | MatchOp.re ↦ full_match m.value (label_value labels m.label) ≡ true
    | MatchOp.nre ↦ full_match m.value (label_value labels m.label) ≡ false
  ]

  abbrev pub Selected : StringMap → List LabelMatcher → Type 0
  Selected labels ms = All (Matches labels) ms

-- What SQL tests: a label that the stream lacks is NULL, and a comparison with NULL is not true.
abbrev pub LabelCompares : ExpressionType → StringMap → Bytes → Bytes → Type 0
LabelCompares ExpressionType.compare_equal labels name value = find name labels ≡ some value
LabelCompares ExpressionType.compare_notequal labels name value =
    (w : Bytes) × (find name labels ≡ some w) × (w ≢ value)
LabelCompares op labels name value = Unit {0}

or_empty-some :
    (o : Option Bytes) (value : Bytes) → value ≢ [] → or_empty o ≡ value → o ≡ some value
or_empty-some none value h e = absurd (h (sym e))
or_empty-some (some w) value h e = ap some e

pub All-split {ℓ κ} :
    {A : Type ℓ} (P : A → Type κ) (xs ys : List A) → All P (xs ++ ys) → All P xs × All P ys
All-split P [] ys h = (tt, h)
All-split P (x ∷ xs) ys (p, h) = let (k, l) = All-split P xs ys h in ((p, k), l)

module _ (full_match : Bytes → Bytes → Bool) where
  -- No stream that the comparison is true of is lost by the matcher that it pushes.
  label_comparison_keeps :
      (op : ExpressionType) (b : LokiScanBindData) (name value : Bytes) (labels : StringMap)
      → LabelCompares op labels name value
      → Selected full_match labels b.pushed_matchers
      → Selected full_match labels (push_label_comparison b name op value).1.pushed_matchers
  unfolding push_label_comparison push_matcher
  label_comparison_keeps ExpressionType.compare_equal b name value labels h s =
      All-append (Matches full_match labels) b.pushed_matchers _ s (ap or_empty h, tt)
  label_comparison_keeps ExpressionType.compare_notequal b name value labels (w, e, h) s =
      All-append (Matches full_match labels) b.pushed_matchers _ s
        (λ k. h (sym (ap or_empty e) ∙ k), tt)
  label_comparison_keeps ExpressionType.compare_lessthan b name value labels h s = s
  label_comparison_keeps ExpressionType.compare_greaterthan b name value labels h s = s
  label_comparison_keeps ExpressionType.compare_lessthanorequalto b name value labels h s = s
  label_comparison_keeps ExpressionType.compare_greaterthanorequalto b name value labels h s = s
  label_comparison_keeps ExpressionType.compare_in b name value labels h s = s
  label_comparison_keeps ExpressionType.operator_not b name value labels h s = s
  label_comparison_keeps ExpressionType.other_type b name value labels h s = s

  label_comparison_erased :
      (op : ExpressionType) (b : LokiScanBindData) (name value : Bytes) (labels : StringMap)
      → value ≢ []
      → (push_label_comparison b name op value).0 ≡ true
      → Selected full_match labels (push_label_comparison b name op value).1.pushed_matchers
      → LabelCompares op labels name value × Selected full_match labels b.pushed_matchers
  unfolding push_label_comparison push_matcher
  label_comparison_erased ExpressionType.compare_equal b name value labels n c s =
      let (before, (m, _)) = All-split (Matches full_match labels) b.pushed_matchers _ s in
      (or_empty-some (find name labels) value n m, before)
  label_comparison_erased ExpressionType.compare_notequal b name value labels n c s = cc
  label_comparison_erased ExpressionType.compare_lessthan b name value labels n c s = cc
  label_comparison_erased ExpressionType.compare_greaterthan b name value labels n c s = cc
  label_comparison_erased ExpressionType.compare_lessthanorequalto b name value labels n c s = cc
  label_comparison_erased ExpressionType.compare_greaterthanorequalto b name value labels n c s = cc
  label_comparison_erased ExpressionType.compare_in b name value labels n c s = cc
  label_comparison_erased ExpressionType.operator_not b name value labels n c s = cc
  label_comparison_erased ExpressionType.other_type b name value labels n c s = cc

  -- A comparison of a promoted label with a text that is not empty: the matcher that it pushes keeps
  -- every stream that the comparison is true of, and where the predicate is erased, the streams that the
  -- matchers select are those that they selected before and that the comparison is true of.
  pub push_label_comparison-Selected :
      (op : ExpressionType) (b : LokiScanBindData) (name value : Bytes) (labels : StringMap)
      → value ≢ []
      → (LabelCompares op labels name value
          → Selected full_match labels b.pushed_matchers
          → Selected full_match labels (push_label_comparison b name op value).1.pushed_matchers)
        × ((push_label_comparison b name op value).0 ≡ true
            → Selected full_match labels (push_label_comparison b name op value).1.pushed_matchers
            → LabelCompares op labels name value × Selected full_match labels b.pushed_matchers)
  push_label_comparison-Selected op b name value labels n = (
    label_comparison_keeps op b name value labels,
    label_comparison_erased op b name value labels n,
  )

  -- `label = ''` is erased, although the matcher that it becomes selects the streams that lack the label,
  -- which SQL's comparison is not true of.
  pub push_label_comparison_empty :
      (b : LokiScanBindData) (name : Bytes) (labels : StringMap)
      → find name labels ≡ none
      → Selected full_match labels b.pushed_matchers
      → ((push_label_comparison b name ExpressionType.compare_equal []).0 ≡ true)
        × Selected full_match labels
            (push_label_comparison b name ExpressionType.compare_equal []).1.pushed_matchers
        × (¬ LabelCompares ExpressionType.compare_equal labels name [])
  unfolding push_label_comparison push_matcher
  push_label_comparison_empty b name labels e s = (
    refl,
    All-append (Matches full_match labels) b.pushed_matchers _ s (ap or_empty e, tt),
    λ h. cc,
  )

strip_casts-suc :
    (planner : Planner) (n : ℕ) (e c : planner.Expr)
    → planner.cast_child e ≡ some c
    → strip_casts planner (suc n) e ≡ strip_casts planner n c
unfolding strip_casts
strip_casts-suc planner n e c h = rw (h, strip_casts) refl

strip_cast-cast :
    (planner : Planner) (e c : planner.Expr)
    → planner.cast_child e ≡ some c
    → planner.casts e ≡ suc (planner.casts c)
    → strip_cast planner e ≡ strip_cast planner c
unfolding strip_cast
strip_cast-cast planner e c h k =
    ap (λ n. strip_casts planner n e) k ∙ strip_casts-suc planner (planner.casts c) e c h

resolve_column_name-cast :
    (planner : Planner) (get : LogicalGet) (e c : planner.Expr)
    → planner.cast_child e ≡ some c
    → planner.casts e ≡ suc (planner.casts c)
    → resolve_column_name planner get e ≡ resolve_column_name planner get c
unfolding resolve_column_name
resolve_column_name-cast planner get e c h k =
    ap (inner_column_name planner get) (strip_cast-cast planner e c h k)

module _ (planner : Planner) (get : LogicalGet) where
  -- A cast around a promoted label, other than `timestamp`, is not seen, whatever its type is: a comparison of
  -- `CAST(label AS ...)`, to the left, with a constant that is not null becomes what the comparison of the label
  -- itself with that constant becomes; with `=` it is erased, and its matcher compares the text of the label that
  -- has not been cast.
  pub push_filter-cast :
      (b : LokiScanBindData) (filter c : planner.Expr) (name : Bytes) (v : planner.Value)
      → planner.class_of filter ≡ ExpressionClass.bound_function
      → planner.is_comparison filter ≡ true
      → planner.cast_child (planner.left filter) ≡ some c
      → planner.casts (planner.left filter) ≡ suc (planner.casts c)
      → resolve_column_name planner get c ≡ some name
      → eval_constant planner (planner.right filter) ≡ some v
      → str_eq name (codes "timestamp") ≡ false
      → is_label_column b.label_columns name ≡ true
      → (push_filter planner get b filter
          ≡ push_label_comparison b name (planner.type_of filter) (planner.to_string v))
        × (planner.type_of filter ≡ ExpressionType.compare_equal
            → push_filter planner get b filter ≡ (
              true,
              push_matcher b
                  (record { label = name; op = MatchOp.eq; value = planner.to_string v }),
            ))
  push_filter-cast b filter c name v f i cast casts named constant no_time promoted =
      let left : resolve_column_name planner get (planner.left filter) ≡ some name =
        resolve_column_name-cast planner get (planner.left filter) c cast casts ∙ named in
      let sides : comparison_sides planner get filter ≡ some (name, planner.type_of filter, v) =
        unfold comparison_sides in rw (left, constant, comparison_sides) refl in
      let pushed : push_filter planner get b filter
          ≡ push_label_comparison b name (planner.type_of filter) (planner.to_string v) =
        unfold push_filter try_comparison in
        rw (f, i, sides, no_time, promoted, push_filter, try_comparison) refl in
      (
        pushed,
        λ e.
            pushed
            ∙ ap (λ op. push_label_comparison b name op (planner.to_string v)) e
            ∙ (unfold push_label_comparison in refl),
      )
