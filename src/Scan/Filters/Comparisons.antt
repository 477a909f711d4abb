-- ===== src/Scan/Filters/Comparisons.antt =====
-- `TryComparison` of src/loki/loki_scan.cpp: what a comparison that is pushed keeps.
use duckdb_loki.Logql.{LabelMatcher, MatchOp}
use duckdb_loki.Types.{find}
use mathlib.Core.Path.{subst}
use duckdb_loki.Base.{
  ◌≡◌, ◌≢◌, refl, sym, Bool, true, false, none, some, [], ◌∷◌, Bytes, codes, str_eq, All, inl, inr,
  Bool-cases, Option-cases,
}
use duckdb_loki.Base.Int.{ℤ, int64_max, ◌≤ℤ◌, eq_ℤ}
use duckdb_loki.Scan.{LokiScanBindData, ExpressionType}
use duckdb_loki.Scan.Pushdown.{
  Pushed, comparison_sides, try_value_to_epoch_ns_exact, is_label_column, push_time_bound,
  push_label_comparison, push_matcher, add_start_bound, add_end_bound, try_comparison,
}
use duckdb_loki.Scan.Window.{push_time_bound-InBounds, Compares}
use duckdb_loki.Scan.Labels.{
  Selected, LabelCompares, All-split, Matches, push_label_comparison-Selected,
}
use duckdb_loki.Scan.Filters.{Evaluation, Kept, Sound, unchanged, MeansComparison}

-- A time bound leaves the rest of the bind data alone.
abbrev SamePushed : LokiScanBindData → LokiScanBindData → Type 0
SamePushed t b =
    (t.label_columns ≡ b.label_columns)
    × (t.pushed_matchers ≡ b.pushed_matchers)
    × (t.pushed_line_filters ≡ b.pushed_line_filters)

push_time_bound-SamePushed :
    (op : ExpressionType) (b : LokiScanBindData) (ns : ℤ) → SamePushed (push_time_bound b op ns) b
unfolding push_time_bound add_start_bound add_end_bound
push_time_bound-SamePushed ExpressionType.compare_equal b ns =
    elim (Bool-cases (eq_ℤ ns int64_max)) [
      | inl e ↦ rw e (refl, refl, refl)
      | inr e ↦ rw e (refl, refl, refl)
    ]
push_time_bound-SamePushed ExpressionType.compare_notequal b ns = (refl, refl, refl)
push_time_bound-SamePushed ExpressionType.compare_lessthan b ns = (refl, refl, refl)
push_time_bound-SamePushed ExpressionType.compare_greaterthan b ns = (refl, refl, refl)
push_time_bound-SamePushed ExpressionType.compare_lessthanorequalto b ns =
    elim (Bool-cases (eq_ℤ ns int64_max)) [
      | inl e ↦ rw e (refl, refl, refl)
      | inr e ↦ rw e (refl, refl, refl)
    ]
push_time_bound-SamePushed ExpressionType.compare_greaterthanorequalto b ns = (refl, refl, refl)
push_time_bound-SamePushed ExpressionType.compare_in b ns = (refl, refl, refl)
push_time_bound-SamePushed ExpressionType.operator_not b ns = (refl, refl, refl)
push_time_bound-SamePushed ExpressionType.other_type b ns = (refl, refl, refl)

module _ (ev : Evaluation) (b : LokiScanBindData) (cmp : ev.planner.Expr) where
  open ev use {planner, get, full_match, matches, row, holds}

  Kept-SamePushed :
      (t : LokiScanBindData) → SamePushed t b → (Kept ev b → Kept ev t) × (Kept ev t → Kept ev b)
  Kept-SamePushed t (l, m, f) = (
    λ (k, h). (subst (Selected full_match row.labels) (sym m) k, subst (All _) (sym f) h),
    λ (k, h). (subst (Selected full_match row.labels) m k, subst (All _) f h),
  )

  time_pushed :
      (op : ExpressionType) (ns : ℤ)
      → ns ≤ℤ int64_max
      → (holds cmp ≡ true → Compares op row.ts_ns ns)
      → Sound ev b cmp (false, push_time_bound b op ns)
  time_pushed op ns small means =
      let same = push_time_bound-SamePushed op b ns in
      let (to, from) = Kept-SamePushed (push_time_bound b op ns) same in
      (
        same.0,
        λ h (k, w). (to k, push_time_bound-InBounds op b row.ts_ns ns small w (means h)),
        from,
        λ h k. cc,
      )

  -- What the matcher of a comparison keeps, for one that Loki can be asked.
  matcher_pushed :
      (op : ExpressionType) (name value : Bytes) (erased : Bool) (m : LabelMatcher)
      → push_label_comparison b name op value ≡ (erased, push_matcher b m)
      → value ≢ []
      → (holds cmp ≡ true → LabelCompares op row.labels name value)
      → (erased ≡ true → LabelCompares op row.labels name value → holds cmp ≡ true)
      → Sound ev b cmp (push_label_comparison b name op value)
  unfolding push_matcher
  matcher_pushed op name value erased m e filled means implied =
      let (keeps, exact) =
        push_label_comparison-Selected full_match op b name value row.labels filled in
      let keeps' =
        subst
          (λ (r : Pushed).
            (LabelCompares op row.labels name value
              → Selected full_match row.labels b.pushed_matchers
              → Selected full_match row.labels r.1.pushed_matchers))
          e keeps in
      let exact' =
        subst
          (λ (r : Pushed).
            (r.0 ≡ true
              → Selected full_match row.labels r.1.pushed_matchers
              → LabelCompares op row.labels name value
                × Selected full_match row.labels b.pushed_matchers))
          e exact in
      subst (Sound ev b cmp) (sym e) (
        refl,
        λ h ((s, f), w). ((keeps' (means h) s, f), w),
        λ (s, f). ((All-split (Matches full_match row.labels) b.pushed_matchers (m ∷ []) s).0, f),
        λ c (s, f). implied c (exact' c s).0,
      )

  label_pushed :
      (op : ExpressionType) (name value : Bytes)
      → value ≢ []
      → (holds cmp ≡ true → LabelCompares op row.labels name value)
      → (op ≡ ExpressionType.compare_equal → find name row.labels ≡ some value → holds cmp ≡ true)
      → Sound ev b cmp (push_label_comparison b name op value)
  unfolding push_label_comparison
  label_pushed ExpressionType.compare_equal name value filled means implied =
      matcher_pushed ExpressionType.compare_equal name value true
        (record { label = name; op = MatchOp.eq; value = value }) refl filled means
        (λ c. implied refl)
  label_pushed ExpressionType.compare_notequal name value filled means implied =
      matcher_pushed ExpressionType.compare_notequal name value false
        (record { label = name; op = MatchOp.neq; value = value }) refl filled means (λ c. cc)
  label_pushed ExpressionType.compare_lessthan name value filled means implied = unchanged ev b cmp
  label_pushed ExpressionType.compare_greaterthan name value filled means implied =
      unchanged ev b cmp
  label_pushed ExpressionType.compare_lessthanorequalto name value filled means implied =
      unchanged ev b cmp
  label_pushed ExpressionType.compare_greaterthanorequalto name value filled means implied =
      unchanged ev b cmp
  label_pushed ExpressionType.compare_in name value filled means implied = unchanged ev b cmp
  label_pushed ExpressionType.operator_not name value filled means implied = unchanged ev b cmp
  label_pushed ExpressionType.other_type name value filled means implied = unchanged ev b cmp

  -- The branches of `TryComparison`.
  no_sides : comparison_sides planner get cmp ≡ none → try_comparison planner get b cmp ≡ (false, b)
  unfolding try_comparison
  no_sides e = rw (e, try_comparison) refl

  module _ (name : Bytes) (op : ExpressionType) (v : planner.Value)
      (e : comparison_sides planner get cmp ≡ some (name, op, v)) where
    no_instant :
        str_eq name (codes "timestamp") ≡ true
        → try_value_to_epoch_ns_exact planner v ≡ none
        → try_comparison planner get b cmp ≡ (false, b)
    unfolding try_comparison
    no_instant ts n = rw (e, ts, n, try_comparison) refl

    an_instant :
        (ns : ℤ)
        → str_eq name (codes "timestamp") ≡ true
        → try_value_to_epoch_ns_exact planner v ≡ some ns
        → try_comparison planner get b cmp ≡ (false, push_time_bound b op ns)
    unfolding try_comparison
    an_instant ns ts n = rw (e, ts, n, try_comparison) refl

    a_label :
        str_eq name (codes "timestamp") ≡ false
        → is_label_column b.label_columns name ≡ true
        → try_comparison planner get b cmp ≡ push_label_comparison b name op (planner.to_string v)
    unfolding try_comparison
    a_label other l = rw (e, other, l, try_comparison) refl

    other_column :
        str_eq name (codes "timestamp") ≡ false
        → is_label_column b.label_columns name ≡ false
        → try_comparison planner get b cmp ≡ (false, b)
    unfolding try_comparison
    other_column other l = rw (e, other, l, try_comparison) refl

  by_column :
      (name : Bytes) (op : ExpressionType) (v : planner.Value)
      → comparison_sides planner get cmp ≡ some (name, op, v)
      → MeansComparison ev b.label_columns cmp
      → Sound ev b cmp (try_comparison planner get b cmp)
  by_column name op v e means = elim (Bool-cases (str_eq name (codes "timestamp"))) [
    | inl ts ↦ elim (Option-cases (try_value_to_epoch_ns_exact planner v)) [
      | inl n ↦ subst (Sound ev b cmp) (sym (no_instant name op v e ts n)) (unchanged ev b cmp)
      | inr (ns, n) ↦
          let (small, compares) = means.timestamp name op v ns e ts n in
          subst (Sound ev b cmp) (sym (an_instant name op v e ns ts n))
            (time_pushed op ns small compares)
    ]
    | inr other ↦ elim (Bool-cases (is_label_column b.label_columns name)) [
      | inl l ↦
          let (filled, compares) = means.label name op v e l in
          subst (Sound ev b cmp) (sym (a_label name op v e other l)) (
            label_pushed op name (planner.to_string v) filled compares (λ same.
              means.label_equal name v
                (subst (λ o. comparison_sides planner get cmp ≡ some (name, o, v)) same e) l))
      | inr l ↦ subst (Sound ev b cmp) (sym (other_column name op v e other l)) (unchanged ev b cmp)
    ]
  ]

  pub try_comparison-Sound :
      MeansComparison ev b.label_columns cmp → Sound ev b cmp (try_comparison planner get b cmp)
  try_comparison-Sound means = elim (Option-cases (comparison_sides planner get cmp)) [
    | inl e ↦ subst (Sound ev b cmp) (sym (no_sides e)) (unchanged ev b cmp)
    | inr ((name, op, v), e) ↦ by_column name op v e means
  ]
