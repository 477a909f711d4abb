-- ===== src/Scan/Filters/Where.antt =====
-- `LokiPushdownComplexFilter` of src/loki/loki_scan.cpp: the predicates of WHERE together.
use mathlib.Core.Path.{subst}
use duckdb_loki.Base.{
  ◌≡◌, ◌↔◌, refl, sym, Bool, true, false, List, [], ◌∷◌, All, inl, inr, Bool-cases, Option-cases,
  if◌then◌else◌,
}
use duckdb_loki.Base.Int.{int64_min, int64_max, ◌≤ℤ◌}
use duckdb_loki.Scan.{LokiScanBindData, ExpressionClass}
use duckdb_loki.Scan.Pushdown.{
  Pushed, push_filter, negated_function, try_comparison, try_function, try_in_list,
  loki_pushdown_complex_filter,
}
use duckdb_loki.Scan.Filters.{Evaluation, Kept, Passes, Sound, unchanged, Means}
use duckdb_loki.Scan.Filters.Comparisons.{try_comparison-Sound}
use duckdb_loki.Scan.Filters.Functions.{try_function-Sound}
use duckdb_loki.Scan.Filters.InLists.{try_in_list-Sound}

module _ (ev : Evaluation) where
  open ev use {planner, get, full_match, matches, row, holds}

  module _ (b : LokiScanBindData) (filter : planner.Expr)
      (means : Means ev b.label_columns filter) where
    abbrev becomes :
        (r : Pushed)
        → push_filter planner get b filter ≡ r
        → Sound ev b filter r
        → Sound ev b filter (push_filter planner get b filter)
    becomes r e s = subst (Sound ev b filter) (sym e) s

    by_class :
        (k : ExpressionClass)
        → planner.class_of filter ≡ k
        → Sound ev b filter (push_filter planner get b filter)
    by_class ExpressionClass.bound_operator e =
        elim (Option-cases (negated_function planner get filter)) [
          | inl n ↦
              becomes (try_in_list planner get b filter)
                (unfold push_filter in rw (e, n, push_filter) refl)
                (try_in_list-Sound ev b filter (means.in_list e n))
          | inr (func, n) ↦
              becomes (try_function planner get b func true)
                (unfold push_filter in rw (e, n, push_filter) refl)
                (try_function-Sound ev b filter func true (means.negation func e n))
        ]
    by_class ExpressionClass.bound_function e = elim (Bool-cases (planner.is_comparison filter)) [
      | inl c ↦
          becomes (try_comparison planner get b filter)
            (unfold push_filter in rw (e, c, push_filter) refl)
            (try_comparison-Sound ev b filter (means.comparison e c))
      | inr c ↦
          becomes (try_function planner get b filter false)
            (unfold push_filter in rw (e, c, push_filter) refl)
            (try_function-Sound ev b filter filter false (means.function e c))
    ]
    by_class ExpressionClass.bound_column_ref e =
        becomes (false, b) (unfold push_filter in rw (e, push_filter) refl) (unchanged ev b filter)
    by_class ExpressionClass.other_class e =
        becomes (false, b) (unfold push_filter in rw (e, push_filter) refl) (unchanged ev b filter)

    push_filter-Sound : Sound ev b filter (push_filter planner get b filter)
    push_filter-Sound = by_class (planner.class_of filter) refl

  abbrev AllHold : List planner.Expr → Type 0
  AllHold filters = All (λ (f : planner.Expr). holds f ≡ true) filters

  -- What the predicates so far have come to.
  abbrev Exact :
      LokiScanBindData → List planner.Expr → List planner.Expr × LokiScanBindData → Type 0
  Exact b filters result =
      (AllHold filters → Passes ev b → AllHold result.0 × Passes ev result.1)
      × (AllHold result.0 → Kept ev result.1 → AllHold filters × Kept ev b)

  one_more :
      (b t : LokiScanBindData) (filter : planner.Expr) (filters : List planner.Expr) (erased : Bool)
      (rest : List planner.Expr × LokiScanBindData)
      → Sound ev b filter (erased, t)
      → Exact t filters rest
      → Exact b (filter ∷ filters) (if erased then rest.0 else filter ∷ rest.0, rest.1)
  one_more b t filter filters true rest (same, to, back, implied) (keeps, exact) = (
    λ (h, hs) p. keeps hs (to h p),
    λ hs k. let (all, k') = exact hs k in ((implied refl k', all), back k'),
  )
  one_more b t filter filters false rest (same, to, back, implied) (keeps, exact) = (
    λ (h, hs) p. let (residual, p') = keeps hs (to h p) in ((h, residual), p'),
    λ (h, hs) k. let (all, k') = exact hs k in ((h, all), back k'),
  )

  loki_pushdown_complex_filter-Exact :
      (b : LokiScanBindData) (filters : List planner.Expr)
      → All (Means ev b.label_columns) filters
      → Exact b filters (loki_pushdown_complex_filter planner get b filters)
  unfolding loki_pushdown_complex_filter
  loki_pushdown_complex_filter-Exact b [] means = (λ hs p. (hs, p), λ hs k. (hs, k))
  loki_pushdown_complex_filter-Exact b (filter ∷ filters) (m, means) =
      let t = (push_filter planner get b filter).1 in
      let sound = push_filter-Sound b filter m in
      one_more b t filter filters (push_filter planner get b filter).0
        (loki_pushdown_complex_filter planner get t filters) sound
        (loki_pushdown_complex_filter-Exact t filters
          (subst (λ labels. All (Means ev labels) filters) (sym sound.0) means))

  -- From bind data into which nothing has been pushed: a row satisfies all predicates of WHERE exactly where Loki
  -- answers with it, by the matchers, line filters and time bounds that were pushed, and the predicates that
  -- stay are true of it. So no row is lost, and no predicate is erased that Loki does not apply. This holds for
  -- predicates that mean what the code takes them to mean, in which no label is compared with an empty text.
  pub loki_pushdown_complex_filter-Passes :
      (b : LokiScanBindData) (filters : List planner.Expr)
      → b.pushed_matchers ≡ []
      → b.pushed_line_filters ≡ []
      → b.pushed_start_ns ≡ int64_min
      → b.pushed_end_ns ≡ int64_max
      → int64_min ≤ℤ row.ts_ns
      → All (Means ev b.label_columns) filters
      → AllHold filters ↔ (
          AllHold (loki_pushdown_complex_filter planner get b filters).0
          × Passes ev (loki_pushdown_complex_filter planner get b filters).1)
  loki_pushdown_complex_filter-Passes b filters ms fs from to old means =
      let (keeps, exact) = loki_pushdown_complex_filter-Exact b filters means in
      let before : Passes ev b = (
        (subst (All _) (sym ms) tt, subst (All _) (sym fs) tt),
        (subst (λ s. s ≤ℤ row.ts_ns) (sym from) old, inr to),
      ) in
      (λ hs. keeps hs before, λ (hs, (k, w)). (exact hs k).0)
