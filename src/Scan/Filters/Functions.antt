-- ===== src/Scan/Filters/Functions.antt =====
-- `TryFunction` of src/loki/loki_scan.cpp: what a function of `line` that is pushed keeps.
use mathlib.Core.Path.{subst}
use duckdb_loki.Base.{
  ◌≡◌, refl, sym, ap, ◌∙◌, Bool, true, false, not, ◌||◌, some, List, [], ◌∷◌, Bytes, codes, str_eq,
  All-append, arith, inl, inr, Bool-cases, Option-cases, eq_of_str_eq,
}
use duckdb_loki.Logql.{LineFilter}
use duckdb_loki.Scan.{LokiScanBindData}
use duckdb_loki.Scan.Pushdown.{
  Pushed, try_function, push_line_filter, line_filter_of, is_line_function, resolve_column_name,
  eval_constant,
}
use duckdb_loki.Scan.LineFilters.{
  LineFunction, name_of, LineHolds, line_filter_of-LineHolds, like, not_like, regexp_matches,
  contains_text, prefix, suffix,
}
use duckdb_loki.Scan.Labels.{All-split}
use duckdb_loki.Scan.Filters.{Evaluation, Sound, unchanged, MeansFunction}

line_function :
    (fname : Bytes) → is_line_function fname ≡ true → (f : LineFunction) × (fname ≡ name_of f)
line_function fname h = elim (Bool-cases (str_eq fname (codes "~~"))) [
  | inl e ↦ (like, eq_of_str_eq fname _ e)
  | inr e1 ↦ elim (Bool-cases (str_eq fname (codes "!~~"))) [
    | inl e ↦ (not_like, eq_of_str_eq fname _ e)
    | inr e2 ↦ elim (Bool-cases (str_eq fname (codes "regexp_matches"))) [
      | inl e ↦ (regexp_matches, eq_of_str_eq fname _ e)
      | inr e3 ↦ elim (Bool-cases (str_eq fname (codes "contains"))) [
        | inl e ↦ (contains_text, eq_of_str_eq fname _ e)
        | inr e4 ↦ elim (Bool-cases (str_eq fname (codes "prefix"))) [
          | inl e ↦ (prefix, eq_of_str_eq fname _ e)
          | inr e5 ↦ (suffix, eq_of_str_eq fname _ (ground arith))
        ]
      ]
    ]
  ]
]

module _ (ev : Evaluation) (b : LokiScanBindData) (filter func : ev.planner.Expr)
    (negated : Bool) where
  open ev use {planner, get, full_match, matches, row, holds}

  abbrev tried : Pushed
  tried = try_function planner get b func negated

  abbrev skips : tried ≡ (false, b) → Sound ev b filter tried
  skips e = subst (Sound ev b filter) (sym e) (unchanged ev b filter)

  filter_pushed :
      (f : LineFilter)
      → (holds filter ≡ true → LineHolds matches f row.line)
      → (LineHolds matches f row.line → holds filter ≡ true)
      → Sound ev b filter (true, push_line_filter b f)
  unfolding push_line_filter
  filter_pushed f to from = (
    refl,
    λ h ((s, fs), w). (
      (
        s,
        All-append (λ (g : LineFilter). LineHolds matches g row.line) b.pushed_line_filters (f ∷ [])
            fs (to h, tt),
      ),
      w,
    ),
    λ (s, fs). (
      s,
      (All-split (λ (g : LineFilter). LineHolds matches g row.line) b.pushed_line_filters (f ∷ [])
          fs).0,
    ),
    λ c (s, fs).
        from
          (All-split (λ (g : LineFilter). LineHolds matches g row.line) b.pushed_line_filters
            (f ∷ []) fs).1.0,
  )

  module _ (e c : planner.Expr) (two : planner.children func ≡ e ∷ c ∷ [])
      (means : MeansFunction ev filter func negated) where
    on_line :
        (name : Bytes) (v : planner.Value)
        → resolve_column_name planner get e ≡ some name
        → eval_constant planner c ≡ some v
        → Sound ev b filter tried
    on_line name v r k =
        elim (Bool-cases (
          not (is_line_function (planner.function_name func))
          || not (str_eq name (codes "line")))) [
            | inl other ↦ skips (unfold try_function in rw (two, r, k, other, try_function) refl)
            | inr ours ↦
                elim (Option-cases
                  (line_filter_of (planner.function_name func) (planner.to_string v) negated)) [
                    | inl n ↦
                        skips (unfold try_function in rw (two, r, k, ours, n, try_function) refl)
                    | inr (f, n) ↦
                        let (function, named) =
                          line_function (planner.function_name func) (ground arith) in
                        let line : name ≡ codes "line" = eq_of_str_eq name _ (ground arith) in
                        let (anchors, (to, from)) =
                          means function e c v two (r ∙ ap some line) k named in
                        let n' : line_filter_of (name_of function) (planner.to_string v) negated
                            ≡ some f =
                          ap (λ t. line_filter_of t (planner.to_string v) negated) (sym named)
                          ∙ n in
                        let (keeps, exact) =
                          line_filter_of-LineHolds matches function (planner.to_string v) row.line
                            negated f anchors n' in
                        let same : tried ≡ (true, push_line_filter b f) =
                          unfold try_function in rw (two, r, k, ours, n, try_function) refl in
                        subst (Sound ev b filter) (sym same)
                          (filter_pushed f (λ h. exact (to h)) (λ h. from (keeps h)))
                  ]
          ]

    on_two : Sound ev b filter tried
    on_two = elim (Option-cases (resolve_column_name planner get e)) [
      | inl r ↦ skips (unfold try_function in rw (two, r, try_function) refl)
      | inr (name, r) ↦ elim (Option-cases (eval_constant planner c)) [
        | inl k ↦ skips (unfold try_function in rw (two, r, k, try_function) refl)
        | inr (v, k) ↦ on_line name v r k
      ]
    ]

  on_children :
      (xs : List planner.Expr)
      → planner.children func ≡ xs
      → MeansFunction ev filter func negated
      → Sound ev b filter tried
  on_children [] e means = skips (unfold try_function in rw (e, try_function) refl)
  on_children (x ∷ []) e means = skips (unfold try_function in rw (e, try_function) refl)
  on_children (x ∷ (c ∷ [])) e means = on_two x c e means
  on_children (x ∷ (c ∷ (d ∷ xs))) e means =
      skips (unfold try_function in rw (e, try_function) refl)

  pub try_function-Sound :
      MeansFunction ev filter func negated
      → Sound ev b filter (try_function planner get b func negated)
  try_function-Sound means = on_children (planner.children func) refl means
