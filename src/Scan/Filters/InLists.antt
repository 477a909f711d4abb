-- ===== src/Scan/Filters/InLists.antt =====
-- `TryInList` of src/loki/loki_scan.cpp: what an IN list of a promoted label that is pushed keeps.
use mathlib.Core.Path.{subst}
use duckdb_loki.Base.{
  ◌≡◌, ◌≢◌, refl, sym, ◌∙◌, true, false, Option, none, some, List, [], ◌∷◌, ◌++◌, Bytes, codes, All,
  All-append, inl, inr, Bool-cases, Option-cases, is_empty, if◌then◌else◌,
}
use duckdb_loki.Types.{find}
use duckdb_loki.Logql.{LabelMatcher, MatchOp, regex_escape_literal}
use duckdb_loki.Scan.{LokiScanBindData, Planner, LogicalGet}
use duckdb_loki.Scan.Pushdown.{
  Pushed, try_in_list, push_matcher, in_list_regex, resolve_column_name, eval_constant, is_in,
  is_label_column,
}
use duckdb_loki.Scan.Labels.{All-split, Matches, or_empty, label_value}
use duckdb_loki.Scan.InList.{AreConstants, read_alternatives, read_alternatives-in_list_regex}
use duckdb_loki.Scan.Filters.{Evaluation, Sound, unchanged, IsOneOf, MeansInList}

some_injective {ℓ} : {A : Type ℓ} {a b : A} → some a ≡ some b → a ≡ b
some_injective h = cc

-- A text that is not empty is one that the label has.
or_empty-IsOneOf :
    (o : Option Bytes) (texts : List Bytes)
    → All (λ (t : Bytes). t ≢ []) texts
    → IsOneOf (or_empty o) texts
    → (w : Bytes) × (o ≡ some w) × IsOneOf w texts
or_empty-IsOneOf (some w) texts h k = (w, refl, k)
or_empty-IsOneOf none [] h k = absurd k
or_empty-IsOneOf none (t ∷ ts) (n, h) (inl e) = absurd (n (sym e))
or_empty-IsOneOf none (t ∷ ts) (n, h) (inr k) =
    let (w, e, one) = or_empty-IsOneOf none ts h k in (w, e, inr one)

-- Where the loop over the members succeeds, each is a constant.
in_list_regex-AreConstants :
    (planner : Planner) (get : LogicalGet) (es : List planner.Expr) (regex result : Bytes)
    → in_list_regex planner get regex es ≡ some result
    → (texts : List Bytes) × AreConstants planner get es texts
unfolding in_list_regex
in_list_regex-AreConstants planner get [] regex result h = ([], tt)
in_list_regex-AreConstants planner get (e ∷ es) regex result h =
    elim (Option-cases (eval_constant planner e)) [
      | inl k ↦ let h' : none ≡ some result = rw (k, in_list_regex) at h in cc
      | inr (v, k) ↦
          let h' : in_list_regex planner get
                ((if is_empty regex then regex else regex ++ codes "|")
                  ++ regex_escape_literal (planner.to_string v))
                es
              ≡ some result =
            rw (k, in_list_regex) at h in
          let (texts, all) = in_list_regex-AreConstants planner get es _ result h' in
          (planner.to_string v ∷ texts, ((v, k, refl), all))
    ]

module _ (ev : Evaluation) (b : LokiScanBindData) (filter : ev.planner.Expr) where
  open ev use {planner, get, full_match, matches, row, holds}

  abbrev listed : Pushed
  listed = try_in_list planner get b filter

  abbrev skips : listed ≡ (false, b) → Sound ev b filter listed
  skips e = subst (Sound ev b filter) (sym e) (unchanged ev b filter)

  matcher_pushed :
      (m : LabelMatcher)
      → (holds filter ≡ true → Matches full_match row.labels m)
      → (Matches full_match row.labels m → holds filter ≡ true)
      → Sound ev b filter (true, push_matcher b m)
  unfolding push_matcher
  matcher_pushed m to from = (
    refl,
    λ h ((s, f), w). (
      (All-append (Matches full_match row.labels) b.pushed_matchers (m ∷ []) s (to h, tt), f),
      w,
    ),
    λ (s, f). ((All-split (Matches full_match row.labels) b.pushed_matchers (m ∷ []) s).0, f),
    λ c (s, f). from (All-split (Matches full_match row.labels) b.pushed_matchers (m ∷ []) s).1.0,
  )

  module _ (e e2 : planner.Expr) (es : List planner.Expr)
      (members : planner.children filter ≡ e ∷ e2 ∷ es)
      (means : MeansInList ev b.label_columns filter) where
    on_texts :
        (name regex : Bytes) (texts : List Bytes)
        → resolve_column_name planner get e ≡ some name
        → in_list_regex planner get [] (e2 ∷ es) ≡ some regex
        → is_in planner get (planner.type_of filter) ≡ true
        → is_label_column b.label_columns name ≡ true
        → AreConstants planner get (e2 ∷ es) texts
        → Sound ev b filter
            (true, push_matcher b (record { label = name; op = MatchOp.re; value = regex }))
    on_texts name regex [] r g i l all = absurd all
    on_texts name regex (text ∷ texts) r g i l all =
        let (filled, alternatives, (to, from)) =
          means name e e2 es (text ∷ texts) members i r l all in
        let (regex', g', read) =
          read_alternatives-in_list_regex planner get text texts (e2 ∷ es) filled.0 all in
        let same : regex' ≡ regex = some_injective (sym g' ∙ g) in
        let read' : read_alternatives regex ≡ some (text ∷ texts) =
          subst (λ t. read_alternatives t ≡ some (text ∷ texts)) same read in
        let (matched, matching) = alternatives regex (label_value row.labels name) read' in
        matcher_pushed (record { label = name; op = MatchOp.re; value = regex })
          (λ h.
            let (w, found, one) = to h in
            matching (subst (λ o. IsOneOf (or_empty o) (text ∷ texts)) (sym found) one))
          (λ h. from (or_empty-IsOneOf (find name row.labels) (text ∷ texts) filled (matched h)))

    on_members : Sound ev b filter listed
    on_members = elim (Option-cases (resolve_column_name planner get e)) [
      | inl r ↦ skips (unfold try_in_list in rw (members, r, try_in_list) refl)
      | inr (name, r) ↦ elim (Option-cases (in_list_regex planner get [] (e2 ∷ es))) [
        | inl g ↦ skips (unfold try_in_list in rw (members, r, g, try_in_list) refl)
        | inr (regex, g) ↦ elim (Bool-cases (is_in planner get (planner.type_of filter))) [
          | inl i ↦ elim (Bool-cases (is_label_column b.label_columns name)) [
            | inl l ↦
                let (texts, all) = in_list_regex-AreConstants planner get (e2 ∷ es) [] regex g in
                let same : listed ≡ (
                  true,
                  push_matcher b (record { label = name; op = MatchOp.re; value = regex }),
                ) =
                  unfold try_in_list in rw (members, r, g, i, l, try_in_list) refl in
                subst (Sound ev b filter) (sym same) (on_texts name regex texts r g i l all)
            | inr l ↦ skips (unfold try_in_list in rw (members, r, g, i, l, try_in_list) refl)
          ]
          | inr i ↦ skips (unfold try_in_list in rw (members, r, g, i, try_in_list) refl)
        ]
      ]
    ]

  on_children :
      (xs : List planner.Expr)
      → planner.children filter ≡ xs
      → MeansInList ev b.label_columns filter
      → Sound ev b filter listed
  on_children [] e means = skips (unfold try_in_list in rw (e, try_in_list) refl)
  on_children (x ∷ []) e means = skips (unfold try_in_list in rw (e, try_in_list) refl)
  on_children (x ∷ (x2 ∷ xs)) e means = on_members x x2 xs e means

  pub try_in_list-Sound :
      MeansInList ev b.label_columns filter → Sound ev b filter (try_in_list planner get b filter)
  try_in_list-Sound means = on_children (planner.children filter) refl means
