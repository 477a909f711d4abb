-- ===== src/Scan/LineFilters.antt =====
-- `TryFunction` and `NegateLineOp` of src/loki/loki_scan.cpp against what SQL's functions and Loki's
-- line filters test.
use mathlib.Core.Path.{subst}
use duckdb_loki.Base.{
  ◌≡◌, ◌↔◌, refl, Bool, true, false, none, some, ◌++◌, Bytes, codes, str_eq, if◌then◌else◌,
  Bool-cases, Option-cases, inl, inr,
}
use duckdb_loki.Logql.{LineOp, LineFilter, regex_escape_literal, try_like_to_substring}
use duckdb_loki.Logql.Regex.{read_literal, read_literal-regex_escape_literal}
use duckdb_loki.Logql.Like.{Like, Contains, try_like_to_substring-Contains}
use duckdb_loki.Scan.Substring.{HasPrefix, HasSuffix, contains?}
use duckdb_loki.Scan.Pushdown.{negate_line_op, positive_filter, line_filter_of, xor}

-- The functions on `line` that the optimizer leaves in a WHERE.
pub data LineFunction : Type 0 where
  like not_like regexp_matches contains_text prefix suffix : LineFunction

abbrev pub name_of : LineFunction → Bytes
name_of like = codes "~~"
name_of not_like = codes "!~~"
name_of regexp_matches = codes "regexp_matches"
name_of contains_text = codes "contains"
name_of prefix = codes "prefix"
name_of suffix = codes "suffix"

-- `matches r line`: the RE2 expression `r` matches some part of the line.
module _ (matches : Bytes → Bytes → Bool) where
  -- What Loki tests for a line filter.
  abbrev pub LineHolds : LineFilter → Bytes → Type 0
  LineHolds f line = elim f.op [
    | LineOp.contains ↦ Contains f.value line
    | LineOp.not_contains ↦ ¬ Contains f.value line
    | LineOp.match ↦ matches f.value line ≡ true
    | LineOp.not_match ↦ matches f.value line ≡ false
  ]

  -- What SQL tests for a function of `line` and a pattern.
  abbrev pub Holds : LineFunction → Bytes → Bytes → Type 0
  Holds like pattern line = Like pattern line
  Holds not_like pattern line = ¬ Like pattern line
  Holds regexp_matches pattern line = matches pattern line ≡ true
  Holds contains_text pattern line = Contains pattern line
  Holds prefix pattern line = HasPrefix pattern line
  Holds suffix pattern line = HasSuffix pattern line

  -- Behind `^`, and before `$`, an expression for one text matches at the line's start, and at its end.
  abbrev pub AnchorsText : Bytes → Bytes → Type 0
  AnchorsText text line =
      (r : Bytes)
      → read_literal r ≡ some text
      → ((matches (codes "^" ++ r) line ≡ true) ↔ HasPrefix text line)
        × ((matches (r ++ codes "$") line ≡ true) ↔ HasSuffix text line)

  negate_line_op-LineHolds :
      (op : LineOp) (value line : Bytes)
      → LineHolds (record { op = negate_line_op op; value = value }) line
        ↔ (¬ LineHolds (record { op = op; value = value }) line)
  unfolding negate_line_op
  negate_line_op-LineHolds LineOp.contains value line = (λ h. h, λ h. h)
  negate_line_op-LineHolds LineOp.not_contains value line =
      (λ h k. k h, λ h. elim (contains? value line) [ yes k ↦ k | no k ↦ absurd (h k) ])
  negate_line_op-LineHolds LineOp.match value line =
      (λ h k. cc, λ h. elim (Bool-cases (matches value line)) [ inl k ↦ absurd (h k) | inr k ↦ k ])
  negate_line_op-LineHolds LineOp.not_match value line =
      (λ h k. cc, λ h. elim (Bool-cases (matches value line)) [ inl k ↦ k | inr k ↦ absurd (h k) ])

  -- The function whose test is negated by `!~~`.
  abbrev positive_of : LineFunction → LineFunction
  positive_of not_like = like
  positive_of function = function

  same_filter :
      (f g : LineFilter) (line : Bytes) (P : Type 0)
      → some f ≡ some g
      → LineHolds f line ↔ P
      → LineHolds g line ↔ P
  same_filter f g line P e h = let e' : f ≡ g = cc in subst (λ k. LineHolds k line ↔ P) e' h

  Like-filter :
      (pattern line : Bytes) (f : LineFilter)
      → elim (try_like_to_substring pattern) [
        | none ↦ none
        | some part ↦ some (record { op = LineOp.contains; value = part })
      ]
        ≡ some f
      → LineHolds f line ↔ Like pattern line
  Like-filter pattern line f h = elim (Option-cases (try_like_to_substring pattern)) [
    | inl e ↦ let e' : none ≡ some f = rw e at h in cc
    | inr (part, e) ↦
        let e' : some (record { op = LineOp.contains; value = part }) ≡ some f = rw e at h in
        let (to, from) = try_like_to_substring-Contains pattern part line e in
        same_filter _ f line (Like pattern line) e' (from, to)
  ]

  positive_filter-Holds :
      (function : LineFunction) (pattern line : Bytes) (f : LineFilter)
      → AnchorsText pattern line
      → positive_filter (name_of function) pattern ≡ some f
      → LineHolds f line ↔ Holds (positive_of function) pattern line
  unfolding positive_filter str_eq
  positive_filter-Holds like pattern line f a h = Like-filter pattern line f h
  positive_filter-Holds not_like pattern line f a h = Like-filter pattern line f h
  positive_filter-Holds regexp_matches pattern line f a h =
      same_filter _ f line _ h (λ k. k, λ k. k)
  positive_filter-Holds contains_text pattern line f a h = same_filter _ f line _ h (λ k. k, λ k. k)
  positive_filter-Holds prefix pattern line f a h =
      same_filter _ f line _ h
        (a (regex_escape_literal pattern) (read_literal-regex_escape_literal pattern)).0
  positive_filter-Holds suffix pattern line f a h =
      same_filter _ f line _ h
        (a (regex_escape_literal pattern) (read_literal-regex_escape_literal pattern)).1

  holds? :
      (op : LineOp) (value line : Bytes) → Dec (LineHolds (record { op = op; value = value }) line)
  holds? LineOp.contains value line = contains? value line
  holds? LineOp.not_contains value line = elim (contains? value line) [
    | yes k ↦ no (λ h. h k)
    | no h ↦ yes h
  ]
  holds? LineOp.match value line = elim (Bool-cases (matches value line)) [
    | inl k ↦ yes k
    | inr k ↦ no (λ h. cc)
  ]
  holds? LineOp.not_match value line = elim (Bool-cases (matches value line)) [
    | inl k ↦ no (λ h. cc)
    | inr k ↦ yes k
  ]

  stable : {P : Type 0} (g : LineFilter) (line : Bytes) → LineHolds g line ↔ P → ¬ ¬ P → P
  stable g line (to, from) h = elim (holds? g.op g.value line) [
    | yes k ↦ to k
    | no k ↦ absurd (h (λ p. k (from p)))
  ]

  -- The two negations, of the operator of `!~~` and of an enclosing NOT.
  negations :
      {P : Type 0} (g f : LineFilter) (line : Bytes) (negated opposite : Bool)
      → LineHolds g line ↔ P
      → (if xor negated opposite then record g { op = negate_line_op g.op } else g) ≡ f
      → LineHolds f line
        ↔ (if negated then ¬ (if opposite then ¬ P else P) else (if opposite then ¬ P else P))
  negations {P} g f line false false h e = subst (λ k. LineHolds k line ↔ P) e h
  negations {P} g f line true true (to, from) e =
      subst (λ k. LineHolds k line ↔ (¬ ¬ P)) e
        (λ k n. n (to k), λ n. from (stable g line (to, from) n))
  negations {P} g f line true false (to, from) e =
      let (neg_to, neg_from) = negate_line_op-LineHolds g.op g.value line in
      subst (λ k. LineHolds k line ↔ (¬ P)) e
        (λ k p. neg_to k (from p), λ n. neg_from (λ k. n (to k)))
  negations {P} g f line false true (to, from) e =
      let (neg_to, neg_from) = negate_line_op-LineHolds g.op g.value line in
      subst (λ k. LineHolds k line ↔ (¬ P)) e
        (λ k p. neg_to k (from p), λ n. neg_from (λ k. n (to k)))

  line_filter_parts :
      (fname pattern : Bytes) (negated : Bool) (f : LineFilter)
      → line_filter_of fname pattern negated ≡ some f
      → (g : LineFilter) × (positive_filter fname pattern ≡ some g)
        × ((if xor negated (str_eq fname (codes "!~~"))
              then record g { op = negate_line_op g.op }
              else g)
            ≡ f)
  unfolding line_filter_of
  line_filter_parts fname pattern negated f h =
      elim (Option-cases (positive_filter fname pattern)) [
        | inl e ↦ let e' : none ≡ some f = rw (e, line_filter_of) at h in cc
        | inr (g, e) ↦
            let e' : some (
                  if xor negated (str_eq fname (codes "!~~"))
                  then record g { op = negate_line_op g.op }
                  else g)
                ≡ some f =
              rw (e, line_filter_of) at h in
            (g, e, cc)
      ]

  is_opposite : LineFunction → Bool
  is_opposite not_like = true
  is_opposite function = false

  opposite_name :
      (function : LineFunction) → str_eq (name_of function) (codes "!~~") ≡ is_opposite function
  unfolding str_eq is_opposite
  opposite_name like = refl
  opposite_name not_like = refl
  opposite_name regexp_matches = refl
  opposite_name contains_text = refl
  opposite_name prefix = refl
  opposite_name suffix = refl

  by_function :
      (function : LineFunction) (pattern line : Bytes) (negated : Bool) (Q : Type 0)
      → Q ↔ (
          if negated
          then ¬ (
              if is_opposite function
              then ¬ Holds (positive_of function) pattern line
              else Holds (positive_of function) pattern line)
          else (if is_opposite function
              then ¬ Holds (positive_of function) pattern line
              else Holds (positive_of function) pattern line))
      → Q ↔ (if negated then ¬ Holds function pattern line else Holds function pattern line)
  unfolding is_opposite
  by_function like pattern line negated Q h = h
  by_function not_like pattern line negated Q h = h
  by_function regexp_matches pattern line negated Q h = h
  by_function contains_text pattern line negated Q h = h
  by_function prefix pattern line negated Q h = h
  by_function suffix pattern line negated Q h = h

  -- Every function on `line` that is pushed becomes a line filter that Loki passes exactly on the lines
  -- that the function, with the NOT around it where there is one, is true of.
  pub line_filter_of-LineHolds :
      (function : LineFunction) (pattern line : Bytes) (negated : Bool) (f : LineFilter)
      → AnchorsText pattern line
      → line_filter_of (name_of function) pattern negated ≡ some f
      → LineHolds f line
        ↔ (if negated then ¬ Holds function pattern line else Holds function pattern line)
  line_filter_of-LineHolds function pattern line negated f a h =
      let (g, e, e') = line_filter_parts (name_of function) pattern negated f h in
      let e'' : (if xor negated (is_opposite function)
            then record g { op = negate_line_op g.op }
            else g)
          ≡ f =
        rw (opposite_name function) at e' in
      by_function function pattern line negated (LineHolds f line) (
        negations g f line negated (is_opposite function)
          (positive_filter-Holds function pattern line g a e) e'')
