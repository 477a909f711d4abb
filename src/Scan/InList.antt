-- ===== src/Scan/InList.antt =====
-- `TryInList` of src/loki/loki_scan.cpp: the texts that its regular expression matches.
use duckdb_loki.Base.{
  ℕ, ◌≡◌, ◌≢◌, refl, sym, ap, ◌∙◌, false, Option, none, some, List, [], ◌∷◌, ◌++◌, arith, Bytes,
  codes, ◌==◌, if◌then◌else◌, append_assoc, is_empty, append-nil,
}
use duckdb_loki.Logql.{is_regex_meta, regex_escape_char, regex_escape_literal}
use duckdb_loki.Scan.{Planner, LogicalGet}
use duckdb_loki.Scan.Pushdown.{eval_constant, in_list_regex}

abbrev cons_first : ℕ → Option (List Bytes) → Option (List Bytes)
cons_first c none = none
cons_first c (some []) = none
cons_first c (some (text ∷ texts)) = some ((c ∷ text) ∷ texts)

abbrev cons_text : Bytes → Option (List Bytes) → Option (List Bytes)
cons_text text none = none
cons_text text (some texts) = some (text ∷ texts)

-- The texts that an anchored regular expression matches, where it is made of literal characters and
-- bars: a backslash before a metacharacter stands for that character.
pub read_alternatives : Bytes → Option (List Bytes)
read_alternatives [] = some ([] ∷ [])
read_alternatives (c ∷ []) =
    if c == b'|'
    then some ([] ∷ [] ∷ [])
    else if is_regex_meta c
    then none
    else some ((c ∷ []) ∷ [])
read_alternatives (c ∷ (d ∷ s)) =
    let escaped = cons_first d (read_alternatives s) in
    let plain = cons_first c (read_alternatives (d ∷ s)) in
    let bar = cons_text [] (read_alternatives (d ∷ s)) in
    if c == b'\\'
    then (if is_regex_meta d then escaped else none)
    else if c == b'|'
    then bar
    else if is_regex_meta c
    then none
    else plain

read_alternatives-char :
    (c : ℕ) (s : Bytes)
    → read_alternatives (regex_escape_char c ++ s) ≡ cons_first c (read_alternatives s)
unfolding read_alternatives regex_escape_char
read_alternatives-char c [] = ground arith
read_alternatives-char c (d ∷ s) = ground arith

read_alternatives-bar :
    (s : Bytes) → read_alternatives (b'|' ∷ s) ≡ cons_text [] (read_alternatives s)
unfolding read_alternatives
read_alternatives-bar [] = refl
read_alternatives-bar (d ∷ s) = refl

cons_first-text :
    (c : ℕ) (text : Bytes) (o : Option (List Bytes))
    → cons_first c (cons_text text o) ≡ cons_text (c ∷ text) o
cons_first-text c text none = refl
cons_first-text c text (some texts) = refl

-- One text, and what stands behind its bar.
read_alternatives-text :
    (text s : Bytes)
    → read_alternatives (regex_escape_literal text ++ b'|' ∷ s)
      ≡ cons_text text (read_alternatives s)
unfolding regex_escape_literal
read_alternatives-text [] s = read_alternatives-bar s
read_alternatives-text (c ∷ text) s =
    ap read_alternatives (append_assoc (regex_escape_char c) (regex_escape_literal text) (b'|' ∷ s))
    ∙ read_alternatives-char c (regex_escape_literal text ++ b'|' ∷ s)
    ∙ ap (cons_first c) (read_alternatives-text text s)
    ∙ cons_first-text c text (read_alternatives s)

read_alternatives-last :
    (text : Bytes) → read_alternatives (regex_escape_literal text) ≡ some (text ∷ [])
unfolding regex_escape_literal
read_alternatives-last [] = unfold read_alternatives in refl
read_alternatives-last (c ∷ text) =
    read_alternatives-char c (regex_escape_literal text)
    ∙ ap (cons_first c) (read_alternatives-last text)

-- The texts with bars between them.
abbrev bars : Bytes → List Bytes → Bytes
bars text [] = regex_escape_literal text
bars text (next ∷ texts) = regex_escape_literal text ++ b'|' ∷ bars next texts

read_alternatives-bars :
    (text : Bytes) (texts : List Bytes) → read_alternatives (bars text texts) ≡ some (text ∷ texts)
read_alternatives-bars text [] = read_alternatives-last text
read_alternatives-bars text (next ∷ texts) =
    read_alternatives-text text (bars next texts)
    ∙ ap (cons_text text) (read_alternatives-bars next texts)

bars-append :
    (text last : Bytes) (texts : List Bytes)
    → bars text (texts ++ last ∷ []) ≡ bars text texts ++ b'|' ∷ regex_escape_literal last
bars-append text last [] = refl
bars-append text last (next ∷ texts) =
    ap (λ t. regex_escape_literal text ++ b'|' ∷ t) (bars-append next last texts)
    ∙ sym (
        append_assoc (regex_escape_literal text) (b'|' ∷ bars next texts)
          (b'|' ∷ regex_escape_literal last))

is_empty-char : (c : ℕ) (s : Bytes) → is_empty (regex_escape_char c ++ s) ≡ false
unfolding regex_escape_char
is_empty-char c s = ground arith

is_empty-append : (s t : Bytes) → is_empty s ≡ false → is_empty (s ++ t) ≡ false
is_empty-append [] t h = cc
is_empty-append (c ∷ s) t h = refl

is_empty-escape : (text : Bytes) → text ≢ [] → is_empty (regex_escape_literal text) ≡ false
unfolding regex_escape_literal
is_empty-escape [] h = absurd (h refl)
is_empty-escape (c ∷ text) h = is_empty-char c (regex_escape_literal text)

is_empty-bars : (text : Bytes) (texts : List Bytes) → text ≢ [] → is_empty (bars text texts) ≡ false
is_empty-bars text [] h = is_empty-escape text h
is_empty-bars text (next ∷ texts) h =
    is_empty-append (regex_escape_literal text) (b'|' ∷ bars next texts) (is_empty-escape text h)

module _ (planner : Planner) (get : LogicalGet) where
  -- The members are constants with these texts.
  abbrev pub AreConstants : List planner.Expr → List Bytes → Type 0
  AreConstants [] [] = Unit
  AreConstants [] (text ∷ texts) = ⊥
  AreConstants (e ∷ es) [] = ⊥
  AreConstants (e ∷ es) (text ∷ texts) =
      ((v : planner.Value) × (eval_constant planner e ≡ some v) × (planner.to_string v ≡ text))
      × AreConstants es texts

  in_list_step :
      (regex text : Bytes) (e : planner.Expr) (es : List planner.Expr) (v : planner.Value)
      → eval_constant planner e ≡ some v
      → planner.to_string v ≡ text
      → in_list_regex planner get regex (e ∷ es)
        ≡ in_list_regex planner get
            ((if is_empty regex then regex else regex ++ codes "|") ++ regex_escape_literal text)
            es
  unfolding in_list_regex
  in_list_step regex text e es v h k = rw (h, sym k, in_list_regex) refl

  bar_after :
      (text last : Bytes) (texts : List Bytes)
      → text ≢ []
      → (if is_empty (bars text texts) then bars text texts else bars text texts ++ codes "|")
          ++ regex_escape_literal last
        ≡ bars text (texts ++ last ∷ [])
  bar_after text last texts h =
      ap
        (λ t.
          (if t then bars text texts else bars text texts ++ codes "|")
          ++ regex_escape_literal last)
        (is_empty-bars text texts h)
      ∙ append_assoc (bars text texts) (codes "|") (regex_escape_literal last)
      ∙ sym (bars-append text last texts)

  in_list_rest :
      (text : Bytes) (texts more : List Bytes) (es : List planner.Expr)
      → text ≢ []
      → AreConstants es more
      → in_list_regex planner get (bars text texts) es ≡ some (bars text (texts ++ more))
  in_list_rest text texts [] [] h k =
      unfold in_list_regex in ap (λ t. some (bars text t)) (sym (append-nil texts))
  in_list_rest text texts (next ∷ more) (e ∷ es) h ((v, found, spelled), k) =
      in_list_step (bars text texts) next e es v found spelled
      ∙ ap (λ t. in_list_regex planner get t es) (bar_after text next texts h)
      ∙ in_list_rest text (texts ++ next ∷ []) more es h k
      ∙ ap (λ t. some (bars text t)) (append_assoc texts (next ∷ []) more)
  in_list_rest text texts [] (e ∷ es) h k = absurd k
  in_list_rest text texts (next ∷ more) [] h k = absurd k

  -- The regular expression of an IN list of constants, the first of them not empty, matches exactly the
  -- texts of the list: it reads as these alternatives, in order, whatever characters they hold.
  pub read_alternatives-in_list_regex :
      (text : Bytes) (texts : List Bytes) (es : List planner.Expr)
      → text ≢ []
      → AreConstants es (text ∷ texts)
      → (regex : Bytes) × (in_list_regex planner get [] es ≡ some regex)
        × (read_alternatives regex ≡ some (text ∷ texts))
  read_alternatives-in_list_regex text texts [] h k = absurd k
  read_alternatives-in_list_regex text texts (e ∷ es) h ((v, found, spelled), k) = (
    bars text texts,
    in_list_step [] text e es v found spelled ∙ in_list_rest text [] texts es h k,
    read_alternatives-bars text texts,
  )
