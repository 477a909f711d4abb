-- ===== src/Logql/Regex.antt =====
-- `RegexEscapeLiteral` of src/loki/logql.cpp against a reader of RE2 literals.
use duckdb_loki.Base.{
  ℕ, ◌≡◌, refl, Option, none, some, [], ◌∷◌, ◌++◌, arith, ◌==◌, if◌then◌else◌, Bytes,
}
use duckdb_loki.Logql.{is_regex_meta, regex_escape_char, regex_escape_literal}

abbrev pub cons_literal : ℕ → Option Bytes → Option Bytes
cons_literal c none = none
cons_literal c (some s) = some (c ∷ s)

-- The one text that a regular expression matches, where it is made of literal characters: a
-- backslash before a metacharacter stands for that character, and a metacharacter by itself is an operator.
pub read_literal : Bytes → Option Bytes
read_literal [] = some []
read_literal (c ∷ []) = if is_regex_meta c then none else some (c ∷ [])
read_literal (c ∷ (d ∷ s)) =
    let escaped = cons_literal d (read_literal s) in
    let plain = cons_literal c (read_literal (d ∷ s)) in
    if c == b'\\'
    then (if is_regex_meta d then escaped else none)
    else if is_regex_meta c
    then none
    else plain

read_literal-regex_escape_char :
    (c : ℕ) (s : Bytes) → read_literal (regex_escape_char c ++ s) ≡ cons_literal c (read_literal s)
unfolding read_literal regex_escape_char
read_literal-regex_escape_char c [] = ground arith
read_literal-regex_escape_char c (d ∷ s) = ground arith

-- The escaped text of any bytes is a regular expression that matches exactly those bytes.
pub read_literal-regex_escape_literal :
    (literal : Bytes) → read_literal (regex_escape_literal literal) ≡ some literal
unfolding regex_escape_literal
read_literal-regex_escape_literal [] = unfold read_literal in refl
read_literal-regex_escape_literal (c ∷ s) =
    rw (
      read_literal-regex_escape_char c (regex_escape_literal s),
      read_literal-regex_escape_literal s,
    )
