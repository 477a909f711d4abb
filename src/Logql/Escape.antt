-- ===== src/Logql/Escape.antt =====
-- `EscapeLogQLString` of src/loki/logql.cpp against a reader of LogQL's double-quoted strings.
use duckdb_loki.Base.{
  ℕ, ◌≡◌, ◌≢◌, refl, Option, none, some, [], ◌∷◌, ◌++◌, arith, ◌==◌, if◌then◌else◌, Bytes,
  append_assoc,
}
use duckdb_loki.Logql.{escape_char, escape_logql_string}

-- The byte that a backslash and `c` stand for.
abbrev pub read_escape : ℕ → Option ℕ
read_escape c =
    if c == b'\\'
    then some b'\\'
    else if c == b'"'
    then some b'"'
    else if c == b'n'
    then some 10
    else if c == b't'
    then some 9
    else if c == b'r'
    then some 13
    else none

abbrev pub cons_value : ℕ → Option (Bytes × Bytes) → Option (Bytes × Bytes)
cons_value c none = none
cons_value c (some (value, rest)) = some (c ∷ value, rest)

-- The value of a string whose opening quote has been read, and what stands behind its closing quote.
-- A line break may not stand in such a string.
pub read_string : Bytes → Option (Bytes × Bytes)
read_string [] = none
read_string (c ∷ []) = if c == b'"' then some ([], []) else none
read_string (c ∷ (d ∷ s)) =
    let escaped : Option (Bytes × Bytes) = elim (read_escape d) [
      | none ↦ none
      | some e ↦ cons_value e (read_string s)
    ] in
    let plain = cons_value c (read_string (d ∷ s)) in
    if c == b'"'
    then some ([], d ∷ s)
    else if c == b'\\'
    then escaped
    else if c == 10
    then none
    else plain

read_string-escape_char :
    (c : ℕ) (s : Bytes) → s ≢ [] → read_string (escape_char c ++ s) ≡ cons_value c (read_string s)
unfolding read_string escape_char
read_string-escape_char c [] h = absurd (h refl)
read_string-escape_char c (d ∷ s) h = ground arith

append_quote-ne-nil : (s rest : Bytes) → s ++ b'"' ∷ rest ≢ []
append_quote-ne-nil [] rest e = cc
append_quote-ne-nil (c ∷ s) rest e = cc

-- A value of any bytes, escaped and closed by a quote, is read back whole: the string ends where
-- the value does, so no value can add to the query around it.
pub read_string-escape_logql_string :
    (value rest : Bytes)
    → read_string (escape_logql_string value ++ b'"' ∷ rest) ≡ some (value, rest)
unfolding escape_logql_string
read_string-escape_logql_string [] [] = unfold read_string in refl
read_string-escape_logql_string [] (c ∷ rest) = unfold read_string in refl
read_string-escape_logql_string (c ∷ s) rest = rw (
  append_assoc (escape_char c) (escape_logql_string s) (b'"' ∷ rest),
  read_string-escape_char c (escape_logql_string s ++ b'"' ∷ rest)
      (append_quote-ne-nil (escape_logql_string s) rest),
  read_string-escape_logql_string s rest,
)
