-- ===== src/Logql/Reader.antt =====
-- A reader of LogQL log queries, by LogQL's grammar: matchers between braces, then line filters.
pub mod RoundTrip
use duckdb_loki.Base.{
  ℕ, zero, suc, ◌<◌, ◌≤◌, length, false, ◌≡◌, refl, true, ◌&&◌, Option, none, some, List, [], ◌∷◌,
  ◌++◌, arith, ◌==◌, if◌then◌else◌, Bytes, append_assoc, take_while, drop_while, All,
}
use duckdb_loki.Base.Trim.{Passes, take_while_stop, drop_while_stop}
use duckdb_loki.Logql.{
  MatchOp, eq, neq, re, nre, LabelMatcher, LineOp, contains, not_contains, match, not_match,
  LineFilter, is_name_char, is_valid_label_name, all_name_chars, escape_logql_string, match_op_text,
  matcher_to_string, line_op_text, line_filter_to_string, append_matchers, append_line_filters,
  build_selector_query, split_selector, split_first, trim,
}
use duckdb_loki.Logql.Escape.{read_string, read_string-escape_logql_string}

infixl 5 ◌>>=◌
abbrev pub ◌>>=◌ {ℓ κ} : {A : Type ℓ} {B : Type κ} → Option A → (A → Option B) → Option B
none >>= f = none
some a >>= f = f a

abbrev read_quote : MatchOp → Bytes → Option (MatchOp × Bytes)
read_quote op [] = none
read_quote op (c ∷ s) = if c == b'"' then some (op, s) else none

-- An operator and the quote behind it.
abbrev pub read_match_op : Bytes → Option (MatchOp × Bytes)
read_match_op (a ∷ b ∷ s) =
    if a == b'=' && b == b'"'
    then some (eq, s)
    else if a == b'=' && b == b'~'
    then read_quote re s
    else if a == b'!' && b == b'='
    then read_quote neq s
    else if a == b'!' && b == b'~'
    then read_quote nre s
    else none
read_match_op _ = none

abbrev pub read_matcher : Bytes → Option (LabelMatcher × Bytes)
read_matcher s = do
  (op, quoted) ← read_match_op (drop_while is_name_char s)
  (value, rest) ← read_string quoted
  some (record { label = take_while is_name_char s; op = op; value = value }, rest)

pub read_close : Bytes → Option Bytes
read_close [] = none
read_close (c ∷ s) = if c == b'}' then some s else none

abbrev pub read_comma : Bytes → Option Bytes
read_comma (c ∷ d ∷ s) = if c == b',' && d == b' ' then some s else none
read_comma _ = none

-- The closing brace, or `, ` and one more matcher. The fuel bounds the number of matchers.
pub read_more : ℕ → Bytes → Option (List LabelMatcher × Bytes)
read_more zero s = none
read_more (suc fuel) s = elim (read_close s) [
  | some rest ↦ some ([], rest)
  | none ↦ do
    s' ← read_comma s
    (m, s'') ← read_matcher s'
    (ms, rest) ← read_more fuel s''
    some (m ∷ ms, rest)
]

-- The first matcher, where the brace does not close at once.
read_first : ℕ → Bytes → Option Bytes → Option (List LabelMatcher × Bytes)
unfolding read_more
read_first fuel s (some rest) = some ([], rest)
read_first fuel s none = do
  (m, s') ← read_matcher s
  (ms, rest) ← read_more fuel s'
  some (m ∷ ms, rest)

pub read_matchers : ℕ → Bytes → Option (List LabelMatcher × Bytes)
unfolding read_first read_close
read_matchers fuel s = read_first fuel s (read_close s)

abbrev pub read_line_op : ℕ → ℕ → Option LineOp
read_line_op a b =
    if a == b'|' && b == b'='
    then some contains
    else if a == b'!' && b == b'='
    then some not_contains
    else if a == b'|' && b == b'~'
    then some match
    else if a == b'!' && b == b'~'
    then some not_match
    else none

pub read_line_filters : ℕ → Bytes → Option (List LineFilter)
read_line_filters fuel [] = some []
read_line_filters zero (c ∷ s) = none
read_line_filters (suc fuel) (c ∷ a ∷ b ∷ d ∷ q ∷ s) =
    let more : Option (List LineFilter) = (do
      op ← read_line_op a b
      (value, rest) ← read_string s
      fs ← read_line_filters fuel rest
      some (record { op = op; value = value } ∷ fs)) in
    if c == b' ' && d == b' ' && q == b'"' then more else none
read_line_filters (suc fuel) _ = none

pub read_query : ℕ → Bytes → Option (List LabelMatcher × List LineFilter)
unfolding read_matchers read_line_filters
read_query fuel [] = none
read_query fuel (c ∷ s) =
    let query : Option (List LabelMatcher × List LineFilter) = (do
      (ms, rest) ← read_matchers fuel s
      fs ← read_line_filters fuel rest
      some (ms, fs)) in
    if c == b'{' then query else none
