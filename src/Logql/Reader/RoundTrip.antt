-- ===== src/Logql/Reader/RoundTrip.antt =====
-- What src/loki/logql.cpp builds for a scan with no base selector is read back as what it was built
-- from.
use duckdb_loki.Base.{
  ℕ, zero, suc, ◌<◌, ◌≤◌, length, false, ◌≡◌, refl, true, none, some, List, [], ◌∷◌, ◌++◌, arith,
  Bytes, append_assoc, take_while, drop_while, All,
}
use duckdb_loki.Base.Trim.{Passes, take_while_stop, drop_while_stop}
use duckdb_loki.Base.Find.{split_first}
use duckdb_loki.Logql.{
  MatchOp, eq, neq, re, nre, LabelMatcher, LineOp, contains, not_contains, match, not_match,
  LineFilter, is_name_char, is_valid_label_name, all_name_chars, escape_logql_string, match_op_text,
  matcher_to_string, line_op_text, line_filter_to_string, append_matchers, append_line_filters,
  build_selector_query, split_selector, trim,
}
use duckdb_loki.Logql.Escape.{read_string-escape_logql_string}
use duckdb_loki.Logql.Reader.{
  ◌>>=◌, read_match_op, read_matcher, read_close, read_more, read_first, read_matchers,
  read_line_filters, read_query,
}

-- Every label name is in LogQL's grammar.
abbrev pub HasValidLabels : List LabelMatcher → Type 0
HasValidLabels = All (λ m. is_valid_label_name m.label ≡ true)

all_name_chars-Passes : (s : Bytes) → all_name_chars s ≡ true → Passes is_name_char s
unfolding all_name_chars
all_name_chars-Passes [] h = tt
all_name_chars-Passes (c ∷ s) h = (ground arith, all_name_chars-Passes s (ground arith))

valid_name-Passes : (s : Bytes) → is_valid_label_name s ≡ true → Passes is_name_char s
unfolding is_valid_label_name
valid_name-Passes [] h = cc
valid_name-Passes (c ∷ s) h = (ground arith, all_name_chars-Passes s (ground arith))

-- An operator ends the label's name before it.
match_op-read :
    (label quoted : Bytes) (op : MatchOp)
    → Passes is_name_char label
    → (take_while is_name_char (label ++ (match_op_text op ++ b'"' ∷ quoted)) ≡ label)
      × (read_match_op (drop_while is_name_char (label ++ (match_op_text op ++ b'"' ∷ quoted)))
          ≡ some (op, quoted))
unfolding match_op_text
match_op-read label quoted eq h = (
  take_while_stop _ label _ _ h refl,
  rw (drop_while_stop is_name_char label (b'"' ∷ quoted) b'=' h refl),
)
match_op-read label quoted neq h = (
  take_while_stop _ label _ _ h refl,
  rw (drop_while_stop is_name_char label (b'=' ∷ b'"' ∷ quoted) b'!' h refl),
)
match_op-read label quoted re h = (
  take_while_stop _ label _ _ h refl,
  rw (drop_while_stop is_name_char label (b'~' ∷ b'"' ∷ quoted) b'=' h refl),
)
match_op-read label quoted nre h = (
  take_while_stop _ label _ _ h refl,
  rw (drop_while_stop is_name_char label (b'~' ∷ b'"' ∷ quoted) b'!' h refl),
)

read_matcher-matcher_to_string :
    (m : LabelMatcher) (rest : Bytes)
    → is_valid_label_name m.label ≡ true
    → read_matcher (matcher_to_string m ++ rest) ≡ some (m, rest)
unfolding matcher_to_string
read_matcher-matcher_to_string m rest h =
    let (name, op) =
      match_op-read m.label (escape_logql_string m.value ++ b'"' ∷ rest) m.op
        (valid_name-Passes m.label h) in
    rw (
      append_assoc m.label (match_op_text m.op ++ b'"' ∷ (escape_logql_string m.value ++ b'"' ∷ []))
          rest,
      append_assoc (match_op_text m.op) (b'"' ∷ (escape_logql_string m.value ++ b'"' ∷ [])) rest,
      append_assoc (escape_logql_string m.value) (b'"' ∷ []) rest,
      op,
      read_string-escape_logql_string m.value rest,
      name,
    )

read_more-append_matchers :
    (fuel : ℕ) (ms : List LabelMatcher) (rest : Bytes)
    → length ms < fuel
    → HasValidLabels ms
    → read_more fuel (append_matchers false ms ++ b'}' ∷ rest) ≡ some (ms, rest)
unfolding read_more read_close append_matchers
read_more-append_matchers zero ms rest h v = absurd (omega arith)
read_more-append_matchers (suc fuel) [] rest h v = refl
read_more-append_matchers (suc fuel) (m ∷ ms) rest h (vm, vms) = rw (
  append_assoc (matcher_to_string m) (append_matchers false ms) (b'}' ∷ rest),
  read_matcher-matcher_to_string m (append_matchers false ms ++ b'}' ∷ rest) vm,
  read_more-append_matchers fuel ms rest (omega arith) vms,
)

read_close-label :
    (label s : Bytes) → is_valid_label_name label ≡ true → read_close (label ++ s) ≡ none
unfolding is_valid_label_name read_close
read_close-label [] s h = cc
read_close-label (c ∷ label) s h = ground arith

read_close-matcher_to_string :
    (m : LabelMatcher) (s : Bytes)
    → is_valid_label_name m.label ≡ true
    → read_close (matcher_to_string m ++ s) ≡ none
unfolding matcher_to_string
read_close-matcher_to_string m s h =
    rw
      (append_assoc m.label
        (match_op_text m.op ++ b'"' ∷ (escape_logql_string m.value ++ b'"' ∷ [])) s)
      (read_close-label m.label _ h)

read_matchers_step :
    (fuel : ℕ) (m : LabelMatcher) (ms : List LabelMatcher) (s s' rest : Bytes)
    → read_close s ≡ none
    → read_matcher s ≡ some (m, s')
    → read_more fuel s' ≡ some (ms, rest)
    → read_matchers fuel s ≡ some (m ∷ ms, rest)
unfolding read_matchers
read_matchers_step fuel m ms s s' rest h k l =
    rw (h, read_matchers) (unfold read_first in rw (k, l))

read_matchers-append_matchers :
    (fuel : ℕ) (ms : List LabelMatcher) (rest : Bytes)
    → length ms ≤ fuel
    → HasValidLabels ms
    → read_matchers fuel (append_matchers true ms ++ b'}' ∷ rest) ≡ some (ms, rest)
unfolding read_matchers append_matchers
read_matchers-append_matchers fuel [] rest h v = unfold read_close in refl
read_matchers-append_matchers fuel (m ∷ ms) rest h (vm, vms) =
    let tail = append_matchers false ms ++ b'}' ∷ rest in
    rw (append_assoc (matcher_to_string m) (append_matchers false ms) (b'}' ∷ rest)) (
      read_matchers_step fuel m ms (matcher_to_string m ++ tail) tail rest
        (read_close-matcher_to_string m tail vm) (read_matcher-matcher_to_string m tail vm)
        (read_more-append_matchers fuel ms rest (omega arith) vms))

read_line_filters_step :
    (fuel : ℕ) (op : LineOp) (value rest : Bytes)
    → read_line_filters
        (suc fuel)
        (b' ' ∷ (line_op_text op ++ b' ' ∷ b'"' ∷ (escape_logql_string value ++ b'"' ∷ rest)))
      ≡ (do fs ← read_line_filters fuel rest; some (record { op = op; value = value } ∷ fs))
unfolding read_line_filters line_op_text
read_line_filters_step fuel contains value rest = rw (read_string-escape_logql_string value rest)
read_line_filters_step fuel not_contains value rest =
    rw (read_string-escape_logql_string value rest)
read_line_filters_step fuel match value rest = rw (read_string-escape_logql_string value rest)
read_line_filters_step fuel not_match value rest = rw (read_string-escape_logql_string value rest)

read_line_filters-append_line_filters :
    (fuel : ℕ) (fs : List LineFilter)
    → length fs ≤ fuel
    → read_line_filters fuel (append_line_filters fs) ≡ some fs
unfolding append_line_filters line_filter_to_string
read_line_filters-append_line_filters fuel [] h = unfold read_line_filters in refl
read_line_filters-append_line_filters zero (f ∷ fs) h = absurd (omega arith)
read_line_filters-append_line_filters (suc fuel) (f ∷ fs) h = rw (
  append_assoc (line_op_text f.op) (b' ' ∷ b'"' ∷ (escape_logql_string f.value ++ b'"' ∷ []))
      (append_line_filters fs),
  append_assoc (escape_logql_string f.value) (b'"' ∷ []) (append_line_filters fs),
  read_line_filters_step fuel f.op f.value (append_line_filters fs),
  read_line_filters-append_line_filters fuel fs (omega arith),
)

-- With no base selector, the query that is built from matchers with valid label names and from line
-- filters, with any values, reads as exactly these matchers and filters, in order.
pub read_query-build_selector_query :
    (fuel : ℕ) (matchers : List LabelMatcher) (line_filters : List LineFilter)
    → HasValidLabels matchers
    → length matchers ≤ fuel
    → length line_filters ≤ fuel
    → read_query fuel (build_selector_query [] matchers line_filters)
      ≡ some (matchers, line_filters)
unfolding read_query build_selector_query split_selector split_first trim
read_query-build_selector_query fuel ms fs v hm hf = rw (
  read_matchers-append_matchers fuel ms (append_line_filters fs) hm v,
  read_line_filters-append_line_filters fuel fs hf,
)
