-- ===== src/Logql.antt =====
-- src/loki/logql.cpp and src/include/loki/logql.hpp: LogQL text, its escaping, label names, LIKE
-- patterns and the assembly of a selector query. A `std::string` is its list of bytes.
pub mod Escape
pub mod Regex
pub mod Reader
pub mod Like
pub mod Selector
use duckdb_loki.Base.Find.{split_first, split_last}
use duckdb_loki.Base.{
  ℕ, ◌+◌, ◌≡◌, refl, Bool, true, false, not, ◌&&◌, ◌||◌, Option, none, some, List, [], ◌∷◌, ◌++◌,
  reverse, leb, ltb, ◌==◌, if◌then◌else◌, length, Bytes, codes, is_empty, trim_by,
}

-- `BuildLogQL`
unfoldable pub build_logql : Bytes → Bytes
build_logql raw_query = raw_query

pub data MatchOp : Type 0 where
  eq neq re nre : MatchOp

pub record LabelMatcher : Type 0 where
  pub label : Bytes
  pub op : MatchOp
  pub value : Bytes

pub data LineOp : Type 0 where
  contains not_contains match not_match : LineOp

pub record LineFilter : Type 0 where
  pub op : LineOp
  pub value : Bytes

abbrev pub is_space : ℕ → Bool
is_space c = (c == b' ') || (c == 9) || (c == 10) || (c == 13)

unfoldable pub trim : Bytes → Bytes
trim s = trim_by is_space s

-- One round of `EscapeLogQLString`.
unfoldable pub escape_char : ℕ → Bytes
escape_char c =
    if c == b'\\'
    then codes "\\\\"
    else if c == b'"'
    then codes "\\\""
    else if c == 10
    then codes "\\n"
    else if c == 9
    then codes "\\t"
    else if c == 13
    then codes "\\r"
    else c ∷ []

unfoldable pub escape_logql_string : Bytes → Bytes
escape_logql_string [] = []
escape_logql_string (c ∷ s) = escape_char c ++ escape_logql_string s

abbrev pub is_regex_meta : ℕ → Bool
is_regex_meta c =
    (c == b'\\')
    || (c == b'.')
    || (c == b'+')
    || (c == b'*')
    || (c == b'?')
    || (c == b'(')
    || (c == b')')
    || (c == b'|')
    || (c == b'[')
    || (c == b']')
    || (c == b'{')
    || (c == b'}')
    || (c == b'^')
    || (c == b'$')

-- One round of `RegexEscapeLiteral`.
unfoldable pub regex_escape_char : ℕ → Bytes
regex_escape_char c = if is_regex_meta c then b'\\' ∷ c ∷ [] else c ∷ []

unfoldable pub regex_escape_literal : Bytes → Bytes
regex_escape_literal [] = []
regex_escape_literal (c ∷ s) = regex_escape_char c ++ regex_escape_literal s

abbrev pub is_letter : ℕ → Bool
is_letter c = (leb b'a' c && leb c b'z') || (leb b'A' c && leb c b'Z')

abbrev pub is_name_start : ℕ → Bool
is_name_start c = is_letter c || (c == b'_')

abbrev pub is_name_char : ℕ → Bool
is_name_char c = is_letter c || (leb b'0' c && leb c b'9') || (c == b'_')

unfoldable pub all_name_chars : Bytes → Bool
all_name_chars [] = true
all_name_chars (c ∷ s) = is_name_char c && all_name_chars s

unfoldable pub is_valid_label_name : Bytes → Bool
unfolding all_name_chars
is_valid_label_name [] = false
is_valid_label_name (c ∷ s) = is_name_start c && all_name_chars s

unfoldable pub match_op_text : MatchOp → Bytes
match_op_text eq = codes "="
match_op_text neq = codes "!="
match_op_text re = codes "=~"
match_op_text nre = codes "!~"

unfoldable pub matcher_to_string : LabelMatcher → Bytes
matcher_to_string m =
    m.label ++ (match_op_text m.op ++ (b'"' ∷ (escape_logql_string m.value ++ b'"' ∷ [])))

unfoldable pub line_op_text : LineOp → Bytes
line_op_text contains = codes "|="
line_op_text not_contains = codes "!="
line_op_text match = codes "|~"
line_op_text not_match = codes "!~"

unfoldable pub line_filter_to_string : LineFilter → Bytes
line_filter_to_string f =
    line_op_text f.op ++ (b' ' ∷ b'"' ∷ (escape_logql_string f.value ++ b'"' ∷ []))

unfoldable pub selector_prefix_before_brace : Bytes → Bytes
selector_prefix_before_brace selector = elim (split_first b'{' (trim selector)) [
  | none ↦ []
  | some (before, _) ↦ trim before
]

-- The inner matchers of a base selector and the pipeline behind its last `}`, both untrimmed. The
-- last `}` of the text counts only where it stands behind the first `{`.
unfoldable pub split_selector : Bytes → Bytes × Bytes
split_selector trimmed = elim (split_first b'{' trimmed) [
  | none ↦ (trimmed, [])
  | some (_, body) ↦ elim (split_last b'}' body) [
    | none ↦ (body, [])
    | some (inner, rest) ↦ (inner, rest)
  ]
]

-- The loop over the matchers, with its flag `first`.
unfoldable pub append_matchers : Bool → List LabelMatcher → Bytes
append_matchers first [] = []
append_matchers first (m ∷ ms) =
    (if first then [] else codes ", ") ++ (matcher_to_string m ++ append_matchers false ms)

unfoldable pub append_line_filters : List LineFilter → Bytes
append_line_filters [] = []
append_line_filters (f ∷ fs) = b' ' ∷ (line_filter_to_string f ++ append_line_filters fs)

unfoldable pub build_selector_query : Bytes → List LabelMatcher → List LineFilter → Bytes
build_selector_query base_selector matchers line_filters =
    let parts = split_selector (trim base_selector) in
    let inner = trim parts.0 in
    let rest = trim parts.1 in
    b'{'
    ∷ (inner
        ++ (append_matchers (is_empty inner) matchers
            ++ (b'}'
                ∷ ((if is_empty rest then [] else b' ' ∷ rest)
                    ++ append_line_filters line_filters))))

-- No `%` and no `_`.
unfoldable pub has_no_wildcard : Bytes → Bool
has_no_wildcard [] = true
has_no_wildcard (c ∷ s) = not ((c == b'%') || (c == b'_')) && has_no_wildcard s

-- `pattern.back()` and what stands before it.
unfoldable pub split_back : ℕ → Bytes → Bytes × ℕ
split_back c [] = ([], c)
split_back c (d ∷ s) = let (front, back) = split_back d s in (c ∷ front, back)

unfoldable pub like_middle : ℕ → ℕ → Bytes → Option Bytes
like_middle front c s =
    let (middle, back) = split_back c s in
    if leb 3 (2 + length s) && (front == b'%') && (back == b'%') && has_no_wildcard middle
    then some middle
    else none

unfoldable pub try_like_to_substring : Bytes → Option Bytes
try_like_to_substring [] = none
try_like_to_substring (c ∷ []) = none
try_like_to_substring (c ∷ d ∷ s) = like_middle c d s
