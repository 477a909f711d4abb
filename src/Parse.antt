-- ===== src/Parse.antt =====
-- src/loki/parse.cpp: snippets of a response body, and the three readers of Loki's JSON answers. The
-- JSON library is not in the repository: it is a parameter. Freeing its document is not modelled.
pub mod Snippet
pub mod Streams
use duckdb_loki.Base.{
  ℕ, ◌+◌, ◌-◌, ◌*◌, ◌^◌, Bool, true, false, not, ◌&&◌, ◌||◌, Option, none, some, List, [], ◌∷◌,
  ◌++◌, Bytes, codes, is_empty, leb, ltb, ◌==◌, if◌then◌else◌, take, take_while, drop_while, length,
  str_eq, map, Result, ok, throw, runtime_error, ◌>>=◌, get_elem?, or_throw, ◌>>◌, throw_if,
}
use duckdb_loki.Base.Int.{ℤ, pos, negsuc}
use duckdb_loki.Types.{StringMap, emplace, StreamEntry, StreamChunk}

-- One round of the loop of `ResponseSnippet`.
printable : ℕ → ℕ
printable c =
    if leb 0x20 c && ltb c 0x7f
    then c
    else if (c == 9) || (c == 10) || (c == 13)
    then b' '
    else b'?'

unfoldable pub response_snippet : Bytes → ℕ → Bytes
unfolding printable
response_snippet body max_bytes =
    map printable (take max_bytes body) ++ (if ltb max_bytes (length body) then codes "..." else [])

-- `std::string` of a C string ends at its first NUL.
abbrev pub c_string : Bytes → Bytes
c_string = take_while (λ c. not (c == 0))

-- `isspace` of the C locale
abbrev is_c_space : ℕ → Bool
is_c_space c = (c == b' ') || (leb 9 c && leb c 13)

abbrev is_digit : ℕ → Bool
is_digit c = leb b'0' c && leb c b'9'

abbrev digits_value : ℕ → Bytes → ℕ
digits_value n [] = n
digits_value n (c ∷ s) = digits_value (n * 10 + (c - b'0')) s

-- The digits behind the sign: the text must start with one, what stands behind them is passed over,
-- and the value must be an int64.
abbrev stoll_digits : Bool → Bytes → Option ℤ
stoll_digits negative s =
    let digits = take_while is_digit s in
    let n = digits_value 0 digits in
    if is_empty digits
    then none
    else if negative
    then (if n == 0 then some (pos 0) else if leb n (2 ^ 63) then some (negsuc (n - 1)) else none)
    else if ltb n (2 ^ 63)
    then some (pos n)
    else none

abbrev stoll_signed : Bytes → Option ℤ
stoll_signed [] = none
stoll_signed (c ∷ s) =
    if c == b'-'
    then stoll_digits true s
    else if c == b'+'
    then stoll_digits false s
    else stoll_digits false (c ∷ s)

-- `std::stoll`; `none` where it throws.
unfoldable pub stoll : Bytes → Option ℤ
stoll s = stoll_signed (drop_while is_c_space s)

pub record Yyjson : Type 1 where
  pub Val : Type 0
  -- the root of a document, where the text is valid JSON
  pub read : Bytes → Option Val
  -- the first value under a key, where there is one
  pub obj_get : Val → Bytes → Option Val
  -- the elements, where the value is an array
  pub arr_items : Val → Option (List Val)
  -- the text, where the value is a string
  pub get_str : Val → Option Bytes
  -- the keys and values, in order; none where the value is no object
  pub obj_entries : Val → List (Val × Val)

pub invalid_json : Bytes → Bytes
invalid_json json = codes "Loki response is not valid JSON: " ++ response_snippet json 500

pub missing_array : Bytes → Bytes
missing_array json = codes "Loki response missing array 'data' field: " ++ response_snippet json 500

pub missing_data : Bytes → Bytes
missing_data json = codes "Loki response missing 'data' field: " ++ response_snippet json 500

pub not_streams : Option Bytes → Bytes
not_streams rt =
    codes "Loki resultType is '"
    ++ (elim rt [ none ↦ codes "(none)" | some t ↦ c_string t ]
        ++ codes
            "', expected 'streams'; loki_scan supports log queries only (metric queries are not supported yet)")

abbrev pub is_streams : Option Bytes → Bool
is_streams none = false
is_streams (some t) = str_eq (c_string t) (codes "streams")

module _ (y : Yyjson) where
  open y use {Val, read, obj_get, arr_items, get_str, obj_entries}

  -- A null pointer has no members, no elements and no text.
  abbrev pub member : Option Val → Bytes → Option Val
  member none key = none
  member (some v) key = obj_get v key

  abbrev pub elements : Option Val → List Val
  elements none = []
  elements (some v) = elim (arr_items v) [ none ↦ [] | some items ↦ items ]

  abbrev pub text : Option Val → Option Bytes
  text none = none
  text (some v) = get_str v

  abbrev entries : Option Val → List (Val × Val)
  entries none = []
  entries (some v) = obj_entries v

  strings : List Val → List Bytes
  strings [] = []
  strings (v ∷ vs) = elim (get_str v) [ none ↦ strings vs | some s ↦ c_string s ∷ strings vs ]

  -- The loop that collects a map from the entries of an object.
  collect : List (Val × Val) → StringMap → StringMap
  collect [] m = m
  collect ((k, v) ∷ rest) m = elim (get_str k) [
    | none ↦ collect rest m
    | some key ↦ elim (get_str v) [
      | none ↦ collect rest m
      | some value ↦ collect rest (emplace (c_string key) (c_string value) m)
    ]
  ]

  -- The array under `data`, or the exception that the discovery readers throw.
  data_array : Bytes → Result (List Val)
  data_array json = do
    root ← or_throw (read json) (runtime_error (invalid_json json))
    array ← or_throw (obj_get root (codes "data")) (runtime_error (missing_array json))
    or_throw (arr_items array) (runtime_error (missing_array json))

  unfoldable pub parse_string_array_response : Bytes → Result (List Bytes)
  unfolding data_array strings
  parse_string_array_response json = do items ← data_array json; ok (strings items)

  unfoldable pub parse_series_response : Bytes → Result (List StringMap)
  unfolding data_array collect
  parse_series_response json = do
    items ← data_array json
    ok (map (λ elem. collect (obj_entries elem) []) items)

  -- An entry of a stream; `none` where it is skipped.
  stream_entry : Val → Option StreamEntry
  unfolding collect
  stream_entry pair =
      let items = elements (some pair) in
      elim (text (get_elem? items 0)) [
        | none ↦ none
        | some ts_str ↦ elim (stoll (c_string ts_str)) [
          | none ↦ none
          | some ns ↦ some (record {
            ts_ns = ns;
            line = elim (text (get_elem? items 1)) [ none ↦ [] | some l ↦ c_string l ];
            structured_metadata =
                collect (entries (member (get_elem? items 2) (codes "structuredMetadata"))) [];
          })
        ]
      ]

  stream_entries : List Val → List StreamEntry
  unfolding stream_entry
  stream_entries [] = []
  stream_entries (pair ∷ pairs) = elim (stream_entry pair) [
    | none ↦ stream_entries pairs
    | some entry ↦ entry ∷ stream_entries pairs
  ]

  unfoldable pub stream_chunk : Val → StreamChunk
  unfolding collect stream_entries
  stream_chunk elem = record {
    labels = collect (entries (obj_get elem (codes "stream"))) [];
    values = stream_entries (elements (obj_get elem (codes "values")));
  }

  unfoldable pub parse_streams_response : Bytes → Result (List StreamChunk)
  unfolding stream_chunk
  parse_streams_response json = do
    root ← or_throw (read json) (runtime_error (invalid_json json))
    body ← or_throw (obj_get root (codes "data")) (runtime_error (missing_data json))
    let rt = text (obj_get body (codes "resultType"))
    throw_if (not (is_streams rt)) (runtime_error (not_streams rt))
    ok (map stream_chunk (elements (obj_get body (codes "result"))))
