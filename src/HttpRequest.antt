-- ===== src/HttpRequest.antt =====
-- src/loki/http_request.cpp: percent-encoding and the requests to Loki's endpoints.
pub mod UrlEncode
pub mod Query
use duckdb_loki.Base.{
  ℕ, ◌+◌, ◌-◌, ◌/◌, ◌%◌, Bool, ◌&&◌, ◌||◌, List, [], ◌∷◌, ◌++◌, Bytes, codes, is_empty, leb, ltb,
  ◌==◌, if◌then◌else◌,
}
use duckdb_loki.Base.Int.{ℤ, pos, leb_ℤ, int_to_string}
use duckdb_loki.Types.{QueryRangeRequest}

-- `std::isalnum` of the C locale, and the four marks that stay as they are.
unfoldable pub is_unreserved : ℕ → Bool
is_unreserved c =
    (leb b'0' c && leb c b'9')
    || (leb b'A' c && leb c b'Z')
    || (leb b'a' c && leb c b'z')
    || (c == b'-')
    || (c == b'_')
    || (c == b'.')
    || (c == b'~')

-- A digit of `%X`.
hex_digit : ℕ → ℕ
hex_digit d = if ltb d 10 then b'0' + d else b'A' + d - 10

-- One round of `UrlEncode`; `%%%02X` of a byte.
url_encode_char : ℕ → Bytes
unfolding hex_digit
url_encode_char c =
    if is_unreserved c then c ∷ [] else b'%' ∷ hex_digit (c / 16) ∷ hex_digit (c % 16) ∷ []

unfoldable pub url_encode : Bytes → Bytes
unfolding url_encode_char
url_encode [] = []
url_encode (c ∷ s) = url_encode_char c ++ url_encode s

unfoldable pub build_query_range_request : Bytes → ℤ → ℤ → ℤ → Bytes → QueryRangeRequest
build_query_range_request logql start_ns end_ns limit direction = record {
  path = codes "/loki/api/v1/query_range";
  params =
      (codes "query", logql)
      ∷ (codes "start", int_to_string start_ns)
      ∷ (codes "end", int_to_string end_ns)
      ∷ (codes "limit", int_to_string limit)
      ∷ (codes "direction", direction)
      ∷ [];
}

-- The bounds that `AppendTimeBounds` appends: a negative one is left out.
unfoldable pub time_bounds : ℤ → ℤ → List (Bytes × Bytes)
time_bounds start_ns end_ns =
    (if leb_ℤ (pos 0) start_ns then (codes "start", int_to_string start_ns) ∷ [] else [])
    ++ (if leb_ℤ (pos 0) end_ns then (codes "end", int_to_string end_ns) ∷ [] else [])

unfoldable pub build_labels_request : ℤ → ℤ → QueryRangeRequest
build_labels_request start_ns end_ns = record {
  path = codes "/loki/api/v1/labels";
  params = time_bounds start_ns end_ns;
}

unfoldable pub build_label_values_request : Bytes → ℤ → ℤ → Bytes → QueryRangeRequest
build_label_values_request name start_ns end_ns query = record {
  path = codes "/loki/api/v1/label/" ++ (url_encode name ++ codes "/values");
  params =
      time_bounds start_ns end_ns ++ (if is_empty query then [] else (codes "query", query) ∷ []);
}

unfoldable pub build_series_request : Bytes → ℤ → ℤ → QueryRangeRequest
build_series_request match start_ns end_ns = record {
  path = codes "/loki/api/v1/series";
  params = (codes "match[]", match) ∷ time_bounds start_ns end_ns;
}

-- The loop of `BuildQueryString` over the parameters that are left.
append_params : Bytes → List (Bytes × Bytes) → Bytes
append_params out [] = out
append_params out ((k, v) ∷ params) =
    append_params
      ((if is_empty out then out else out ++ b'&' ∷ []) ++ (url_encode k ++ b'=' ∷ url_encode v))
      params

unfoldable pub build_query_string : QueryRangeRequest → Bytes
unfolding append_params
build_query_string request = append_params [] request.params
