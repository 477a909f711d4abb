-- ===== src/Tests/Wire.antt =====
-- The theorems on what goes over the wire, src/loki/auth.cpp, http_request.cpp, http_client.cpp and
-- parse.cpp, at concrete inputs.
use duckdb_loki.Base.{
  ℕ, zero, suc, ◌≡◌, ◌↔◌, refl, Option, none, some, List, [], ◌∷◌, arith, codes, Bytes, All, ok,
  str_eq, if◌then◌else◌,
}
use duckdb_loki.Base.Int.{pos}
use duckdb_loki.Types.{StreamChunk, QueryRangeRequest}
use duckdb_loki.Auth.{AuthConfig, build_auth_headers}
use duckdb_loki.Auth.Headers.{basic, sent_credentials, sent_credentials-build_auth_headers}
use duckdb_loki.HttpRequest.{build_query_string}
use duckdb_loki.HttpRequest.UrlEncode.{IsByte}
use duckdb_loki.HttpRequest.Query.{read_query_string, read_query_string-build_query_string}
use duckdb_loki.HttpClient.{endpoint_problem, Outcome, answered, Call}
use duckdb_loki.HttpClient.Endpoint.{IsUsable}
use duckdb_loki.HttpClient.Usable.{endpoint_problem_iff}
use duckdb_loki.Parse.{Yyjson, parse_streams_response}
use duckdb_loki.Parse.Streams.{IsStreams, parse_streams_response_ok_iff}

abbrev config : AuthConfig
config = record {
  token = [];
  username = codes "ann";
  password = codes "a:b";
  tenant = codes "t1";
  extra_headers = (codes "X-A", codes "1") ∷ [];
}

sent_credentials-build_auth_headers_example :
    sent_credentials (build_auth_headers config) ≡ some (basic (codes "ann") (codes "a:b"))
sent_credentials-build_auth_headers_example =
    sent_credentials-build_auth_headers config refl (refl, (refl, (refl, tt))) (omega arith)

abbrev request : QueryRangeRequest
request = record {
  path = codes "/loki/api/v1/query_range";
  params = (codes "query", codes "{a=\"b&c\"}") ∷ (codes "limit", codes "5") ∷ [];
}

request_bytes :
    All IsByte (codes "query")
    × All IsByte (codes "{a=\"b&c\"}")
    × All IsByte (codes "limit")
    × All IsByte (codes "5")
request_bytes = (omega arith, omega arith, omega arith, omega arith)

read_query_string-build_query_string_example :
    read_query_string (build_query_string request) ≡ some request.params
read_query_string-build_query_string_example =
    let (is_query, is_selector, is_limit, is_five) = request_bytes in
    read_query_string-build_query_string request
      ((is_query, is_selector), ((is_limit, is_five), tt))

endpoint_problem_iff_example :
    (endpoint_problem (codes "http://[::1]:3100/x") ≡ []) ↔ IsUsable (codes "http://[::1]:3100/x")
endpoint_problem_iff_example = endpoint_problem_iff (codes "http://[::1]:3100/x")

abbrev answer_all : Call → Outcome
answer_all call = answered (pos 200) (codes "{}")

-- A document of four values: the root 0, its `data` 1, the text `streams` 2, and an empty array 3.
abbrev member_of : ℕ → Bytes → Option ℕ
member_of zero key = some 1
member_of (suc zero) key = some (if str_eq key (codes "resultType") then 2 else 3)
member_of n key = none

abbrev document : Yyjson
document = record {
  Val = ℕ;
  read = λ text. some 0;
  obj_get = member_of;
  arr_items = λ v. some [];
  get_str = λ v. some (codes "streams");
  obj_entries = λ v. [];
}

parse_streams_response_ok_iff_example :
    ((chunks : List StreamChunk) × (parse_streams_response document [] ≡ ok chunks))
    ↔ ((body : ℕ) × IsStreams document [] body)
parse_streams_response_ok_iff_example = parse_streams_response_ok_iff document []
