-- ===== src/HttpClient.antt =====
-- src/loki/http_client.cpp: the check of an endpoint, and the GET behind it. The HTTP library is not in
-- the repository: it is a parameter, whose client is built from an endpoint and may crash there.
pub mod Endpoint
pub mod Usable
use duckdb_loki.Base.{
  ℕ, Bool, true, false, not, ◌&&◌, ◌||◌, Option, none, some, List, [], ◌∷◌, ◌++◌, Bytes, codes,
  is_empty, leb, ltb, ◌==◌, if◌then◌else◌, take_while, length,
}
use duckdb_loki.Base.Find.{split_first, split_last}
use duckdb_loki.Base.Int.{ℤ, pos}

-- `endpoint.find("://")`: what stands behind it.
unfoldable pub after_scheme : Bytes → Option Bytes
after_scheme (a ∷ b ∷ c ∷ s) =
    let rest : Option Bytes = after_scheme (b ∷ c ∷ s) in
    if (a == b':') && (b == b'/') && (c == b'/') then some s else rest
after_scheme _ = none

abbrev pub ends_authority : ℕ → Bool
ends_authority c = (c == b'/') || (c == b'?') || (c == b'#')

abbrev pub is_digit : ℕ → Bool
is_digit c = leb b'0' c && leb c b'9'

unfoldable pub all_digits : Bytes → Bool
all_digits [] = true
all_digits (c ∷ s) = is_digit c && all_digits s

unfoldable pub no_port : Bytes
no_port = codes "has a ':' but no port number"

unfoldable pub non_numeric_port : Bytes → Bytes
non_numeric_port port = codes "has a non-numeric port '" ++ (port ++ codes "'")

unfoldable pub missing_scheme : Bytes
missing_scheme = codes "is missing a scheme — expected http:// or https://"

unfoldable pub missing_host : Bytes
missing_host = codes "is missing a host"

unfoldable pub port_problem : Bytes → Bytes
unfolding all_digits
port_problem port =
    if is_empty port then no_port else if all_digits port then [] else non_numeric_port port

-- The last ':' starts a port, unless a ']' stands behind it.
unfoldable pub authority_problem : Bytes → Bytes
unfolding port_problem
authority_problem authority =
    if is_empty authority then missing_host else elim (split_last b':' authority) [
      | none ↦ []
      | some (host, port) ↦ elim (split_first b']' port) [ none ↦ port_problem port | some _ ↦ [] ]
    ]

-- The empty text where the endpoint is usable.
unfoldable pub endpoint_problem : Bytes → Bytes
unfolding after_scheme authority_problem
endpoint_problem endpoint = elim (after_scheme endpoint) [
  | none ↦ missing_scheme
  | some rest ↦ authority_problem (take_while (λ c. not (ends_authority c)) rest)
]

pub record HttpResponse : Type 0 where
  pub status : ℤ
  pub body : Bytes
  pub error : Bytes

-- What a GET of the HTTP library comes to.
pub data Outcome : Type 0 where
  crashed : Outcome
  failed : Bytes → Outcome
  answered : ℤ → Bytes → Outcome

pub record Call : Type 0 where
  pub endpoint : Bytes
  pub connect_timeout_s : ℕ
  pub read_timeout_s : ℕ
  pub target : Bytes
  pub headers : List (Bytes × Bytes)

-- `none` where the process crashes.
abbrev response_of : Outcome → Option HttpResponse
response_of crashed = none
response_of (failed e) = some (record { status = pos 0; body = []; error = e })
response_of (answered status body) = some (record { status = status; body = body; error = [] })

-- The call of `client.Get`, with the timeouts that were set.
abbrev pub call_of : Bytes → Bytes → Bytes → List (Bytes × Bytes) → ℕ → ℕ → Call
call_of endpoint path query headers connect_timeout_s read_timeout_s = record {
  endpoint = endpoint;
  connect_timeout_s = connect_timeout_s;
  read_timeout_s = read_timeout_s;
  target = if is_empty query then path else path ++ (b'?' ∷ query);
  headers = headers;
}

invalid_endpoint : Bytes → Bytes → Bytes
invalid_endpoint endpoint problem =
    codes "invalid endpoint '" ++ (endpoint ++ (codes "': it " ++ problem))

module _ (get : Call → Outcome) where
  unfoldable pub http_get :
      Bytes → Bytes → Bytes → List (Bytes × Bytes) → ℕ → ℕ → Option HttpResponse
  unfolding invalid_endpoint endpoint_problem
  http_get endpoint path query headers connect_timeout_s read_timeout_s =
      if is_empty (endpoint_problem endpoint)
      then response_of (get (call_of endpoint path query headers connect_timeout_s read_timeout_s))
      else some (record {
        status = pos 0;
        body = [];
        error = invalid_endpoint endpoint (endpoint_problem endpoint);
      })
