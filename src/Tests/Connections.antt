-- ===== src/Tests/Connections.antt =====
-- The theorems on src/loki/connection.cpp at concrete inputs.
use duckdb_loki.Base.{
  ℕ, zero, suc, ◌≡◌, refl, true, false, Option, none, some, [], ◌∷◌, Bytes, codes, str_eq,
  if◌then◌else◌,
}
use duckdb_loki.Base.Int.{pos}
use duckdb_loki.Auth.{AuthConfig}
use duckdb_loki.Connection.{Duckdb, starts_with}
use duckdb_loki.Connection.Resolve.{
  find_named_param, resolve_loki_connection, path_is_url, resolve_loki_connection_from_options,
}
use duckdb_loki.Connection.Attach.{with_endpoint, attach-function}

-- Two secrets with one score: the default, which is 0, and another, which DuckDB's match takes.
abbrev name_of_secret : ℕ → Bytes
name_of_secret zero = codes "__default_loki"
name_of_secret (suc n) = codes "other"

abbrev token_of : ℕ → Bytes → Option Bytes
token_of secret name = if str_eq name (codes "token") then some (name_of_secret secret) else none

abbrev db : Duckdb
db = record {
  Value = Bytes;
  is_null = λ v. false;
  to_string = λ v. v;
  map_entries = λ v. [];
  interval_of = λ v. some (pos 0, pos 1, pos 0);
  cast_to_timestamp = λ v. v;
  epoch_nanoseconds = λ v. none;
  Secret = ℕ;
  secret_type = λ s. codes "loki";
  secret_name = name_of_secret;
  is_key_value = λ s. true;
  try_get_value = token_of;
  match_score = λ s path. pos 0;
  secret_by_name = λ name. none;
  lookup_secret = λ path. some 1;
  all_secrets = 1 ∷ 0 ∷ [];
  lower = λ s. s;
}

abbrev url : Bytes
url = codes "http://h//"

abbrev no_auth : AuthConfig
no_auth = record { token = []; username = []; password = []; tenant = []; extra_headers = [] }

abbrev no_options : Bytes → Option Bytes
no_options name = none

attach-function_example :
    resolve_loki_connection_from_options db url no_options [] no_auth (codes "loki")
    ≡ resolve_loki_connection db (with_endpoint db no_options url) [] no_auth (codes "loki")
unfolding starts_with path_is_url find_named_param
attach-function_example =
    attach-function db no_options url b'h' (codes "ttp://h//") [] no_auth (codes "loki") refl refl
      refl refl refl refl
