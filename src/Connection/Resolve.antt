-- ===== src/Connection/Resolve.antt =====
-- src/loki/connection.cpp: `ResolveLokiConnection` for the table functions, and
-- `ResolveLokiConnectionFromOptions` for ATTACH.
use duckdb_loki.Base.{
  Bool, not, ◌&&◌, ◌||◌, Option, none, some, List, [], ◌∷◌, ◌++◌, drop, Bytes, codes, is_empty,
  if◌then◌else◌, Exception, binder_exception, Result, ok, ◌>>=◌, ◌>>◌, throw_if,
}
use duckdb_loki.Auth.{AuthConfig}
use duckdb_loki.Connection.{Duckdb, Assembly, append_headers_from_map, starts_with, trim_slashes}
use duckdb_loki.Connection.Secrets.{use_named_secret, use_best_secret}

abbrev pub function_needs_endpoint : Bytes → Exception
function_needs_endpoint fn = binder_exception (
    fn
    ++ codes
        " requires an endpoint: pass endpoint := 'http://localhost:3100' or reference a secret (secret := 'my_loki', or a default secret created with CREATE SECRET (TYPE loki, ENDPOINT ...))")

abbrev pub attach_needs_endpoint : Bytes → Exception
attach_needs_endpoint fn = binder_exception (
    fn
    ++ codes
        " requires an endpoint: ATTACH an http(s):// URL (optionally written 'loki:http://...', which avoids DuckDB's httpfs requirement for remote paths), pass ENDPOINT, or reference a loki secret (SECRET 'my_loki', or a default CREATE SECRET (TYPE loki, ENDPOINT ...))")

-- The endpoint and the credentials of a connection.
pub record Connected : Type 0 where
  pub endpoint : Bytes
  pub auth : AuthConfig

abbrev pub endpoint_or : Option Bytes → Bytes → Bytes
endpoint_or none before = before
endpoint_or (some e) before = e

module _ (db : Duckdb) where
  open db use {Value}

  -- A parameter that is there and not NULL, by its name.
  unfoldable pub find_named_param : (Bytes → Option Value) → Bytes → Option Value
  find_named_param params name = elim (params name) [
    | none ↦ none
    | some v ↦ if db.is_null v then none else some v
  ]

  unfoldable pub param_or : (Bytes → Option Value) → Bytes → Bytes → Bytes
  unfolding find_named_param
  param_or params name before = elim (find_named_param params name) [
    | none ↦ before
    | some v ↦ db.to_string v
  ]

  -- Inline headers replace those of the secret.
  unfoldable pub inline_headers : (Bytes → Option Value) → Assembly → Result (List (Bytes × Bytes))
  unfolding append_headers_from_map
  inline_headers params a = elim (find_named_param params (codes "headers")) [
    | none ↦ ok a.headers
    | some v ↦ append_headers_from_map db v []
  ]

  -- The check of the endpoint and the loop over its slashes, with the inline credentials.
  unfoldable pub connected_from :
      (Bytes → Option Value)
      → Bytes
      → Exception
      → Assembly
      → List (Bytes × Bytes)
      → Result Connected
  unfolding param_or trim_slashes
  connected_from params endpoint needs_endpoint a headers =
      throw_if (is_empty endpoint) needs_endpoint
      >> ok (record {
        endpoint = trim_slashes endpoint;
        auth = record {
          token = param_or params (codes "token") a.auth.token;
          username = param_or params (codes "username") a.auth.username;
          password = param_or params (codes "password") a.auth.password;
          tenant = param_or params (codes "tenant") a.auth.tenant;
          extra_headers = headers;
        };
      })

  -- What both functions do behind the secret. `named` is the endpoint that the call names.
  unfoldable pub finish :
      (Bytes → Option Value) → Option Bytes → Exception → Assembly → Result Connected
  unfolding inline_headers connected_from
  finish params named needs_endpoint a = inline_headers params a >>= λ headers.
      connected_from params (endpoint_or named a.endpoint) needs_endpoint a headers

  -- The endpoint that a call names, from its parameter.
  unfoldable pub inline_endpoint_of : Option Value → Option Bytes
  inline_endpoint_of none = none
  inline_endpoint_of (some v) = some (db.to_string v)

  -- The secret that the parameter `secret` names, or the best one for the endpoint.
  unfoldable pub use_secret : Option Value → Bytes → Bytes → Assembly → Result Assembly
  use_secret none inline_endpoint fn a = use_best_secret db inline_endpoint fn a
  use_secret (some v) inline_endpoint fn a = use_named_secret db (db.to_string v) fn a

  unfoldable pub resolve_loki_connection :
      (Bytes → Option Value) → Bytes → AuthConfig → Bytes → Result Connected
  unfolding finish use_secret inline_endpoint_of
  resolve_loki_connection params endpoint auth fn =
      let named = inline_endpoint_of (find_named_param params (codes "endpoint")) in
      let start : Assembly = record { endpoint = endpoint; auth = auth; headers = [] } in
      use_secret (find_named_param params (codes "secret")) (endpoint_or named []) fn start >>= λ a.
      finish params named (function_needs_endpoint fn) a

  -- The path of ATTACH without the prefix that hides a URL from DuckDB.
  unfoldable pub bare_path_of : Bytes → Bytes
  unfolding starts_with
  bare_path_of path = if starts_with (codes "loki:") (db.lower path) then drop 5 path else path

  unfoldable pub path_is_url : Bytes → Bool
  unfolding starts_with
  path_is_url bare_path =
      starts_with (codes "http://") (db.lower bare_path)
      || starts_with (codes "https://") (db.lower bare_path)

  -- The name of the secret that ATTACH uses; empty where it names none.
  unfoldable pub attach_secret_name : Option Value → Bool → Bytes → Bytes
  attach_secret_name none is_url bare_path =
      if not is_url && not (is_empty bare_path) then bare_path else []
  attach_secret_name (some v) is_url bare_path = db.to_string v

  unfoldable pub attach_endpoint : Option Value → Bool → Bytes → Option Bytes
  attach_endpoint none is_url bare_path = if is_url then some bare_path else none
  attach_endpoint (some v) is_url bare_path = some (db.to_string v)

  unfoldable pub use_attach_secret : Bytes → Bytes → Bytes → Assembly → Result Assembly
  use_attach_secret [] inline_endpoint fn a = use_best_secret db inline_endpoint fn a
  use_attach_secret (c ∷ s) inline_endpoint fn a = use_named_secret db (c ∷ s) fn a

  unfoldable pub resolve_loki_connection_from_options :
      Bytes → (Bytes → Option Value) → Bytes → AuthConfig → Bytes → Result Connected
  unfolding finish bare_path_of path_is_url attach_secret_name attach_endpoint use_attach_secret
  resolve_loki_connection_from_options path options endpoint auth fn =
      let bare_path = bare_path_of path in
      let is_url = path_is_url bare_path in
      let secret_name =
        attach_secret_name (find_named_param options (codes "secret")) is_url bare_path in
      let named = attach_endpoint (find_named_param options (codes "endpoint")) is_url bare_path in
      let start : Assembly = record { endpoint = endpoint; auth = auth; headers = [] } in
      use_attach_secret secret_name (endpoint_or named []) fn start >>= λ a.
      finish options named (attach_needs_endpoint fn) a
