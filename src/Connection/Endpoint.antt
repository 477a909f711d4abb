-- ===== src/Connection/Endpoint.antt =====
-- The endpoint that `ResolveLokiConnection` and `ResolveLokiConnectionFromOptions` of
-- src/loki/connection.cpp give.
use mathlib.Core.List.{reverse-append, reverse-reverse}
use duckdb_loki.Base.{
  ◌⊎◌, ◌≡◌, ◌≢◌, sym, ap, ◌∙◌, true, Option, List, [], ◌∷◌, ◌++◌, Bytes, codes, Bool-cases, inl,
  inr, Exception, Result, ok, ◌>>=◌, bind_ok, reverse, drop_while, ◌==◌, ==_iff,
}
use duckdb_loki.Auth.{AuthConfig}
use duckdb_loki.Connection.{Duckdb, Assembly, trim_slashes}
use duckdb_loki.Connection.Resolve.{
  Connected, finish, connected_from, inline_headers, use_secret, use_attach_secret,
  find_named_param, inline_endpoint_of, attach_endpoint, attach_secret_name, bare_path_of,
  path_is_url, function_needs_endpoint, attach_needs_endpoint, resolve_loki_connection,
  resolve_loki_connection_from_options, endpoint_or,
}

drop_while_head : (s t : Bytes) → drop_while (λ c. c == b'/') s ≢ b'/' ∷ t
drop_while_head [] t e = cc
drop_while_head (c ∷ s) t e = elim (Bool-cases (c == b'/')) [
  | inl slash ↦ drop_while_head s t (rw slash at e)
  | inr other ↦
      let e' : c ∷ s ≡ b'/' ∷ t = rw other at e in
      let same : c ≡ b'/' = cc in let slash : (c == b'/') ≡ true = (==_iff c b'/').1 same in cc
]

-- No slash is left at the end.
trim_slashes-end : (s t : Bytes) → trim_slashes s ≢ t ++ b'/' ∷ []
unfolding trim_slashes
trim_slashes-end s t e = drop_while_head (reverse s) (reverse t) (
    sym (reverse-reverse (drop_while (λ c. c == b'/') (reverse s)))
    ∙ ap reverse e
    ∙ reverse-append t (b'/' ∷ []))

module _ (db : Duckdb) where
  open db use {Value}

  connected_from-endpoint :
      (params : Bytes → Option Value) (endpoint : Bytes) (e : Exception) (a : Assembly)
      (headers : List (Bytes × Bytes)) (k : Connected)
      → connected_from db params endpoint e a headers ≡ ok k
      → k.endpoint ≡ trim_slashes endpoint
  unfolding connected_from
  connected_from-endpoint params [] e a headers k h = cc
  connected_from-endpoint params (c ∷ s) e a headers k h = cc

  finish-endpoint :
      (params : Bytes → Option Value) (named : Option Bytes) (e : Exception) (a : Assembly)
      (k : Connected)
      → finish db params named e a ≡ ok k
      → k.endpoint ≡ trim_slashes (endpoint_or named a.endpoint)
  unfolding finish
  finish-endpoint params named e a k h =
      let endpoint = endpoint_or named a.endpoint in
      let (headers, _, h') =
        bind_ok (inline_headers db params a) (λ hs. connected_from db params endpoint e a hs) k h in
      connected_from-endpoint params endpoint e a headers k h'

  finish_after :
      (m : Result Assembly) (params : Bytes → Option Value) (named : Option Bytes) (ex : Exception)
      (k : Connected) (before : Bytes)
      → (m >>= λ a. finish db params named ex a) ≡ ok k
      → k.endpoint ≢ before ++ b'/' ∷ []
  finish_after m params named ex k before h e =
      let (a, _, h') = bind_ok m (λ x. finish db params named ex x) k h in
      trim_slashes-end (endpoint_or named a.endpoint) before
        (sym (finish-endpoint params named ex a k h') ∙ e)

  -- Whatever the secrets, the arguments and the options of ATTACH are, the endpoint of a connection does
  -- not end in a slash, so that a path can be put behind it.
  resolve_loki_connection-endpoint :
      (path : Bytes) (params : Bytes → Option Value) (endpoint : Bytes) (auth : AuthConfig)
      (fn : Bytes) (k : Connected) (before : Bytes)
      → (resolve_loki_connection db params endpoint auth fn ≡ ok k)
        ⊎ (resolve_loki_connection_from_options db path params endpoint auth fn ≡ ok k)
      → k.endpoint ≢ before ++ b'/' ∷ []
  unfolding resolve_loki_connection resolve_loki_connection_from_options
  resolve_loki_connection-endpoint path params endpoint auth fn k before (inl h) =
      let named = inline_endpoint_of db (find_named_param db params (codes "endpoint")) in
      finish_after
        (use_secret db (find_named_param db params (codes "secret")) (endpoint_or named []) fn
          (record { endpoint = endpoint; auth = auth; headers = [] }))
        params named (function_needs_endpoint fn) k before h
  resolve_loki_connection-endpoint path params endpoint auth fn k before (inr h) =
      let bare_path = bare_path_of db path in
      let is_url = path_is_url db bare_path in
      let named =
        attach_endpoint db (find_named_param db params (codes "endpoint")) is_url bare_path in
      finish_after
        (use_attach_secret db
          (attach_secret_name db (find_named_param db params (codes "secret")) is_url bare_path)
          (endpoint_or named []) fn (record { endpoint = endpoint; auth = auth; headers = [] }))
        params named (attach_needs_endpoint fn) k before h
