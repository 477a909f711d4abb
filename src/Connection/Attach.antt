-- ===== src/Connection/Attach.antt =====
-- `ResolveLokiConnectionFromOptions` against `ResolveLokiConnection` of src/loki/connection.cpp, and the
-- endpoint that both give.
use duckdb_loki.Base.{
  ℕ, ◌≡◌, refl, sym, ◌∙◌, true, false, Option, none, some, [], ◌∷◌, arith, Bytes, codes, str_eq,
  if◌then◌else◌, Exception, Result, ok, throw, ◌>>=◌,
}
use duckdb_loki.Auth.{AuthConfig}
use duckdb_loki.Connection.{Duckdb, Assembly, starts_with}
use duckdb_loki.Connection.Secrets.{use_best_secret}
use duckdb_loki.Connection.Resolve.{
  find_named_param, param_or, finish, inline_headers, connected_from, resolve_loki_connection,
  bare_path_of, path_is_url, resolve_loki_connection_from_options, function_needs_endpoint,
  attach_needs_endpoint, use_secret, inline_endpoint_of, use_attach_secret, attach_secret_name,
  attach_endpoint,
}

module _ (db : Duckdb) where
  open db use {Value}

  -- The arguments of a function call, from the options of ATTACH and an endpoint.
  abbrev pub with_endpoint : (Bytes → Option Value) → Value → Bytes → Option Value
  with_endpoint options v name = if str_eq name (codes "endpoint") then some v else options name

  finish_same :
      (options : Bytes → Option Value) (v : Value) (c : ℕ) (path : Bytes) (e1 e2 : Exception)
      (a : Assembly)
      → finish db options (some (c ∷ path)) e1 a
        ≡ finish db (with_endpoint options v) (some (c ∷ path)) e2 a
  unfolding finish inline_headers connected_from param_or find_named_param str_eq
  finish_same options v c path e1 e2 a = refl

  module _ (options : Bytes → Option Value) (v : Value) (c : ℕ) (rest : Bytes) (endpoint : Bytes)
      (auth : AuthConfig) (fn : Bytes) where
    abbrev path : Bytes
    path = c ∷ rest

    abbrev start : Assembly
    start = record { endpoint = endpoint; auth = auth; headers = [] }

    bare_path_same :
        starts_with (codes "loki:") (db.lower path) ≡ false → bare_path_of db path ≡ path
    unfolding bare_path_of
    bare_path_same h = rw h refl

    attach_side :
        starts_with (codes "loki:") (db.lower path) ≡ false
        → path_is_url db path ≡ true
        → find_named_param db options (codes "secret") ≡ none
        → find_named_param db options (codes "endpoint") ≡ none
        → resolve_loki_connection_from_options db path options endpoint auth fn ≡ (
            use_best_secret db path fn start >>= λ a.
            finish db options (some path) (attach_needs_endpoint fn) a)
    unfolding resolve_loki_connection_from_options
    attach_side p u s e =
        rw (bare_path_same p, u, s, e)
          (unfold attach_secret_name attach_endpoint use_attach_secret in refl)

    named_endpoint :
        db.to_string v ≡ path
        → db.is_null v ≡ false
        → inline_endpoint_of db (find_named_param db (with_endpoint options v) (codes "endpoint"))
          ≡ some path
    unfolding inline_endpoint_of find_named_param str_eq
    named_endpoint t n = ground arith

    same_secret :
        find_named_param db (with_endpoint options v) (codes "secret")
        ≡ find_named_param db options (codes "secret")
    unfolding find_named_param str_eq
    same_secret = refl

    function_side :
        db.to_string v ≡ path
        → db.is_null v ≡ false
        → find_named_param db options (codes "secret") ≡ none
        → resolve_loki_connection db (with_endpoint options v) endpoint auth fn ≡ (
            use_best_secret db path fn start >>= λ a.
            finish db (with_endpoint options v) (some path) (function_needs_endpoint fn) a)
    unfolding resolve_loki_connection
    function_side t n s = rw (named_endpoint t n, same_secret, s) (unfold use_secret in refl)

  bind_same :
      {A B : Type 0} (m : Result A) (f g : A → Result B)
      → ((a : A) → f a ≡ g a)
      → (m >>= f) ≡ (m >>= g)
  bind_same (ok a) f g h = h a
  bind_same (throw e) f g h = refl

  -- ATTACH of a URL that names no secret and no other endpoint connects as a function call does that has
  -- the URL as its `endpoint` and the same other arguments: with the same secret, the same result, and
  -- the same errors.
  pub attach-function :
      (options : Bytes → Option Value) (v : Value) (c : ℕ) (rest : Bytes) (endpoint : Bytes)
      (auth : AuthConfig) (fn : Bytes)
      → db.to_string v ≡ c ∷ rest
      → db.is_null v ≡ false
      → starts_with (codes "loki:") (db.lower (c ∷ rest)) ≡ false
      → path_is_url db (c ∷ rest) ≡ true
      → find_named_param db options (codes "secret") ≡ none
      → find_named_param db options (codes "endpoint") ≡ none
      → resolve_loki_connection_from_options db (c ∷ rest) options endpoint auth fn
        ≡ resolve_loki_connection db (with_endpoint options v) endpoint auth fn
  attach-function options v c rest endpoint auth fn t n p u s e =
      attach_side options v c rest endpoint auth fn p u s e
      ∙ bind_same
          (use_best_secret db (c ∷ rest) fn
            (record { endpoint = endpoint; auth = auth; headers = [] }))
          _ _
          (λ a.
            finish_same options v c rest (attach_needs_endpoint fn) (function_needs_endpoint fn) a)
      ∙ sym (function_side options v c rest endpoint auth fn t n s)
