-- ===== src/Connection/Secrets.antt =====
-- src/loki/connection.cpp: `ReadLokiSecret`, `LookupBestLokiSecret`, and the choice between them.
use duckdb_loki.Base.{
  Bool, ◌&&◌, Option, none, some, List, [], ◌∷◌, Bytes, codes, str_eq, if◌then◌else◌, Result, ok,
  ◌>>=◌, or_throw,
}
use duckdb_loki.Base.Int.{ℤ, eq_ℤ}
use duckdb_loki.Connection.{
  Duckdb, Assembly, append_headers_from_map, require_loki_secret, text_or, no_secret,
}

module _ (db : Duckdb) where
  open db use {Value, Secret}

  unfoldable pub read_loki_secret : Secret → Assembly → Result Assembly
  unfolding append_headers_from_map text_or
  read_loki_secret kv a =
      let field : Bytes → Bytes → Bytes =
        λ name before. text_or db (db.try_get_value kv name) before in
      do
        headers ← elim (db.try_get_value kv (codes "headers")) [
          | none ↦ ok a.headers
          | some v ↦ append_headers_from_map db v a.headers
        ]
        ok (record {
          endpoint = field (codes "endpoint") a.endpoint;
          auth = record a.auth {
            token = field (codes "token") a.auth.token;
            username = field (codes "username") a.auth.username;
            password = field (codes "password") a.auth.password;
            tenant = field (codes "tenant") a.auth.tenant;
          };
          headers = headers;
        })

  -- The test in the loop of `LookupBestLokiSecret`.
  unfoldable pub is_default_secret : Bytes → ℤ → Secret → Bool
  is_default_secret path best_score secret =
      str_eq (db.secret_type secret) (codes "loki")
      && str_eq (db.secret_name secret) (codes "__default_loki")
      && eq_ℤ (db.match_score secret path) best_score

  unfoldable pub find_default : Bytes → ℤ → List Secret → Option Secret
  unfolding is_default_secret
  find_default path best_score [] = none
  find_default path best_score (secret ∷ secrets) =
      let rest = find_default path best_score secrets in
      if is_default_secret path best_score secret then some secret else rest

  unfoldable pub lookup_best_loki_secret : Bytes → Option Secret
  unfolding find_default
  lookup_best_loki_secret path = elim (db.lookup_secret path) [
    | none ↦ none
    | some matched ↦ elim (find_default path (db.match_score matched path) db.all_secrets) [
      | none ↦ some matched
      | some entry ↦ some entry
    ]
  ]

  -- A secret that the call names.
  unfoldable pub use_named_secret : Bytes → Bytes → Assembly → Result Assembly
  unfolding read_loki_secret require_loki_secret
  use_named_secret name fn a = do
    entry ← or_throw (db.secret_by_name name) (no_secret fn name)
    kv ← require_loki_secret db entry name fn
    read_loki_secret kv a

  -- The best secret for the endpoint, where the call names none.
  unfoldable pub use_best_secret : Bytes → Bytes → Assembly → Result Assembly
  unfolding read_loki_secret require_loki_secret lookup_best_loki_secret
  use_best_secret path fn a = elim (lookup_best_loki_secret path) [
    | none ↦ ok a
    | some entry ↦
        require_loki_secret db entry (db.secret_name entry) fn >>= λ kv. read_loki_secret kv a
  ]
