-- ===== src/Secrets.antt =====
-- src/loki/secret.cpp: the two providers of `loki` secrets, from the options of CREATE SECRET alone and from
-- the environment.
pub mod Fields
use duckdb_loki.Base.{Bool, true, false, Option, none, some, List, [], ◌∷◌, Bytes, codes}

-- The options that `AddLokiSecretParameters` declares for both providers.
pub data Field : Type 0 where
  endpoint token username password tenant headers : Field

unfoldable pub name_of : Field → Bytes
name_of endpoint = codes "endpoint"
name_of token = codes "token"
name_of username = codes "username"
name_of password = codes "password"
name_of tenant = codes "tenant"
name_of headers = codes "headers"

-- DuckDB's values, the map of a secret, with `secret_map[key] = value` and what is there under a key, and
-- `TrySetValue` from the options of CREATE SECRET.
pub record SecretStore : Type 1 where
  pub Value : Type 0
  pub SecretMap : Type 0
  pub value_of : Bytes → Value
  pub no_values : SecretMap
  pub set_value : Bytes → Value → SecretMap → SecretMap
  pub get_value : Bytes → SecretMap → Option Value
  pub try_set_value : Bytes → (Bytes → Option Value) → SecretMap → SecretMap

module _ (store : SecretStore) where
  open store use {Value, SecretMap}

  -- What CREATE SECRET passes: the name, and the options that the user gave.
  pub record CreateSecretInput : Type 0 where
    pub scope : List Bytes
    pub secret_type : Bytes
    pub provider : Bytes
    pub name : Bytes
    pub options : Bytes → Option Value

  pub record KeyValueSecret : Type 0 where
    pub scope : List Bytes
    pub secret_type : Bytes
    pub provider : Bytes
    pub name : Bytes
    pub secret_map : SecretMap
    pub redact_keys : List Bytes

  abbrev pub new_secret : CreateSecretInput → KeyValueSecret
  new_secret input = record {
    scope = input.scope;
    secret_type = input.secret_type;
    provider = input.provider;
    name = input.name;
    secret_map = store.no_values;
    redact_keys = [];
  }

  -- The six calls of `TrySetValue`.
  unfoldable pub set_options : (Bytes → Option Value) → SecretMap → SecretMap
  set_options options m =
      let m1 = store.try_set_value (name_of endpoint) options m in
      let m2 = store.try_set_value (name_of token) options m1 in
      let m3 = store.try_set_value (name_of username) options m2 in
      let m4 = store.try_set_value (name_of password) options m3 in
      let m5 = store.try_set_value (name_of tenant) options m4 in
      store.try_set_value (name_of headers) options m5

  unfoldable pub apply_loki_secret_options : KeyValueSecret → CreateSecretInput → KeyValueSecret
  unfolding set_options
  apply_loki_secret_options secret input = record secret {
    secret_map = set_options input.options secret.secret_map;
    redact_keys = name_of token ∷ name_of password ∷ [];
  }

  unfoldable pub create_loki_secret_from_config : CreateSecretInput → KeyValueSecret
  unfolding apply_loki_secret_options
  create_loki_secret_from_config input = apply_loki_secret_options (new_secret input) input

  -- `TryGetEnv` and the assignment under its test; `std::getenv` is the function `env`.
  unfoldable pub seed_value : (Bytes → Option Bytes) → Bytes → Field → SecretMap → SecretMap
  seed_value env variable field m = elim (env variable) [
    | none ↦ m
    | some text ↦ store.set_value (name_of field) (store.value_of text) m
  ]

  unfoldable pub seed_values : (Bytes → Option Bytes) → SecretMap → SecretMap
  unfolding seed_value
  seed_values env m =
      let m1 = seed_value env (codes "LOKI_ADDR") endpoint m in
      let m2 = seed_value env (codes "LOKI_BEARER_TOKEN") token m1 in
      let m3 = seed_value env (codes "LOKI_USERNAME") username m2 in
      let m4 = seed_value env (codes "LOKI_PASSWORD") password m3 in
      seed_value env (codes "LOKI_ORG_ID") tenant m4

  unfoldable pub create_loki_secret_from_env :
      (Bytes → Option Bytes) → CreateSecretInput → KeyValueSecret
  unfolding seed_values apply_loki_secret_options
  create_loki_secret_from_env env input =
      let secret = new_secret input in
      apply_loki_secret_options (record secret { secret_map = seed_values env secret.secret_map })
        input
