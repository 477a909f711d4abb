-- ===== src/Tests/Credentials.antt =====
-- The theorem on src/loki/secret.cpp at a concrete input.
use duckdb_loki.Base.{
  ◌≡◌, refl, ap, some, none, Bool, [], ◌∷◌, codes, str_eq, Bytes, Option, if◌then◌else◌,
}
use duckdb_loki.Secrets.{
  Field, endpoint, token, username, password, tenant, headers, name_of, SecretStore,
  CreateSecretInput, create_loki_secret_from_config, create_loki_secret_from_env,
}
use duckdb_loki.Secrets.Fields.{
  KeepsValues, same_field, or_else, seeded, variable_of, create_loki_secret_from_env-fields,
}

-- Secrets whose values are texts, in a map that is a function.
abbrev store : SecretStore
store = record {
  Value = Bytes;
  SecretMap = Bytes → Option Bytes;
  value_of = λ text. text;
  no_values = λ key. none;
  set_value = λ key v m other. if str_eq key other then some v else m other;
  get_value = λ key m. m key;
  try_set_value =
      λ key options m other. if str_eq key other then or_else (options key) (m other) else m other;
}

same_names : (f g : Field) → str_eq (name_of f) (name_of g) ≡ same_field f g
unfolding name_of str_eq
same_names endpoint endpoint = refl
same_names endpoint token = refl
same_names endpoint username = refl
same_names endpoint password = refl
same_names endpoint tenant = refl
same_names endpoint headers = refl
same_names token endpoint = refl
same_names token token = refl
same_names token username = refl
same_names token password = refl
same_names token tenant = refl
same_names token headers = refl
same_names username endpoint = refl
same_names username token = refl
same_names username username = refl
same_names username password = refl
same_names username tenant = refl
same_names username headers = refl
same_names password endpoint = refl
same_names password token = refl
same_names password username = refl
same_names password password = refl
same_names password tenant = refl
same_names password headers = refl
same_names tenant endpoint = refl
same_names tenant token = refl
same_names tenant username = refl
same_names tenant password = refl
same_names tenant tenant = refl
same_names tenant headers = refl
same_names headers endpoint = refl
same_names headers token = refl
same_names headers username = refl
same_names headers password = refl
same_names headers tenant = refl
same_names headers headers = refl

keeps : KeepsValues store
keeps = record {
  empty = λ f. refl;
  assigned = λ f g v m. ap (λ (b : Bool). if b then some v else m (name_of g)) (same_names f g);
  tried = λ f g options m.
      ap (λ (b : Bool). if b then or_else (options (name_of f)) (m (name_of g)) else m (name_of g))
        (same_names f g);
}

abbrev only_token : Bytes → Option Bytes
only_token key = if str_eq key (codes "token") then some (codes "inline") else none

abbrev env : Bytes → Option Bytes
env variable = some (codes "seeded")

abbrev input : CreateSecretInput store
input = record {
  scope = [];
  secret_type = codes "loki";
  provider = codes "env";
  name = codes "s";
  options = only_token;
}

create_loki_secret_from_env-fields_example :
    (store.get_value (name_of token) (create_loki_secret_from_config store input).secret_map
      ≡ input.options (name_of token))
    × (store.get_value (name_of token) (create_loki_secret_from_env store env input).secret_map
        ≡ or_else (input.options (name_of token)) (seeded store env (variable_of token)))
    × ((create_loki_secret_from_config store input).redact_keys
        ≡ name_of token ∷ name_of password ∷ [])
    × ((create_loki_secret_from_env store env input).redact_keys
        ≡ name_of token ∷ name_of password ∷ [])
create_loki_secret_from_env-fields_example =
    create_loki_secret_from_env-fields store keeps token env input
