-- ===== src/Secrets/Fields.antt =====
-- The fields of the secrets that the providers of src/loki/secret.cpp create.
use duckdb_loki.Base.{
  ◌≡◌, refl, ap, ◌∙◌, Bool, true, false, Option, none, some, [], ◌∷◌, Bytes, codes, if◌then◌else◌,
  sym, Option-cases, inl, inr,
}
use duckdb_loki.Secrets.{
  Field, endpoint, token, username, password, tenant, headers, name_of, SecretStore,
  CreateSecretInput, set_options, apply_loki_secret_options, create_loki_secret_from_config,
  seed_value, seed_values, create_loki_secret_from_env,
}

abbrev pub same_field : Field → Field → Bool
same_field endpoint endpoint = true
same_field token token = true
same_field username username = true
same_field password password = true
same_field tenant tenant = true
same_field headers headers = true
same_field f g = false

-- The first value, or the second where there is none.
abbrev pub or_else {ℓ} : {A : Type ℓ} → Option A → Option A → Option A
or_else none o = o
or_else (some a) o = some a

-- The variable that seeds a field.
abbrev pub variable_of : Field → Option Bytes
variable_of endpoint = some (codes "LOKI_ADDR")
variable_of token = some (codes "LOKI_BEARER_TOKEN")
variable_of username = some (codes "LOKI_USERNAME")
variable_of password = some (codes "LOKI_PASSWORD")
variable_of tenant = some (codes "LOKI_ORG_ID")
variable_of headers = none

or_else-none {ℓ} : {A : Type ℓ} (o : Option A) → or_else o none ≡ o
or_else-none none = refl
or_else-none (some a) = refl

if_same {ℓ} : {A : Type ℓ} (b : Bool) (x : A) → (if b then x else x) ≡ x
if_same true x = refl
if_same false x = refl

module _ (store : SecretStore) where
  open store use {Value, SecretMap}

  -- What the code relies on in DuckDB's secrets: a new map is empty, an assignment sets the value under its key,
  -- and `TrySetValue` sets it where the user gave the option; no other field changes.
  pub record KeepsValues : Type 0 where
    pub empty : (f : Field) → store.get_value (name_of f) store.no_values ≡ none
    pub assigned :
        (f g : Field) (v : Value) (m : SecretMap)
        → store.get_value (name_of g) (store.set_value (name_of f) v m)
          ≡ (if same_field f g then some v else store.get_value (name_of g) m)
    pub tried :
        (f g : Field) (options : Bytes → Option Value) (m : SecretMap)
        → store.get_value (name_of g) (store.try_set_value (name_of f) options m) ≡ (
            if same_field f g
            then or_else (options (name_of f)) (store.get_value (name_of g) m)
            else store.get_value (name_of g) m)

  -- A text of the environment as a value.
  abbrev pub text_value : Option Bytes → Option Value
  text_value none = none
  text_value (some text) = some (store.value_of text)

  -- What the environment has for a field.
  abbrev pub seeded : (Bytes → Option Bytes) → Option Bytes → Option Value
  seeded env none = none
  seeded env (some variable) = text_value (env variable)

  module _ (keeps : KeepsValues) where
    get-set_options :
        (f : Field) (options : Bytes → Option Value) (m : SecretMap)
        → store.get_value (name_of f) (set_options store options m)
          ≡ or_else (options (name_of f)) (store.get_value (name_of f) m)
    unfolding set_options
    get-set_options endpoint options m = simp (keeps.tried) refl
    get-set_options token options m = simp (keeps.tried) refl
    get-set_options username options m = simp (keeps.tried) refl
    get-set_options password options m = simp (keeps.tried) refl
    get-set_options tenant options m = simp (keeps.tried) refl
    get-set_options headers options m = simp (keeps.tried) refl

    get-seed_value :
        (env : Bytes → Option Bytes) (variable : Bytes) (f g : Field) (m : SecretMap)
        → store.get_value (name_of g) (seed_value store env variable f m) ≡ (
            if same_field f g
            then or_else (seeded env (some variable)) (store.get_value (name_of g) m)
            else store.get_value (name_of g) m)
    unfolding seed_value
    get-seed_value env variable f g m = elim (Option-cases (env variable)) [
      | inl e ↦ rw (e, seed_value) (sym (if_same (same_field f g) _))
      | inr (text, e) ↦ rw (e, seed_value) (keeps.assigned f g (store.value_of text) m)
    ]

    get-seed_values :
        (f : Field) (env : Bytes → Option Bytes) (m : SecretMap)
        → store.get_value (name_of f) m ≡ none
        → store.get_value (name_of f) (seed_values store env m) ≡ seeded env (variable_of f)
    unfolding seed_values
    get-seed_values endpoint env m e = simp (get-seed_value, e) (or_else-none _)
    get-seed_values token env m e = simp (get-seed_value, e) (or_else-none _)
    get-seed_values username env m e = simp (get-seed_value, e) (or_else-none _)
    get-seed_values password env m e = simp (get-seed_value, e) (or_else-none _)
    get-seed_values tenant env m e = simp (get-seed_value, e) (or_else-none _)
    get-seed_values headers env m e = simp (get-seed_value, e) refl

    -- If the map of a secret keeps what is put into it, each of the six fields of a secret that `config` creates
    -- is the option that the user gave, or absent; a field that `env` creates is the option that the user gave,
    -- or, where there is none, the text of its environment variable where that is set (`headers` has none); and
    -- both providers redact the token and the password.
    pub create_loki_secret_from_env-fields :
        (f : Field) (env : Bytes → Option Bytes) (input : CreateSecretInput store)
        → (store.get_value (name_of f) (create_loki_secret_from_config store input).secret_map
            ≡ input.options (name_of f))
          × (store.get_value (name_of f) (create_loki_secret_from_env store env input).secret_map
              ≡ or_else (input.options (name_of f)) (seeded env (variable_of f)))
          × ((create_loki_secret_from_config store input).redact_keys
              ≡ name_of token ∷ name_of password ∷ [])
          × ((create_loki_secret_from_env store env input).redact_keys
              ≡ name_of token ∷ name_of password ∷ [])
    unfolding create_loki_secret_from_config create_loki_secret_from_env apply_loki_secret_options
    create_loki_secret_from_env-fields f env input =
        let o = input.options (name_of f) in
        (
          get-set_options f input.options store.no_values
              ∙ ap (or_else o) (keeps.empty f)
              ∙ or_else-none o,
          get-set_options f input.options (seed_values store env store.no_values)
              ∙ ap (or_else o) (get-seed_values f env store.no_values (keeps.empty f)),
          refl,
          refl,
        )
