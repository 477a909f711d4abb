-- ===== src/Connection.antt =====
-- src/loki/connection.cpp and src/include/loki/connection.hpp: which endpoint, credentials and headers a
-- call uses, and the bounds of its window.
pub mod Secrets
pub mod BestSecret
pub mod Resolve
pub mod TimeBound
pub mod Attach
pub mod Endpoint
use duckdb_loki.Base.{
  ◌==◌, Bool, true, false, not, ◌&&◌, Option, none, some, List, [], ◌∷◌, ◌++◌, reverse, drop_while,
  drop, Bytes, codes, str_eq, is_empty, if◌then◌else◌, Exception, binder_exception, Result, ok,
  throw, ◌>>=◌, ◌>>◌, throw_if, or_throw, invalid_argument, out_of_range,
}
use duckdb_loki.Base.Int.{ℤ, eq_ℤ}
use duckdb_loki.Auth.{AuthConfig}
use duckdb_loki.TimeBounds.{interval_to_nanos, try_add_nanos}

-- DuckDB's values, secrets and texts, as far as the code reads them.
pub record Duckdb : Type 1 where
  pub Value : Type 0
  pub is_null : Value → Bool
  pub to_string : Value → Bytes
  -- `ListValue::GetChildren` of a MAP, each entry with `StructValue::GetChildren`
  pub map_entries : Value → List (List Value)
  -- `GetValue<interval_t>` where the type is INTERVAL: months, days and microseconds
  pub interval_of : Value → Option (ℤ × ℤ × ℤ)
  -- the cast to TIMESTAMP, its text, and `TryGetEpochNanoSeconds` where it is finite
  pub cast_to_timestamp : Value → Value
  pub epoch_nanoseconds : Value → Option ℤ
  pub Secret : Type 0
  pub secret_type : Secret → Bytes
  pub secret_name : Secret → Bytes
  pub is_key_value : Secret → Bool
  pub try_get_value : Secret → Bytes → Option Value
  pub match_score : Secret → Bytes → ℤ
  -- `GetSecretByName`, `LookupSecret` for the type `loki`, and `AllSecrets`
  pub secret_by_name : Bytes → Option Secret
  pub lookup_secret : Bytes → Option Secret
  pub all_secrets : List Secret
  -- `StringUtil::Lower`
  pub lower : Bytes → Bytes

-- What is assembled: the endpoint, the credentials, and the headers.
pub record Assembly : Type 0 where
  pub endpoint : Bytes
  pub auth : AuthConfig
  pub headers : List (Bytes × Bytes)

unfoldable pub starts_with : Bytes → Bytes → Bool
starts_with [] s = true
starts_with (c ∷ p) [] = false
starts_with (c ∷ p) (d ∷ s) = (c == d) && starts_with p s

-- The loop that pops the slashes off the end.
unfoldable pub trim_slashes : Bytes → Bytes
trim_slashes endpoint = reverse (drop_while (λ c. c == b'/') (reverse endpoint))

abbrev pub null_header : Bytes → Exception
null_header name = binder_exception (
    codes "loki: header '"
    ++ (name ++ codes "' has a NULL value; drop the entry or pass an empty string"))

abbrev pub wrong_type : Bytes → Bytes → Bytes → Exception
wrong_type fn name type_name = binder_exception (
    fn
    ++ (codes ": secret '"
        ++ (name
            ++ (codes "' has type '"
                ++ (type_name
                    ++ codes
                        "', expected type 'loki' — create one with CREATE SECRET (TYPE loki, ENDPOINT ...)")))))

abbrev pub not_key_value : Bytes → Bytes → Exception
not_key_value fn name =
    binder_exception (fn ++ (codes ": secret '" ++ (name ++ codes "' is not a key-value secret")))

abbrev pub no_secret : Bytes → Bytes → Exception
no_secret fn name =
    binder_exception (fn ++ (codes ": no secret named '" ++ (name ++ codes "' found")))

abbrev pub bound_too_far : Exception
bound_too_far = binder_exception (
    codes
      "loki: INTERVAL time bound is too far from now to express as a nanosecond timestamp; pass an absolute TIMESTAMP instead")

abbrev pub bound_out_of_range : Bytes → Exception
bound_out_of_range text = binder_exception (
    codes "loki: time bound '"
    ++ (text
        ++ codes "' is outside the range representable in nanoseconds (1677-09-21 .. 2262-04-11)"))

-- `e.what()`
unfoldable pub what : Exception → Bytes
what (Exception.invalid_argument m) = m
what (Exception.out_of_range m) = m
what (Exception.runtime_error m) = m
what (Exception.binder_exception m) = m
what (Exception.io_exception m) = m
what (Exception.catalog_exception m) = m
what (Exception.invalid_input_exception m) = m
what (Exception.not_implemented_exception m) = m

-- `catch (const std::exception &e) { throw BinderException(e.what()); }`
unfoldable pub as_binder {ℓ} : {A : Type ℓ} → Result A → Result A
unfolding what
as_binder (ok a) = ok a
as_binder (throw e) = throw (binder_exception (what e))

module _ (db : Duckdb) where
  open db use {Value, Secret}

  unfoldable pub append_header_entries :
      List (List Value) → List (Bytes × Bytes) → Result (List (Bytes × Bytes))
  append_header_entries [] out = ok out
  append_header_entries ((k ∷ (v ∷ [])) ∷ rest) out =
      let skipped = append_header_entries rest out in
      let added = append_header_entries rest (out ++ (db.to_string k, db.to_string v) ∷ []) in
      if db.is_null k
      then skipped
      else if db.is_null v
      then throw (null_header (db.to_string k))
      else added
  append_header_entries (entry ∷ rest) out = append_header_entries rest out

  unfoldable pub append_headers_from_map :
      Value → List (Bytes × Bytes) → Result (List (Bytes × Bytes))
  unfolding append_header_entries
  append_headers_from_map map_value out =
      if db.is_null map_value then ok out else append_header_entries (db.map_entries map_value) out

  unfoldable pub require_loki_secret : Secret → Bytes → Bytes → Result Secret
  require_loki_secret secret name fn = do
    throw_if (not (str_eq (db.secret_type secret) (codes "loki")))
        (wrong_type fn name (db.secret_type secret))
    throw_if (not (db.is_key_value secret)) (not_key_value fn name)
    ok secret

  -- The text of a value that is there and not NULL, or what was there before.
  unfoldable pub text_or : Option Value → Bytes → Bytes
  text_or none before = before
  text_or (some v) before = if db.is_null v then before else db.to_string v
