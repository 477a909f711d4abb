-- ===== src/Auth/Headers.antt =====
-- `BuildAuthHeaders` of src/loki/auth.cpp against a server that reads the `Authorization` header.
use duckdb_loki.Base.{
  refl, Bool, str_eq, ◌≡◌, false, ◌&&◌, Option, none, some, List, [], ◌∷◌, ◌++◌, arith, ◌==◌,
  if◌then◌else◌, Bytes, codes, All, is_empty,
}
use duckdb_loki.Types.{find}
use duckdb_loki.Base.Find.{Lacks, split_first, split_first-append}
use duckdb_loki.Auth.{AuthConfig, base64_encode, build_auth_headers, authorization_header}
use duckdb_loki.Auth.Base64.{IsByte, base64_decode, base64_decode-encode}

pub data Credentials : Type 0 where
  bearer : Bytes → Credentials
  basic : Bytes → Bytes → Credentials

-- The text behind a prefix.
abbrev strip_prefix : Bytes → Bytes → Option Bytes
strip_prefix [] s = some s
strip_prefix (c ∷ p) [] = none
strip_prefix (c ∷ p) (d ∷ s) = let rest = strip_prefix p s in if c == d then rest else none

abbrev read_basic : Bytes → Option Credentials
read_basic text = elim (split_first b':' (base64_decode text)) [
  | none ↦ none
  | some (username, password) ↦ some (basic username password)
]

-- The value of an `Authorization` header: a token, or a user and a password in Base64, which the
-- first colon parts.
pub read_authorization : Bytes → Option Credentials
read_authorization value = elim (strip_prefix (codes "Bearer ") value) [
  | some token ↦ some (bearer token)
  | none ↦ elim (strip_prefix (codes "Basic ") value) [ none ↦ none | some text ↦ read_basic text ]
]

pub sent_credentials : List (Bytes × Bytes) → Option Credentials
unfolding read_authorization
sent_credentials headers = elim (find (codes "Authorization") headers) [
  | none ↦ none
  | some value ↦ read_authorization value
]

abbrev pub HasCredentials : AuthConfig → Type 0
HasCredentials config =
    (is_empty config.token && is_empty config.username && is_empty config.password) ≡ false

-- A token goes before a user and a password.
abbrev pub chosen_credentials : AuthConfig → Credentials
chosen_credentials config =
    if is_empty config.token then basic config.username config.password else bearer config.token

read_basic-encode :
    (username password : Bytes)
    → Lacks b':' username
    → All IsByte (username ++ b':' ∷ password)
    → read_basic (base64_encode (username ++ b':' ∷ password)) ≡ some (basic username password)
read_basic-encode username password hu hb = ground (
  arith,
  base64_decode-encode (username ++ b':' ∷ password) hb,
  split_first-append b':' username password hu,
)

abbrev some_empty : Bytes → Bytes → Bytes → Bool
some_empty token username password = is_empty token && is_empty username && is_empty password

sent-authorization_header :
    (token username password : Bytes) (headers : List (Bytes × Bytes))
    → some_empty token username password ≡ false
    → Lacks b':' username
    → All IsByte (username ++ b':' ∷ password)
    → sent_credentials (authorization_header token username password ++ headers)
      ≡ some (if is_empty token then basic username password else bearer token)
unfolding sent_credentials authorization_header find str_eq
sent-authorization_header (c ∷ token) username password headers h hu hb = refl
sent-authorization_header [] (c ∷ username) password headers h hu hb =
    read_basic-encode (c ∷ username) password hu hb
sent-authorization_header [] [] (c ∷ password) headers h hu hb =
    read_basic-encode [] (c ∷ password) hu hb
sent-authorization_header [] [] [] headers h hu hb = cc

-- A server reads the configured credentials back from the headers, whatever the tenant and the other
-- headers are: the token where there is one, and otherwise the user and the password, if the user's
-- name holds no colon.
pub sent_credentials-build_auth_headers :
    (config : AuthConfig)
    → HasCredentials config
    → Lacks b':' config.username
    → All IsByte (config.username ++ b':' ∷ config.password)
    → sent_credentials (build_auth_headers config) ≡ some (chosen_credentials config)
unfolding build_auth_headers
sent_credentials-build_auth_headers config h hu hb =
    sent-authorization_header config.token config.username config.password _ h hu hb
