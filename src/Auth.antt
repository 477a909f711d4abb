-- ===== src/Auth.antt =====
-- src/loki/auth.cpp: Base64 and the HTTP headers that carry the credentials.
pub mod Base64
pub mod Headers
use duckdb_loki.Base.{
  ℕ, zero, suc, ◌+◌, ◌*◌, ◌/◌, ◌%◌, ◌^◌, Bool, not, ◌||◌, List, [], ◌∷◌, ◌++◌, Bytes, codes,
  is_empty, if◌then◌else◌,
}

pub record AuthConfig : Type 0 where
  pub token : Bytes
  pub username : Bytes
  pub password : Bytes
  pub tenant : Bytes
  pub extra_headers : List (Bytes × Bytes)

alphabet : Bytes
alphabet = codes "ABCDEFGHIJKLMNOPQRSTUVWXYZabcdefghijklmnopqrstuvwxyz0123456789+/"

at : Bytes → ℕ → ℕ
at [] i = 0
at (c ∷ s) zero = c
at (c ∷ s) (suc i) = at s i

-- `kAlphabet[i]`
alphabet_char : ℕ → ℕ
unfolding alphabet at
alphabet_char i = at alphabet i

-- `kAlphabet[(triple >> shift) & 0x3F]`
sextet : ℕ → ℕ → ℕ
unfolding alphabet_char
sextet triple shift = alphabet_char (triple / 2 ^ shift % 64)

-- Three bytes in one number; they take up bits of their own, so `|` adds them.
abbrev triple_of : ℕ → ℕ → ℕ → ℕ
triple_of a b c = a * 2 ^ 16 + b * 2 ^ 8 + c

pub base64_encode : Bytes → Bytes
unfolding sextet
base64_encode [] = []
base64_encode (a ∷ []) =
    let triple = triple_of a 0 0 in sextet triple 18 ∷ sextet triple 12 ∷ b'=' ∷ b'=' ∷ []
base64_encode (a ∷ b ∷ []) =
    let triple = triple_of a b 0 in
    sextet triple 18 ∷ sextet triple 12 ∷ sextet triple 6 ∷ b'=' ∷ []
base64_encode (a ∷ b ∷ c ∷ s) =
    let triple = triple_of a b c in
    sextet triple 18 ∷ sextet triple 12 ∷ sextet triple 6 ∷ sextet triple 0 ∷ base64_encode s

-- The `Authorization` header, where the configuration has credentials.
authorization_header : Bytes → Bytes → Bytes → List (Bytes × Bytes)
authorization_header token username password =
    if not (is_empty token)
    then (codes "Authorization", codes "Bearer " ++ token) ∷ []
    else if not (is_empty username) || not (is_empty password)
    then (codes "Authorization", codes "Basic " ++ base64_encode (username ++ (b':' ∷ password)))
      ∷ []
    else []

pub build_auth_headers : AuthConfig → List (Bytes × Bytes)
unfolding authorization_header
build_auth_headers config =
    authorization_header config.token config.username config.password
    ++ ((if not (is_empty config.tenant) then (codes "X-Scope-OrgID", config.tenant) ∷ [] else [])
        ++ config.extra_headers)
