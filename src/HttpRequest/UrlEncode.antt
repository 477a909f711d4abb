-- ===== src/HttpRequest/UrlEncode.antt =====
-- `UrlEncode` of src/loki/http_request.cpp against a decoder.
use duckdb_loki.Base.{
  ℕ, ◌/◌, ◌%◌, Bool-cases, inl, inr, ◌+◌, ◌-◌, ◌*◌, ◌<◌, ◌≡◌, refl, Bool, true, false, ◌||◌, [],
  ◌∷◌, ◌++◌, arith, Bytes, All, All-append, leb, ◌==◌, if◌then◌else◌,
}
use duckdb_loki.HttpRequest.{is_unreserved, url_encode_char, hex_digit, url_encode}

abbrev pub IsByte : ℕ → Type 0
IsByte c = c < 256

abbrev pub hex_value : ℕ → ℕ
hex_value d = if leb d b'9' then d - b'0' else d + 10 - b'A'

-- `%` and two hexadecimal digits stand for a byte, and any other byte for itself.
pub url_decode : Bytes → Bytes
url_decode (c ∷ x ∷ y ∷ s) =
    let escaped : Bytes = (hex_value x * 16 + hex_value y) ∷ url_decode s in
    let plain : Bytes = c ∷ url_decode (x ∷ y ∷ s) in if c == b'%' then escaped else plain
url_decode s = s

hex_value-hex_digit : (d : ℕ) → d < 16 → hex_value (hex_digit d) ≡ d
unfolding hex_digit
hex_value-hex_digit d h = ground arith

unreserved_ne_percent : (c : ℕ) → is_unreserved c ≡ true → (c == b'%') ≡ false
unfolding is_unreserved
unreserved_ne_percent c h = ground arith

url_decode_plain : (c : ℕ) (s : Bytes) → (c == b'%') ≡ false → url_decode (c ∷ s) ≡ c ∷ url_decode s
unfolding url_decode
url_decode_plain c [] h = refl
url_decode_plain c (x ∷ []) h = refl
url_decode_plain c (x ∷ y ∷ s) h = rw h

url_decode_escaped :
    (c : ℕ) (s : Bytes)
    → IsByte c
    → url_decode (b'%' ∷ hex_digit (c / 16) ∷ hex_digit (c % 16) ∷ s) ≡ c ∷ url_decode s
unfolding url_decode
url_decode_escaped c s h =
    ground (arith, hex_value-hex_digit (c / 16), hex_value-hex_digit (c % 16))

url_decode-url_encode_char :
    (c : ℕ) (s : Bytes) → IsByte c → url_decode (url_encode_char c ++ s) ≡ c ∷ url_decode s
unfolding url_encode_char
url_decode-url_encode_char c s h = elim (Bool-cases (is_unreserved c)) [
  | inl plain ↦ rw plain (url_decode_plain c s (unreserved_ne_percent c plain))
  | inr escaped ↦ rw escaped (url_decode_escaped c s h)
]

-- Any bytes are decoded from their percent-encoded text.
pub url_decode-url_encode : (s : Bytes) → All IsByte s → url_decode (url_encode s) ≡ s
unfolding url_encode
url_decode-url_encode [] h = unfold url_decode in refl
url_decode-url_encode (c ∷ s) (hc, h) =
    rw (url_decode-url_encode_char c (url_encode s) hc, url_decode-url_encode s h)

-- Letters, digits, the four marks and `%`.
abbrev pub is_url_safe : ℕ → Bool
is_url_safe c = is_unreserved c || (c == b'%')

hex_digit-safe : (d : ℕ) → d < 16 → is_url_safe (hex_digit d) ≡ true
unfolding hex_digit is_unreserved
hex_digit-safe d h = ground arith

url_encode_char-safe : (c : ℕ) → IsByte c → All (λ d. is_url_safe d ≡ true) (url_encode_char c)
unfolding url_encode_char
url_encode_char-safe c h = ground (arith, hex_digit-safe (c / 16), hex_digit-safe (c % 16))

-- Percent-encoded text is made of letters, digits, the four marks and `%`, so it holds none of the bytes
-- that part a URL.
pub url_encode-safe : (s : Bytes) → All IsByte s → All (λ c. is_url_safe c ≡ true) (url_encode s)
unfolding url_encode
url_encode-safe [] h = tt
url_encode-safe (c ∷ s) (hc, h) =
    All-append _ (url_encode_char c) (url_encode s) (url_encode_char-safe c hc)
      (url_encode-safe s h)
