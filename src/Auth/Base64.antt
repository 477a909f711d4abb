-- ===== src/Auth/Base64.antt =====
-- `Base64Encode` of src/loki/auth.cpp against a decoder, and its length.
use duckdb_loki.Base.{
  ℕ, zero, suc, ◌+◌, ◌-◌, ◌*◌, ◌/◌, ◌%◌, ◌^◌, ◌<◌, ◌≡◌, refl, Bool, true, false, ◌&&◌, [], ◌∷◌,
  arith, ltb, leb, ◌==◌, ==_iff, if◌then◌else◌, Bytes, All, length,
}
use duckdb_loki.Auth.{alphabet_char, sextet, triple_of, base64_encode}

abbrev pub IsByte : ℕ → Type 0
IsByte c = c < 256

-- The number that a character of the alphabet stands for.
abbrev pub digit : ℕ → ℕ
digit c =
    if leb b'A' c && leb c b'Z'
    then c - b'A'
    else if leb b'a' c && leb c b'z'
    then c - b'a' + 26
    else if leb b'0' c && leb c b'9'
    then c - b'0' + 52
    else if c == b'+'
    then 62
    else 63

-- The bytes that groups of four characters stand for; one or two `=` close a group that is short.
pub base64_decode : Bytes → Bytes
base64_decode (a ∷ b ∷ c ∷ d ∷ s) =
    let n = digit a * 2 ^ 18 + digit b * 2 ^ 12 + digit c * 2 ^ 6 + digit d in
    let whole : Bytes = n / 2 ^ 16 ∷ n / 2 ^ 8 % 256 ∷ n % 256 ∷ base64_decode s in
    if c == b'='
    then ((digit a * 2 ^ 2 + digit b / 2 ^ 4) ∷ [])
    else if d == b'='
    then ((digit a * 2 ^ 2 + digit b / 2 ^ 4) ∷ (digit b % 16 * 2 ^ 4 + digit c / 2 ^ 2) ∷ [])
    else whole
base64_decode _ = []

-- A test that passes for every index under a bound, by trying them all.
passes_to : (ℕ → Bool) → ℕ → Bool
passes_to test zero = true
passes_to test (suc bound) = passes_to test bound && test bound

try_index :
    (test : ℕ → Bool) (bound index : ℕ)
    → index < bound
    → passes_to test bound ≡ true
    → test index ≡ true
unfolding passes_to
try_index test zero index small h = absurd (omega arith)
try_index test (suc bound) index small h = ground (arith, try_index test bound index)

digit_table : passes_to (λ i. digit (alphabet_char i) == i) 64 ≡ true
unfolding passes_to alphabet_char
digit_table = refl

equals_table :
    passes_to (λ i. ltb 0 (alphabet_char i) && (if alphabet_char i == b'=' then false else true)) 64
    ≡ true
unfolding passes_to alphabet_char
equals_table = refl

digit-alphabet_char : (i : ℕ) → i < 64 → digit (alphabet_char i) ≡ i
digit-alphabet_char i h = (==_iff _ i).0 (try_index _ 64 i h digit_table)

alphabet_char_ne_equals : (i : ℕ) → i < 64 → (alphabet_char i == b'=') ≡ false
alphabet_char_ne_equals i h = ground (
  arith,
  try_index (λ i. ltb 0 (alphabet_char i) && (if alphabet_char i == b'=' then false else true)) 64 i
      h equals_table,
)

digit-sextet : (triple shift : ℕ) → digit (sextet triple shift) ≡ triple / 2 ^ shift % 64
unfolding sextet
digit-sextet triple shift = digit-alphabet_char (triple / 2 ^ shift % 64) (omega arith)

sextet_ne_equals : (triple shift : ℕ) → (sextet triple shift == b'=') ≡ false
unfolding sextet
sextet_ne_equals triple shift = alphabet_char_ne_equals (triple / 2 ^ shift % 64) (omega arith)

-- Any bytes are decoded from their Base64 text.
pub base64_decode-encode : (s : Bytes) → All IsByte s → base64_decode (base64_encode s) ≡ s
unfolding base64_encode base64_decode
base64_decode-encode [] h = refl
base64_decode-encode (a ∷ []) (ha, _) =
    let t = triple_of a 0 0 in ground (arith, digit-sextet t 18, digit-sextet t 12)
base64_decode-encode (a ∷ b ∷ []) (ha, (hb, _)) =
    let t = triple_of a b 0 in
    ground (arith, digit-sextet t 18, digit-sextet t 12, digit-sextet t 6, sextet_ne_equals t 6)
base64_decode-encode (a ∷ b ∷ c ∷ s) (ha, (hb, (hc, h))) =
    let t = triple_of a b c in
    ground (
      arith,
      digit-sextet t 18,
      digit-sextet t 12,
      digit-sextet t 6,
      digit-sextet t 0,
      sextet_ne_equals t 6,
      sextet_ne_equals t 0,
      base64_decode-encode s h,
    )

-- The text has four characters for every three bytes, and for the one or two that are left.
pub length-base64_encode : (s : Bytes) → length (base64_encode s) ≡ (length s + 2) / 3 * 4
unfolding base64_encode
length-base64_encode [] = refl
length-base64_encode (a ∷ []) = refl
length-base64_encode (a ∷ b ∷ []) = refl
length-base64_encode (a ∷ b ∷ c ∷ s) = omega (arith, length-base64_encode s)
