-- ===== src/Parse/Snippet.antt =====
-- `ResponseSnippet` of src/loki/parse.cpp: short and printable, and faithful where the body is.
use duckdb_loki.Base.{
  ℕ, false, zero, suc, ◌+◌, ◌≤◌, ◌<◌, ◌≡◌, refl, ap, [], ◌∷◌, arith, Bytes, All, All-append, take,
  length, length-append, map, ltb, if◌then◌else◌, Bool-cases, inl, inr, codes, append-nil,
  length-take,
}
use duckdb_loki.Parse.{printable, response_snippet}

abbrev pub IsPrintable : ℕ → Type 0
IsPrintable c = (0x20 ≤ c) × (c < 0x7f)

printable-IsPrintable : (c : ℕ) → IsPrintable (printable c)
unfolding printable
printable-IsPrintable c = ground arith

map-printable : (s : Bytes) → All IsPrintable (map printable s)
map-printable [] = tt
map-printable (c ∷ s) = (printable-IsPrintable c, map-printable s)

length-map : (s : Bytes) → length (map printable s) ≡ length s
length-map [] = refl
length-map (c ∷ s) = ap suc (length-map s)

length-dots :
    (max_bytes : ℕ) (body : Bytes)
    → length (if ltb max_bytes (length body) then codes "..." else []) ≤ 3
length-dots max_bytes body = ground arith

dots-IsPrintable :
    (max_bytes : ℕ) (body : Bytes)
    → All IsPrintable (if ltb max_bytes (length body) then codes "..." else [])
dots-IsPrintable max_bytes body = elim (Bool-cases (ltb max_bytes (length body))) [
  | inl cut ↦ rw cut (omega arith)
  | inr whole ↦ rw whole tt
]

map-printable_self : (s : Bytes) → All IsPrintable s → map printable s ≡ s
unfolding printable
map-printable_self [] h = refl
map-printable_self (c ∷ s) (hc, h) = ground (arith, map-printable_self s h)

take_short : (n : ℕ) (s : Bytes) → length s ≤ n → take n s ≡ s
take_short zero [] h = refl
take_short zero (c ∷ s) h = absurd (omega arith)
take_short (suc n) [] h = refl
take_short (suc n) (c ∷ s) h = ap (λ t. c ∷ t) (take_short n s (omega arith))

-- A snippet of any body has at most three bytes more than its limit, and every byte is printable ASCII.
pub response_snippet_bounds :
    (body : Bytes) (max_bytes : ℕ)
    → (length (response_snippet body max_bytes) ≤ max_bytes + 3)
      × All IsPrintable (response_snippet body max_bytes)
unfolding response_snippet
response_snippet_bounds body max_bytes =
    let shown = map printable (take max_bytes body) in
    let dots = if ltb max_bytes (length body) then codes "..." else [] in
    (
      omega (
        arith,
        length-append shown dots,
        length-map (take max_bytes body),
        length-take max_bytes body,
        length-dots max_bytes body,
      ),
      All-append IsPrintable shown dots (map-printable (take max_bytes body))
          (dots-IsPrintable max_bytes body),
    )

not_cut : (a b : ℕ) → b ≤ a → ltb a b ≡ false
not_cut a b h = ground arith

-- A printable body within the limit is its own snippet.
pub response_snippet_short :
    (body : Bytes) (max_bytes : ℕ)
    → length body ≤ max_bytes
    → All IsPrintable body
    → response_snippet body max_bytes ≡ body
unfolding response_snippet
response_snippet_short body max_bytes h p =
    rw (take_short max_bytes body h, map-printable_self body p, not_cut max_bytes (length body) h)
      (append-nil body)
