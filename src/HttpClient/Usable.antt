-- ===== src/HttpClient/Usable.antt =====
-- `EndpointProblem` of src/loki/http_client.cpp: exactly which endpoints it lets through.
use duckdb_loki.Base.{
  ℕ, ◌≡◌, ◌≢◌, ◌↔◌, ◌⊎◌, Bool-cases, refl, ap, ◌∙◌, inl, inr, true, false, not, none, some, [], ◌∷◌,
  ◌++◌, arith, Bytes, codes, All, ◌==◌, take_while,
}
use duckdb_loki.Base.Trim.{Passes, take_while-append_none, take_while_stop}
use duckdb_loki.Base.Find.{Lacks, split_first, split_last, split_last-none, split_last-append}
use duckdb_loki.HttpClient.{
  after_scheme, ends_authority, is_digit, all_digits, port_problem, authority_problem,
  endpoint_problem,
}
use duckdb_loki.HttpClient.Endpoint.{
  HasPort, HasNoPort, StartsPath, LacksEnd, IsUsable, endpoint_problem-IsUsable,
}

after_scheme-first :
    (scheme rest : Bytes)
    → LacksEnd (scheme ++ codes ":/")
    → after_scheme (scheme ++ (codes "://" ++ rest)) ≡ some rest
unfolding after_scheme
after_scheme-first [] rest h = refl
after_scheme-first (a ∷ []) rest h = ground arith
after_scheme-first (a ∷ b ∷ []) rest (_, h) = ground (arith, after_scheme-first (b ∷ []) rest h)
after_scheme-first (a ∷ b ∷ c ∷ s) rest (n, h) = rw n (after_scheme-first (b ∷ c ∷ s) rest h)

authority_of :
    (authority tail : Bytes)
    → Passes (λ c. not (ends_authority c)) authority
    → StartsPath tail
    → take_while (λ c. not (ends_authority c)) (authority ++ tail) ≡ authority
authority_of authority [] h k =
    take_while-append_none (λ c. not (ends_authority c)) authority [] h tt
authority_of authority (c ∷ tail) h k =
    take_while_stop (λ c. not (ends_authority c)) authority tail c h (ground arith)

split_first-found :
    (d : ℕ) (s t : Bytes) → (r : Bytes × Bytes) × (split_first d (s ++ d ∷ t) ≡ some r)
unfolding split_first
split_first-found d [] t = (([], t), ground arith)
split_first-found d (c ∷ s) t =
    let ((before, after), e) = split_first-found d s t in
    elim (Bool-cases (c == d)) [
      | inl here ↦ (([], s ++ d ∷ t), rw (here, split_first) refl)
      | inr further ↦ ((c ∷ before, after), rw (further, e, split_first) refl)
    ]

all_digits-true : (s : Bytes) → All (λ c. is_digit c ≡ true) s → all_digits s ≡ true
unfolding all_digits
all_digits-true [] h = refl
all_digits-true (c ∷ s) (hc, h) = ground (arith, all_digits-true s h)

digits-Lacks : (d : ℕ) (s : Bytes) → is_digit d ≡ false → All (λ c. is_digit c ≡ true) s → Lacks d s
digits-Lacks d [] n h = tt
digits-Lacks d (c ∷ s) n (hc, h) = (ground arith, digits-Lacks d s n h)

split_first-Lacks : (d : ℕ) (s : Bytes) → Lacks d s → split_first d s ≡ none
unfolding split_first
split_first-Lacks d [] h = refl
split_first-Lacks d (c ∷ s) (hc, h) = ground (arith, split_first-Lacks d s h)

port_problem_fine :
    (port : Bytes) → port ≢ [] → All (λ c. is_digit c ≡ true) port → port_problem port ≡ []
unfolding port_problem
port_problem_fine [] n h = absurd (n refl)
port_problem_fine (c ∷ port) n h = rw (all_digits-true (c ∷ port) h) refl

port_fine :
    (authority host port : Bytes)
    → authority ≢ []
    → split_last b':' authority ≡ some (host, port)
    → split_first b']' port ≡ none
    → port_problem port ≡ []
    → authority_problem authority ≡ []
unfolding authority_problem
port_fine [] host port n e k h = absurd (n refl)
port_fine (c ∷ a) host port n e k h = rw (e, k) h

bracket_fine :
    (authority host port : Bytes) (r : Bytes × Bytes)
    → authority ≢ []
    → split_last b':' authority ≡ some (host, port)
    → split_first b']' port ≡ some r
    → authority_problem authority ≡ []
unfolding authority_problem
bracket_fine [] host port r n e k = absurd (n refl)
bracket_fine (c ∷ a) host port r n e k = rw (e, k) refl

no_colon_fine :
    (authority : Bytes) → authority ≢ [] → Lacks b':' authority → authority_problem authority ≡ []
unfolding authority_problem
no_colon_fine [] n h = absurd (n refl)
no_colon_fine (c ∷ a) n h = rw (split_last-none b':' (c ∷ a) h) refl

authority_problem_fine :
    (authority : Bytes)
    → authority ≢ []
    → HasNoPort authority ⊎ HasPort authority
    → authority_problem authority ≡ []
authority_problem_fine authority n (inl (inl h)) = no_colon_fine authority n h
authority_problem_fine authority n (inl (inr (host, inside, tail, e, h))) =
    let (r, found) = split_first-found b']' inside tail in
    bracket_fine authority host (inside ++ b']' ∷ tail) r n
      (ap (split_last b':') e ∙ split_last-append b':' host (inside ++ b']' ∷ tail) h) found
authority_problem_fine authority n (inr (host, port, e, some_digits, digits)) =
    port_fine authority host port n
      (ap (split_last b':') e
        ∙ split_last-append b':' host port (digits-Lacks b':' port refl digits))
      (split_first-Lacks b']' port (digits-Lacks b']' port refl digits))
      (port_problem_fine port some_digits digits)

endpoint_problem_fine :
    (endpoint rest : Bytes)
    → after_scheme endpoint ≡ some rest
    → authority_problem (take_while (λ c. not (ends_authority c)) rest) ≡ []
    → endpoint_problem endpoint ≡ []
unfolding endpoint_problem
endpoint_problem_fine endpoint rest e h = rw (e, endpoint_problem) h

-- An endpoint passes the check exactly where, behind its first `://`, there is an authority that is not empty and
-- ends at the first `/`, `?` or `#` or with the endpoint, and which has no colon, or a closing bracket behind its last
-- colon, or digits only, one at least, behind its last colon. What stands before `://` and what stands before the
-- last colon may be empty: `://:80` passes.
pub endpoint_problem_iff : (endpoint : Bytes) → (endpoint_problem endpoint ≡ []) ↔ IsUsable endpoint
endpoint_problem_iff endpoint = (
  endpoint_problem-IsUsable endpoint,
  λ (scheme, authority, tail, e, first, n, goes_on, ends, port).
      endpoint_problem_fine endpoint (authority ++ tail)
        (ap after_scheme e ∙ after_scheme-first scheme (authority ++ tail) first)
        (ap authority_problem (authority_of authority tail goes_on ends)
          ∙ authority_problem_fine authority n port),
)
