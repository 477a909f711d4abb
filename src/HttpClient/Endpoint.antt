-- ===== src/HttpClient/Endpoint.antt =====
-- `EndpointProblem` and `HttpGet` of src/loki/http_client.cpp: which endpoints reach the HTTP library.
use duckdb_loki.Base.{
  ℕ, ◌≡◌, ◌≢◌, refl, ap, ◌∙◌, ◌⊎◌, inl, inr, Bool, true, false, not, ◌&&◌, none, some, List, [],
  ◌∷◌, ◌++◌, arith, Bytes, codes, All, ◌==◌, take_while, drop_while, take_while-append-drop_while,
  Bool-cases, Option-cases, sym,
}
use duckdb_loki.Base.Trim.{Passes, take_while-Passes}
use duckdb_loki.Base.Find.{
  Lacks, split_first, split_last, split_first-some, split_last-some, split_last-none-Lacks,
}
use duckdb_loki.HttpClient.{
  after_scheme, ends_authority, is_digit, all_digits, port_problem, authority_problem,
  endpoint_problem, Outcome, crashed, failed, answered, Call, http_get, response_of, call_of,
  no_port, missing_host, missing_scheme, non_numeric_port,
}

abbrev pub HasPort : Bytes → Type 0
HasPort authority =
    (host : Bytes) × (port : Bytes) × (authority ≡ host ++ b':' ∷ port)
    × (port ≢ [])
    × All (λ c. is_digit c ≡ true) port

-- No colon stands behind the last bracket.
abbrev pub HasNoPort : Bytes → Type 0
HasNoPort authority =
    Lacks b':' authority
    ⊎ ((host : Bytes) × (inside : Bytes) × (tail : Bytes) × (authority
          ≡ host ++ b':' ∷ (inside ++ b']' ∷ tail))
        × Lacks b':' (inside ++ b']' ∷ tail))

-- What may follow a host and a port.
abbrev pub StartsPath : Bytes → Type 0
StartsPath [] = Unit
StartsPath (c ∷ s) = ends_authority c ≡ true

-- No `://` stands in a text.
abbrev pub LacksEnd : Bytes → Type 0
LacksEnd (a ∷ b ∷ c ∷ s) =
    (((a == b':') && (b == b'/') && (c == b'/')) ≡ false) × LacksEnd (b ∷ c ∷ s)
LacksEnd s = Unit

-- Behind the first `://` stands an authority that is not empty, up to a path, and in it a number where a port
-- may stand. The text before `://`, and the host before a port, may be empty.
abbrev pub IsUsable : Bytes → Type 0
IsUsable endpoint =
    (scheme : Bytes) × (authority : Bytes) × (tail : Bytes) × (endpoint
      ≡ scheme ++ (codes "://" ++ (authority ++ tail)))
    × LacksEnd (scheme ++ codes ":/")
    × (authority ≢ [])
    × Passes (λ c. not (ends_authority c)) authority
    × StartsPath tail
    × (HasNoPort authority ⊎ HasPort authority)

-- One character more in front of the scheme.
LacksEnd-more :
    (a b c : ℕ) (s scheme rest : Bytes)
    → (((a == b':') && (b == b'/') && (c == b'/')) ≡ false)
    → b ∷ c ∷ s ≡ scheme ++ (codes "://" ++ rest)
    → LacksEnd (scheme ++ codes ":/")
    → LacksEnd (a ∷ (scheme ++ codes ":/"))
LacksEnd-more a b c s [] rest n e h = (ground arith, tt)
LacksEnd-more a b c s (x ∷ []) rest n e h = (ground arith, h)
LacksEnd-more a b c s (x ∷ y ∷ scheme) rest n e h = (ground arith, h)

after_scheme-some :
    (s rest : Bytes)
    → after_scheme s ≡ some rest
    → (scheme : Bytes) × (s ≡ scheme ++ (codes "://" ++ rest)) × LacksEnd (scheme ++ codes ":/")
unfolding after_scheme
after_scheme-some [] rest h = cc
after_scheme-some (a ∷ []) rest h = cc
after_scheme-some (a ∷ b ∷ []) rest h = cc
after_scheme-some (a ∷ b ∷ c ∷ s) rest h =
    elim (Bool-cases ((a == b':') && (b == b'/') && (c == b'/'))) [
      | inl here ↦ ([], ground arith, tt)
      | inr further ↦
          let (scheme, e, first) = after_scheme-some (b ∷ c ∷ s) rest (rw further at h) in
          (a ∷ scheme, ap (λ t. a ∷ t) e, LacksEnd-more a b c s scheme rest further e first)
    ]

all_digits-All : (s : Bytes) → all_digits s ≡ true → All (λ c. is_digit c ≡ true) s
unfolding all_digits
all_digits-All [] h = tt
all_digits-All (c ∷ s) h = ground (arith, all_digits-All s)

port_problem_none :
    (port : Bytes) → port_problem port ≡ [] → (port ≢ []) × All (λ c. is_digit c ≡ true) port
unfolding port_problem no_port non_numeric_port
port_problem_none [] h = cc
port_problem_none (c ∷ port) h = (cc, all_digits-All (c ∷ port) (ground arith))

port_checked :
    (authority host port : Bytes)
    → authority_problem authority ≡ []
    → split_last b':' authority ≡ some (host, port)
    → split_first b']' port ≡ none
    → port_problem port ≡ []
unfolding authority_problem missing_host
port_checked [] host port h e k = cc
port_checked (c ∷ a) host port h e k = ground arith

authority_nonempty : (authority : Bytes) → authority_problem authority ≡ [] → authority ≢ []
unfolding authority_problem missing_host
authority_nonempty [] h = cc
authority_nonempty (c ∷ a) h = cc

authority_problem_none :
    (authority : Bytes) → authority_problem authority ≡ [] → HasNoPort authority ⊎ HasPort authority
authority_problem_none authority h = elim (Option-cases (split_last b':' authority)) [
  | inl none_found ↦ inl (inl (split_last-none-Lacks b':' authority none_found))
  | inr ((host, port), found) ↦
      let (e, no_colon) = split_last-some b':' authority host port found in
      elim (Option-cases (split_first b']' port)) [
        | inl no_bracket ↦
            let (nonempty, digits) =
              port_problem_none port (port_checked authority host port h found no_bracket) in
            inr (host, port, e, nonempty, digits)
        | inr ((inside, tail), bracket) ↦
            let (e', _) = split_first-some b']' port inside tail bracket in
            inl (inr (host, inside, tail, e ∙ ap (λ t. host ++ b':' ∷ t) e', rw e' at no_colon))
      ]
]

drop_while-StartsPath : (s : Bytes) → StartsPath (drop_while (λ c. not (ends_authority c)) s)
drop_while-StartsPath [] = tt
drop_while-StartsPath (c ∷ s) = elim (Bool-cases (ends_authority c)) [
  | inl ends ↦ rw ends ends
  | inr goes_on ↦ rw goes_on (drop_while-StartsPath s)
]

authority_checked :
    (endpoint rest : Bytes)
    → endpoint_problem endpoint ≡ []
    → after_scheme endpoint ≡ some rest
    → authority_problem (take_while (λ c. not (ends_authority c)) rest) ≡ []
unfolding endpoint_problem
authority_checked endpoint rest h e = ground arith

scheme_found : (endpoint : Bytes) → endpoint_problem endpoint ≡ [] → after_scheme endpoint ≢ none
unfolding endpoint_problem missing_scheme
scheme_found endpoint h e = ground arith

-- An endpoint with no problem is usable.
pub endpoint_problem-IsUsable :
    (endpoint : Bytes) → endpoint_problem endpoint ≡ [] → IsUsable endpoint
endpoint_problem-IsUsable endpoint h = elim (Option-cases (after_scheme endpoint)) [
  | inl missing ↦ absurd (scheme_found endpoint h missing)
  | inr (rest, found) ↦
      let goes_on : ℕ → Bool = λ c. not (ends_authority c) in
      let authority = take_while goes_on rest in
      let checked = authority_checked endpoint rest h found in
      let (scheme, e, first) = after_scheme-some endpoint rest found in
      (
        scheme,
        authority,
        drop_while goes_on rest,
        e
            ∙ ap (λ t. scheme ++ (codes "://" ++ t))
                (sym (take_while-append-drop_while goes_on rest)),
        first,
        authority_nonempty authority checked,
        take_while-Passes goes_on rest,
        drop_while-StartsPath rest,
        authority_problem_none authority checked,
      )
]

crashed_none : (outcome : Outcome) → response_of outcome ≡ none → outcome ≡ crashed
crashed_none crashed h = refl
crashed_none (failed e) h = cc
crashed_none (answered status body) h = cc

-- If the HTTP library crashes on no usable endpoint, no GET crashes, whatever the endpoint is.
pub http_get-ne-none :
    (get : Call → Outcome)
    → ((call : Call) → IsUsable call.endpoint → get call ≢ crashed)
    → (endpoint path query : Bytes) (headers : List (Bytes × Bytes)) (connect read : ℕ)
    → http_get get endpoint path query headers connect read ≢ none
unfolding http_get
http_get-ne-none get safe endpoint path query headers connect read e =
    let call = call_of endpoint path query headers connect read in
    safe call (endpoint_problem-IsUsable endpoint (ground arith))
      (ground (arith, crashed_none (get call)))
