-- ===== src/Catalog/FetchedNames.antt =====
-- `FetchLokiLabelNames` of src/loki/catalog.cpp: which names it gives, and how it fails.
use duckdb_loki.Base.{
  ℕ, ◌≡◌, refl, ◌∙◌, ◌⊎◌, inl, inr, Bool, true, false, not, ◌||◌, Option, none, some, List, [], ◌∷◌,
  ◌++◌, arith, Bytes, is_empty, All, All-append, Exception, io_exception, Result, ok, throw, ◌>>=◌,
  Bool-cases,
}
use duckdb_loki.Base.Int.{pos, negsuc, ltb_ℤ, leb_ℤ}
use duckdb_loki.Auth.{AuthConfig, build_auth_headers}
use duckdb_loki.HttpRequest.{build_labels_request, build_query_string}
use duckdb_loki.HttpClient.{Call, Outcome, HttpResponse, http_get}
use duckdb_loki.Parse.{Yyjson, parse_string_array_response}
use duckdb_loki.Scan.ColumnNames.{has_seen, IsPromotable}
use duckdb_loki.Catalog.FetchLabels.{
  as_discovery_error, keep_name, keep_valid, discovered_names, names_of_answer,
  fetch_loki_label_names, AreColumns, keep_valid-AreColumns,
}

abbrev pub IsIoException : Exception → Type 0
IsIoException (io_exception m) = Unit
IsIoException e = ⊥

abbrev pub IsIn : Bytes → List Bytes → Type 0
IsIn name [] = ⊥
IsIn name (n ∷ ns) = (name ≡ n) ⊎ IsIn name ns

module _ (ci_equals : Bytes → Bytes → Bool) where
  has_seen-append :
      (xs ys : List Bytes) (name : Bytes)
      → has_seen ci_equals (xs ++ ys) name
        ≡ (has_seen ci_equals xs name || has_seen ci_equals ys name)
  unfolding has_seen
  has_seen-append [] ys name = refl
  has_seen-append (x ∷ xs) ys name = ground (arith, has_seen-append xs ys name)

  keep_name-has_seen :
      (valid : List Bytes) (n name : Bytes)
      → has_seen ci_equals valid name ≡ true
      → has_seen ci_equals (keep_name ci_equals valid n) name ≡ true
  unfolding keep_name
  keep_name-has_seen valid n name h = ground (arith, has_seen-append valid (n ∷ []) name)

  keep_valid-has_seen :
      (valid names : List Bytes) (name : Bytes)
      → has_seen ci_equals valid name ≡ true
      → has_seen ci_equals (keep_valid ci_equals valid names) name ≡ true
  unfolding keep_valid
  keep_valid-has_seen valid [] name h = h
  keep_valid-has_seen valid (n ∷ names) name h =
      keep_valid-has_seen (keep_name ci_equals valid n) names name
        (keep_name-has_seen valid n name h)

  keep_name_seen :
      (valid : List Bytes) (name : Bytes)
      → ci_equals name name ≡ true
      → IsPromotable ci_equals name
      → has_seen ci_equals (keep_name ci_equals valid name) name ≡ true
  unfolding keep_name has_seen
  keep_name_seen valid name same fit = ground (arith, has_seen-append valid (name ∷ []) name)

  -- A name that is fit to be a column is among the columns, up to its case.
  keep_valid_complete :
      ((n : Bytes) → ci_equals n n ≡ true)
      → (valid names : List Bytes)
      → All
          (λ n.
            IsPromotable ci_equals n
            → has_seen ci_equals (keep_valid ci_equals valid names) n ≡ true)
          names
  unfolding keep_valid
  keep_valid_complete same valid [] = tt
  keep_valid_complete same valid (n ∷ names) = (
    λ fit.
        keep_valid-has_seen (keep_name ci_equals valid n) names n
          (keep_name_seen valid n (same n) fit),
    keep_valid_complete same (keep_name ci_equals valid n) names,
  )

  keep_name_cases :
      (valid : List Bytes) (n : Bytes)
      → (keep_name ci_equals valid n ≡ valid) ⊎ (keep_name ci_equals valid n ≡ valid ++ n ∷ [])
  unfolding keep_name
  keep_name_cases valid n = ground arith

  -- Each column is a name of the response, or was there before.
  keep_valid-All :
      (P : Bytes → Type 0) (valid names : List Bytes)
      → All P valid
      → All P names
      → All P (keep_valid ci_equals valid names)
  unfolding keep_valid
  keep_valid-All P valid [] v h = v
  keep_valid-All P valid (n ∷ names) v (p, h) =
      keep_valid-All P (keep_name ci_equals valid n) names
        (elim (keep_name_cases valid n) [
          | inl e ↦ rw e v
          | inr e ↦ rw e (All-append P valid (n ∷ []) v (p, tt))
        ])
        h

IsIn-weaken :
    (n : Bytes) (ns ms : List Bytes) → All (λ m. IsIn m ns) ms → All (λ m. IsIn m (n ∷ ns)) ms
IsIn-weaken n ns [] h = tt
IsIn-weaken n ns (m ∷ ms) (i, h) = (inr i, IsIn-weaken n ns ms h)

IsIn-All : (ns : List Bytes) → All (λ m. IsIn m ns) ns
IsIn-All [] = tt
IsIn-All (n ∷ ns) = (inl refl, IsIn-weaken n ns ns (IsIn-All ns))

module _ (ci_equals : Bytes → Bytes → Bool) (y : Yyjson) where
  -- A response that is not 2xx, or that no JSON list of names can be read from, is an IOException; else
  -- the names that come are names of the response, fit to be columns and distinct.
  abbrev pub Fetched : Option (Result (List Bytes)) → Type 0
  Fetched none = Unit
  Fetched (some (ok names)) = AreColumns ci_equals names
  Fetched (some (throw e)) = IsIoException e

  abbrev kept : Result (List Bytes) → Result (List Bytes)
  kept r = as_discovery_error r >>= λ discovered. ok (keep_valid ci_equals [] discovered)

  kept-Fetched : (r : Result (List Bytes)) → Fetched (some (kept r))
  unfolding as_discovery_error
  kept-Fetched (ok discovered) = keep_valid-AreColumns ci_equals [] discovered (tt, tt)
  kept-Fetched (throw e) = tt

  abbrev has_error : HttpResponse → Bool
  has_error response = not (is_empty response.error)

  abbrev has_bad_status : HttpResponse → Bool
  has_bad_status response = ltb_ℤ response.status (pos 200) || leb_ℤ (pos 300) response.status

  discovered_names_good :
      (response : HttpResponse)
      → has_error response ≡ false
      → has_bad_status response ≡ false
      → discovered_names ci_equals y response ≡ kept (parse_string_array_response y response.body)
  unfolding discovered_names
  discovered_names_good response e s = rw (e, s) refl

  discovered_names-Fetched :
      (response : HttpResponse) → Fetched (some (discovered_names ci_equals y response))
  discovered_names-Fetched response = elim (Bool-cases (has_error response)) [
    | inl failed ↦ unfold discovered_names in rw failed tt
    | inr fine ↦ elim (Bool-cases (has_bad_status response)) [
      | inl bad ↦ unfold discovered_names in rw (fine, bad) tt
      | inr good ↦
          rw (discovered_names_good response fine good)
            (kept-Fetched (parse_string_array_response y response.body))
    ]
  ]

  names_of_answer-Fetched :
      (answer : Option HttpResponse) → Fetched (names_of_answer ci_equals y answer)
  unfolding names_of_answer
  names_of_answer-Fetched none = tt
  names_of_answer-Fetched (some response) = discovered_names-Fetched response

  pub fetch_loki_label_names-Fetched :
      (get : Call → Outcome) (endpoint : Bytes) (auth : AuthConfig) (connect_s read_s : ℕ)
      → Fetched (fetch_loki_label_names ci_equals get y endpoint auth connect_s read_s)
  unfolding fetch_loki_label_names
  fetch_loki_label_names-Fetched get endpoint auth connect_s read_s =
      let request = build_labels_request (negsuc 0) (negsuc 0) in
      names_of_answer-Fetched (
        http_get get endpoint request.path (build_query_string request) (build_auth_headers auth)
          connect_s read_s)

  -- From a 2xx response whose JSON lists names, the columns are exactly the names that are valid label
  -- names and not reserved, each once in any case: they are among the listed ones, valid, not reserved and
  -- distinct, and each listed name that is fit has a column, if a name equals itself in any case.
  pub discovered_names-IsIn :
      (response : HttpResponse) (discovered : List Bytes)
      → ((n : Bytes) → ci_equals n n ≡ true)
      → has_error response ≡ false
      → has_bad_status response ≡ false
      → parse_string_array_response y response.body ≡ ok discovered
      → (names : List Bytes) × (discovered_names ci_equals y response ≡ ok names)
        × AreColumns ci_equals names
        × All (λ n. IsIn n discovered) names
        × All (λ n. IsPromotable ci_equals n → has_seen ci_equals names n ≡ true) discovered
  discovered_names-IsIn response discovered same fine good parsed = (
    keep_valid ci_equals [] discovered,
    discovered_names_good response fine good ∙ (unfold as_discovery_error in rw parsed refl),
    keep_valid-AreColumns ci_equals [] discovered (tt, tt),
    keep_valid-All ci_equals (λ n. IsIn n discovered) [] discovered tt (IsIn-All discovered),
    keep_valid_complete ci_equals same [] discovered,
  )
