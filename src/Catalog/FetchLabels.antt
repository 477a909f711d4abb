-- ===== src/Catalog/FetchLabels.antt =====
-- `FetchLokiLabelNames` of src/loki/catalog.cpp: the labels of a tenant that become columns.
use duckdb_loki.Base.{
  ℕ, inl, inr, Bool, not, ◌||◌, Option, none, some, List, [], ◌∷◌, ◌++◌, Bytes, codes, is_empty,
  if◌then◌else◌, All, All-append, Exception, io_exception, Result, ok, throw, ◌>>=◌, ◌>>◌, throw_if,
  Bool-cases,
}
use duckdb_loki.Base.Int.{pos, negsuc, ltb_ℤ, leb_ℤ, int_to_string}
use duckdb_loki.Auth.{AuthConfig, build_auth_headers}
use duckdb_loki.Logql.{is_valid_label_name}
use duckdb_loki.HttpRequest.{build_labels_request, build_query_string}
use duckdb_loki.HttpClient.{Call, Outcome, HttpResponse, http_get}
use duckdb_loki.Parse.{Yyjson, response_snippet, parse_string_array_response}
use duckdb_loki.Connection.{what}
use duckdb_loki.Scan.ColumnNames.{
  is_reserved_column_name, has_seen, IsPromotable, AreDistinct, has_seen-All, AreDistinct-append,
}

abbrev pub discovery_failed : Bytes → Exception
discovery_failed error =
    io_exception
      (codes "ATTACH (TYPE loki): label auto-discovery request to Loki failed: " ++ error)

abbrev pub discovery_status : HttpResponse → Exception
discovery_status response = io_exception (
    codes "ATTACH (TYPE loki): label auto-discovery got HTTP "
    ++ (int_to_string response.status ++ (codes ": " ++ response_snippet response.body 1000)))

-- `catch (const std::exception &e)` around the reader.
unfoldable pub as_discovery_error {ℓ} : {A : Type ℓ} → Result A → Result A
as_discovery_error (ok a) = ok a
as_discovery_error (throw e) =
    throw (io_exception (codes "ATTACH (TYPE loki): label auto-discovery: " ++ what e))

module _ (ci_equals : Bytes → Bytes → Bool) where
  -- One round of the loop; the names in `seen` are those in `valid`.
  unfoldable pub keep_name : List Bytes → Bytes → List Bytes
  keep_name valid name =
      if not (is_valid_label_name name) || is_reserved_column_name ci_equals name
      then valid
      else if has_seen ci_equals valid name
      then valid
      else valid ++ name ∷ []

  unfoldable pub keep_valid : List Bytes → List Bytes → List Bytes
  unfolding keep_name
  keep_valid valid [] = valid
  keep_valid valid (name ∷ names) = keep_valid (keep_name valid name) names

  unfoldable pub discovered_names : Yyjson → HttpResponse → Result (List Bytes)
  unfolding as_discovery_error keep_valid
  discovered_names y response = do
    throw_if (not (is_empty response.error)) (discovery_failed response.error)
    throw_if (ltb_ℤ response.status (pos 200) || leb_ℤ (pos 300) response.status)
        (discovery_status response)
    discovered ← as_discovery_error (parse_string_array_response y response.body)
    ok (keep_valid [] discovered)

  -- `none` where the process crashes.
  unfoldable pub names_of_answer : Yyjson → Option HttpResponse → Option (Result (List Bytes))
  unfolding discovered_names
  names_of_answer y none = none
  names_of_answer y (some response) = some (discovered_names y response)

  unfoldable pub fetch_loki_label_names :
      (Call → Outcome) → Yyjson → Bytes → AuthConfig → ℕ → ℕ → Option (Result (List Bytes))
  unfolding names_of_answer
  fetch_loki_label_names get y endpoint auth connect_timeout_s read_timeout_s =
      let request = build_labels_request (negsuc 0) (negsuc 0) in
      names_of_answer y (
        http_get get endpoint request.path (build_query_string request) (build_auth_headers auth)
          connect_timeout_s read_timeout_s)

  -- The names of a list of columns: valid, not reserved, and no two the same in any case.
  abbrev pub AreColumns : List Bytes → Type 0
  AreColumns names = All (IsPromotable ci_equals) names × AreDistinct ci_equals names

  keep_name-AreColumns :
      (valid : List Bytes) (name : Bytes) → AreColumns valid → AreColumns (keep_name valid name)
  keep_name-AreColumns valid name (p, d) = elim (Bool-cases (is_valid_label_name name)) [
    | inl good ↦ elim (Bool-cases (is_reserved_column_name ci_equals name)) [
      | inl reserved ↦ unfold keep_name in rw (good, reserved) (p, d)
      | inr free ↦ elim (Bool-cases (has_seen ci_equals valid name)) [
        | inl seen ↦ unfold keep_name in rw (good, free, seen) (p, d)
        | inr fresh ↦
            unfold keep_name in
            rw (good, free, fresh)
              (
                All-append (IsPromotable ci_equals) valid (name ∷ []) p ((good, free), tt),
                AreDistinct-append ci_equals valid name d (has_seen-All ci_equals valid name fresh),
              )
      ]
    ]
    | inr bad ↦ unfold keep_name in rw bad (p, d)
  ]

  pub keep_valid-AreColumns :
      (valid names : List Bytes) → AreColumns valid → AreColumns (keep_valid valid names)
  unfolding keep_valid
  keep_valid-AreColumns valid [] h = h
  keep_valid-AreColumns valid (name ∷ names) h =
      keep_valid-AreColumns (keep_name valid name) names (keep_name-AreColumns valid name h)
