-- ===== src/Discovery.antt =====
-- src/loki/loki_discovery.cpp and src/include/loki/loki_discovery.hpp: the functions that list labels,
-- their values and series. The connection is that of Connection.Resolve.
pub mod Drain
use duckdb_loki.Base.{
  ℕ, zero, suc, ◌+◌, Bool, true, false, not, ◌||◌, Option, none, some, List, [], ◌∷◌, ◌++◌, map,
  Bytes, codes, is_empty, get_elem?, if◌then◌else◌, Exception, io_exception, binder_exception,
  Result, ok, throw, ◌>>=◌, ◌>>◌, throw_if, or_throw,
}
use duckdb_loki.Base.Int.{ℤ, pos, negsuc, ltb_ℤ, leb_ℤ, int_to_string}
use duckdb_loki.Types.{StringMap, QueryRangeRequest}
use duckdb_loki.Auth.{AuthConfig, build_auth_headers}
use duckdb_loki.HttpRequest.{
  build_labels_request, build_label_values_request, build_series_request, build_query_string,
}
use duckdb_loki.HttpClient.{Call, Outcome, HttpResponse, http_get}
use duckdb_loki.Parse.{Yyjson, response_snippet, parse_string_array_response, parse_series_response}
use duckdb_loki.Connection.{Duckdb, what}
use duckdb_loki.Connection.Resolve.{Connected, find_named_param, param_or, resolve_loki_connection}
use duckdb_loki.Connection.TimeBound.{resolve_time_bound}

pub data DiscoveryKind : Type 0 where
  kind_labels kind_label_values kind_series : DiscoveryKind

pub record LokiDiscoveryBindData : Type 0 where
  pub kind : DiscoveryKind
  pub endpoint : Bytes
  pub auth : AuthConfig
  pub request : QueryRangeRequest

pub record LokiDiscoveryGlobalState : Type 0 where
  pub endpoint : Bytes
  pub headers : List (Bytes × Bytes)
  pub request : QueryRangeRequest
  pub fetched : Bool
  pub string_rows : List Bytes
  pub series_rows : List StringMap
  pub offset : ℕ

pub data DiscoveryRow : Type 0 where
  text_row : Bytes → DiscoveryRow
  labels_row : StringMap → DiscoveryRow

abbrev pub no_auth : AuthConfig
no_auth = record { token = []; username = []; password = []; tenant = []; extra_headers = [] }

module _ (db : Duckdb) (params : Bytes → Option db.Value) (now_ns : ℤ) where
  open db use {Value}

  -- The first argument, where it is there and not NULL.
  unfoldable pub given : Option Value → Option Bytes
  given none = none
  given (some v) = if db.is_null v then none else some (db.to_string v)

  -- A bound that is not given is -1.
  unfoldable pub bound_or_default : Bytes → Result ℤ
  bound_or_default name = elim (find_named_param db params name) [
    | none ↦ ok (negsuc 0)
    | some v ↦ resolve_time_bound db v now_ns
  ]

  unfoldable pub resolve_discovery_bounds : Result (ℤ × ℤ)
  unfolding bound_or_default
  resolve_discovery_bounds = do
    start_ns ← bound_or_default (codes "start")
    end_ns ← bound_or_default (codes "end")
    ok (start_ns, end_ns)

  abbrev pub bind_data_of : DiscoveryKind → Connected → QueryRangeRequest → LokiDiscoveryBindData
  bind_data_of kind c request = record {
    kind = kind;
    endpoint = c.endpoint;
    auth = c.auth;
    request = request;
  }

  unfoldable pub loki_labels_bind : Result LokiDiscoveryBindData
  unfolding resolve_discovery_bounds
  loki_labels_bind = do
    c ← resolve_loki_connection db params [] no_auth (codes "loki_labels")
    (start_ns, end_ns) ← resolve_discovery_bounds
    ok (bind_data_of DiscoveryKind.kind_labels c (build_labels_request start_ns end_ns))

  unfoldable pub loki_label_values_bind : Option Value → Result LokiDiscoveryBindData
  unfolding resolve_discovery_bounds given
  loki_label_values_bind input = do
    c ← resolve_loki_connection db params [] no_auth (codes "loki_label_values")
    label ←
        or_throw (given input)
          (binder_exception (codes "loki_label_values requires a label name as its first argument"))
    (start_ns, end_ns) ← resolve_discovery_bounds
    ok (
        bind_data_of DiscoveryKind.kind_label_values c (
          build_label_values_request label start_ns end_ns (param_or db params (codes "query") [])))

  unfoldable pub loki_series_bind : Option Value → Result LokiDiscoveryBindData
  unfolding resolve_discovery_bounds given
  loki_series_bind input = do
    c ← resolve_loki_connection db params [] no_auth (codes "loki_series")
    match_text ← or_throw (given input) (
        binder_exception (
          codes
            "loki_series requires a stream selector as its first argument, e.g. loki_series('{job=\"api\"}')"))
    (start_ns, end_ns) ← resolve_discovery_bounds
    ok (bind_data_of DiscoveryKind.kind_series c (build_series_request match_text start_ns end_ns))

unfoldable pub loki_discovery_init_global : LokiDiscoveryBindData → LokiDiscoveryGlobalState
loki_discovery_init_global b = record {
  endpoint = b.endpoint;
  headers = build_auth_headers b.auth;
  request = b.request;
  fetched = false;
  string_rows = [];
  series_rows = [];
  offset = 0;
}

-- The loop that fills an output vector: the rows from the offset on, and the offset behind them. The
-- number counts the places that are left.
unfoldable pub emit_rows {ℓ} : {A : Type ℓ} → ℕ → List A → ℕ → List A × ℕ
emit_rows zero rows offset = ([], offset)
emit_rows (suc n) rows offset =
    let (out, end) = emit_rows n rows (offset + 1) in
    elim (get_elem? rows offset) [ none ↦ ([], offset) | some row ↦ (row ∷ out, end) ]

abbrev pub function_name_of : DiscoveryKind → Bytes
function_name_of DiscoveryKind.kind_labels = codes "loki_labels"
function_name_of DiscoveryKind.kind_label_values = codes "loki_label_values"
function_name_of DiscoveryKind.kind_series = codes "loki_series"

module _ (get : Call → Outcome) (y : Yyjson) where
  unfoldable pub read_rows :
      LokiDiscoveryGlobalState → DiscoveryKind → Bytes → Result LokiDiscoveryGlobalState
  read_rows s DiscoveryKind.kind_series body =
      parse_series_response y body >>= λ rows. ok (record s { series_rows = rows })
  read_rows s kind body =
      parse_string_array_response y body >>= λ rows. ok (record s { string_rows = rows })

  -- `catch (const std::exception &e)` around the readers.
  unfoldable pub as_io {ℓ} : {A : Type ℓ} → Bytes → Result A → Result A
  as_io fn (ok a) = ok a
  as_io fn (throw e) = throw (io_exception (fn ++ (codes ": " ++ what e)))

  unfoldable pub check_response :
      LokiDiscoveryGlobalState
      → DiscoveryKind
      → Bytes
      → HttpResponse
      → Result LokiDiscoveryGlobalState
  unfolding read_rows as_io
  check_response s kind fn response = do
    throw_if (not (is_empty response.error))
        (io_exception (fn ++ (codes ": request to Loki failed: " ++ response.error)))
    throw_if (ltb_ℤ response.status (pos 200) || leb_ℤ (pos 300) response.status) (
        io_exception (
          fn
          ++ (codes ": Loki returned HTTP "
              ++ (int_to_string response.status
                  ++ (codes ": " ++ response_snippet response.body 1000)))))
    as_io fn (read_rows s kind response.body)

  -- `none` where the process crashes.
  unfoldable pub fetch_discovery :
      LokiDiscoveryGlobalState → DiscoveryKind → Bytes → Option (Result LokiDiscoveryGlobalState)
  unfolding check_response
  fetch_discovery s kind fn =
      elim (http_get get s.endpoint s.request.path (build_query_string s.request) s.headers 10 60) [
        | none ↦ none
        | some response ↦ some (check_response s kind fn response)
      ]

  -- The rows of one output chunk, once they are fetched.
  unfoldable pub output_rows :
      ℕ → DiscoveryKind → LokiDiscoveryGlobalState → List DiscoveryRow × LokiDiscoveryGlobalState
  unfolding emit_rows
  output_rows vector_size DiscoveryKind.kind_series s =
      let (out, end) = emit_rows vector_size s.series_rows s.offset in
      (map labels_row out, record s { offset = end })
  output_rows vector_size kind s =
      let (out, end) = emit_rows vector_size s.string_rows s.offset in
      (map text_row out, record s { offset = end })

  unfoldable pub loki_discovery_function :
      ℕ
      → DiscoveryKind
      → LokiDiscoveryGlobalState
      → Option (Result (List DiscoveryRow × LokiDiscoveryGlobalState))
  unfolding fetch_discovery output_rows
  loki_discovery_function vector_size kind s =
      if s.fetched
      then some (ok (output_rows vector_size kind s))
      else elim (fetch_discovery s kind (function_name_of kind)) [
        | none ↦ none
        | some r ↦ some (r >>= λ t. ok (output_rows vector_size kind (record t { fetched = true })))
      ]
