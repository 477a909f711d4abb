-- ===== src/Tests/Functions.antt =====
-- The theorems on the two table functions of src/loki/loki_scan.cpp at concrete inputs.
use duckdb_loki.Scan.Promote.{promote_labels}
use duckdb_loki.Base.{
  ℕ, ◌≡◌, ◌≤◌, refl, some, none, ok, Bool, true, false, List, [], ◌∷◌, codes, str_eq, arith, Bytes,
  Option, length, if◌then◌else◌,
}
use duckdb_loki.Base.Int.{pos, ◌-ℤ◌}
use duckdb_loki.Base.Find.{split_last}
use duckdb_loki.Types.{LokiRow}
use duckdb_loki.HttpClient.{Call, Outcome, answered, http_get}
use duckdb_loki.Parse.{Yyjson, parse_streams_response}
use duckdb_loki.Logql.{is_valid_label_name, build_logql}
use duckdb_loki.Connection.Resolve.{resolve_loki_connection}
use duckdb_loki.Connection.Secrets.{use_best_secret}
use duckdb_loki.Pager.{StreamPager, new_pager, default_per_request_cap}
use duckdb_loki.Pager.Rows.{room}
use duckdb_loki.Pager.Progress.{Server, remaining}
use duckdb_loki.Pager.Total.{pages}
use duckdb_loki.Scan.{LokiScanBindData, new_bind_data, loki_nanos_per_hour}
use duckdb_loki.Scan.Init.{LokiScanGlobalState, loki_scan_init_global}
use duckdb_loki.Scan.Output.{ask, chunks_of_answer, chunks_of_response}
use duckdb_loki.Scan.Output.Rounds.{Answers}
use duckdb_loki.Scan.Output.AllRows.{scan_calls, row_cells, scan_calls-pages}
use duckdb_loki.Scan.Bind.{DuckdbBind, query_of, loki_scan_bind, output_columns}
use duckdb_loki.Scan.Bind.Bound.{IsBound, loki_scan_bind-loki_scan_init_global}
use duckdb_loki.Catalog.Columns.{ColumnDefinition}
use duckdb_loki.Tests.Threads.{api}

abbrev no_streams : Yyjson
no_streams = record {
  Val = ℕ;
  read = λ text. some 0;
  obj_get = λ v key. some 1;
  arr_items = λ v. some [];
  get_str = λ v. some (codes "streams");
  obj_entries = λ v. [];
}

abbrev silent : Call → Outcome
silent call = answered (pos 200) []

abbrev no_entries : Server
no_entries request = []

answers : Answers silent no_streams (codes "loki_scan") no_entries (codes "http://h") []
unfolding ask chunks_of_answer chunks_of_response http_get split_last parse_streams_response str_eq
answers request = refl

abbrev scanned : LokiScanGlobalState
scanned = record {
  endpoint = codes "http://h";
  headers = [];
  pager = new_pager (codes "{a=\"b\"}") (pos 10) (pos 20) (codes "backward") (pos 3) (pos 2);
  buffer = [];
  buf_offset = 0;
  column_ids = 0 ∷ 1 ∷ [];
}

abbrev not_virtual : ℕ → Bool
not_virtual i = false

scan_calls-pages_example :
    (rows : List LokiRow) × (q : StreamPager) × (pages 11 no_entries scanned.pager ≡ some (rows, q))
    × (q.done ≡ true)
    × (length rows ≤ room scanned.pager.user_limit scanned.pager.emitted)
    × (scan_calls silent no_streams not_virtual new_bind_data 3 20 2 scanned
        ≡ some (
            some
              (ok (row_cells silent no_streams not_virtual new_bind_data scanned.column_ids rows))))
unfolding new_pager remaining room str_eq ◌-ℤ◌
scan_calls-pages_example =
    scan_calls-pages silent no_streams not_virtual new_bind_data no_entries 3 1 20 11 scanned refl
      answers (λ logql start end limit direction. tt) (omega arith) (omega arith) (omega arith)
      (omega arith)

abbrev values : DuckdbBind
values = record {
  db = api.db;
  get_bigint = λ v. pos 10;
  get_children = λ v. codes "app" ∷ [];
  ci_equals = str_eq;
}

abbrev params : Bytes → Option Bytes
params name =
    if str_eq name (codes "endpoint")
    then some (codes "http://h")
    else if str_eq name (codes "limit")
    then some (codes "10")
    else if str_eq name (codes "labels")
    then some (codes "[app]")
    else none

abbrev inputs : List Bytes
inputs = codes "{a=\"b\"}" ∷ []

abbrev bound : LokiScanBindData
bound = record new_bind_data {
  endpoint = codes "http://h";
  query = codes "{a=\"b\"}";
  start_ns = pos 7 -ℤ loki_nanos_per_hour;
  end_ns = pos 7;
  limit = pos 10;
  label_columns = codes "app" ∷ [];
}

abbrev columns : List ColumnDefinition
columns = output_columns (codes "app" ∷ [])

bound_scan : loki_scan_bind values inputs params (pos 7) ≡ ok (bound, columns)
unfolding loki_scan_bind resolve_loki_connection str_eq use_best_secret promote_labels
    is_valid_label_name build_logql
bound_scan = refl

loki_scan_bind-loki_scan_init_global_example :
    (query : Bytes) × (s : LokiScanGlobalState) × (query_of values inputs ≡ ok query)
    × IsBound values (pos 7) (record new_bind_data { query = query }) bound columns
    × (loki_scan_init_global bound (0 ∷ []) ≡ ok s)
    × (s.pager
        ≡ new_pager query bound.start_ns bound.end_ns bound.direction bound.limit
            default_per_request_cap)
    × (s.buffer ≡ [])
    × (s.column_ids ≡ 0 ∷ [])
loki_scan_bind-loki_scan_init_global_example =
    loki_scan_bind-loki_scan_init_global values inputs params (pos 7) bound columns (0 ∷ [])
      bound_scan

abbrev with_selector : Bytes → Option Bytes
with_selector name =
    if str_eq name (codes "selector") then some (codes "{a=\"b\"}") else params name

abbrev bound_loki : LokiScanBindData
bound_loki = record bound {
  query = [];
  fn_name = codes "loki";
  pushdown_mode = true;
  base_selector = codes "{a=\"b\"}";
}
