-- ===== src/Catalog/Series.antt =====
-- The scan of the table `series`, of src/loki/catalog.cpp: one request, whose rows are held and given out.
use duckdb_loki.Base.{
  nat_to_string, ℕ, Bool, true, false, not, ◌||◌, Option, none, some, List, [], ◌++◌, map, Bytes,
  codes, is_empty, ltb, length, get_elem?, if◌then◌else◌, Exception, io_exception, binder_exception,
  Result, ok, ◌>>=◌, ◌>>◌, throw_if, Crashing, and_then,
}
use duckdb_loki.Base.Int.{pos, ltb_ℤ, leb_ℤ, int_to_string}
use duckdb_loki.Types.{StringMap, QueryRangeRequest, find}
use duckdb_loki.Auth.{build_auth_headers}
use duckdb_loki.Logql.{build_selector_query}
use duckdb_loki.HttpRequest.{build_series_request, build_query_string}
use duckdb_loki.HttpClient.{Call, Outcome, HttpResponse, http_get}
use duckdb_loki.Parse.{Yyjson, response_snippet, parse_series_response}
use duckdb_loki.Scan.{LokiScanBindData}
use duckdb_loki.Scan.Cells.{Cell, null_cell, map_cell, text_or_null}
use duckdb_loki.Scan.Init.{has_empty_selector}
use duckdb_loki.Discovery.{emit_rows, as_io}

pub record LokiSeriesScanGlobalState : Type 0 where
  pub endpoint : Bytes
  pub headers : List (Bytes × Bytes)
  pub request : QueryRangeRequest
  pub fetched : Bool
  pub rows : List StringMap
  pub offset : ℕ
  pub column_ids : List ℕ

abbrev pub series_selector_required : Bytes → Exception
series_selector_required fn_name = binder_exception (
    fn_name
    ++ codes
        ": a stream selector is required — add a WHERE equality/IN on a label column (Loki refuses /series without a selector)")

abbrev pub too_many_series : Bytes → ℕ → ℕ → Exception
too_many_series fn_name rows max_rows = io_exception (
    fn_name
    ++ (codes ": the selector matched "
        ++ (nat_to_string rows
            ++ (codes " series, over the "
                ++ (nat_to_string max_rows
                    ++ codes
                        "-row cap — narrow the WHERE clause or the time window, or raise it with ATTACH ... (TYPE loki, series_max_rows N). Loki's /series endpoint cannot page, so the whole result must be held in memory")))))

unfoldable pub loki_series_scan_init_global :
    LokiScanBindData → List ℕ → Result LokiSeriesScanGlobalState
loki_series_scan_init_global b column_ids =
    let match = build_selector_query b.base_selector b.pushed_matchers [] in
    throw_if (has_empty_selector match) (series_selector_required b.fn_name)
    >> ok (record {
      endpoint = b.endpoint;
      headers = build_auth_headers b.auth;
      request = build_series_request match b.start_ns b.end_ns;
      fetched = false;
      rows = [];
      offset = 0;
      column_ids = column_ids;
    })

-- `src` is below the number of promoted labels where the label is there.
unfoldable pub labelled_cell : Option Bytes → StringMap → Cell
unfolding text_or_null
labelled_cell none row = map_cell row
labelled_cell (some name) row = text_or_null (find name row)

-- `src == COLUMN_IDENTIFIER_ROW_ID || IsVirtualColumn(src)`, of DuckDB, is the test `is_virtual`.
module _ (is_virtual : ℕ → Bool) where
  unfoldable pub series_cell : List Bytes → StringMap → ℕ → Cell
  unfolding labelled_cell
  series_cell label_columns row src =
      if is_virtual src then null_cell else labelled_cell (get_elem? label_columns src) row

  unfoldable pub series_output_row : List Bytes → List ℕ → StringMap → List Cell
  unfolding series_cell
  series_output_row label_columns column_ids row = map (series_cell label_columns row) column_ids

module _ (get : Call → Outcome) (y : Yyjson) where
  -- The rows of a response, or why there are none.
  unfoldable pub series_of_response : LokiScanBindData → HttpResponse → Result (List StringMap)
  series_of_response b response = do
    throw_if (not (is_empty response.error))
        (io_exception (b.fn_name ++ (codes ": request to Loki failed: " ++ response.error)))
    throw_if (ltb_ℤ response.status (pos 200) || leb_ℤ (pos 300) response.status) (
        io_exception (
          b.fn_name
          ++ (codes ": Loki returned HTTP "
              ++ (int_to_string response.status
                  ++ (codes ": " ++ response_snippet response.body 1000)))))
    rows ← as_io get y b.fn_name (parse_series_response y response.body)
    throw_if (ltb b.series_max_rows (length rows))
        (too_many_series b.fn_name (length rows) b.series_max_rows)
    ok rows

  unfoldable pub series_of_answer :
      LokiScanBindData
      → LokiSeriesScanGlobalState
      → Option HttpResponse
      → Crashing LokiSeriesScanGlobalState
  unfolding series_of_response
  series_of_answer b s none = none
  series_of_answer b s (some response) =
      some (series_of_response b response >>= λ rows. ok (record s { rows = rows; fetched = true }))

  -- The state of which rows are given out; it is fetched once.
  unfoldable pub fetch_series :
      LokiScanBindData → LokiSeriesScanGlobalState → Crashing LokiSeriesScanGlobalState
  unfolding series_of_answer
  fetch_series b s =
      if s.fetched
      then some (ok s)
      else series_of_answer b s
          (http_get get s.endpoint s.request.path (build_query_string s.request) s.headers 10 60)

  unfoldable pub loki_series_scan_function :
      (ℕ → Bool)
      → ℕ
      → LokiScanBindData
      → LokiSeriesScanGlobalState
      → Crashing (List (List Cell) × LokiSeriesScanGlobalState)
  unfolding fetch_series
  loki_series_scan_function is_virtual vector_size b s = and_then (fetch_series b s) λ t.
      let (out, end) = emit_rows vector_size t.rows t.offset in
      some (
        ok (
          map (series_output_row is_virtual b.label_columns t.column_ids) out,
          record t { offset = end },
        ))
