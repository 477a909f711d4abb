-- ===== src/Scan/Init.antt =====
-- `LokiScanInitGlobal` of src/loki/loki_scan.cpp: the query, the window and the pager of a scan.
use duckdb_loki.Types.{LokiRow}
use duckdb_loki.Base.{
  ℕ, ◌==◌, Bool, false, not, ◌&&◌, List, [], ◌∷◌, ◌++◌, Bytes, codes, if◌then◌else◌,
}
use duckdb_loki.Base.Int.{ℤ, int64_max, int64_min, eq_ℤ, min_ℤ, max_ℤ}
use duckdb_loki.Base.{Result, Exception, ◌>>=◌, throw, ok, binder_exception}
use duckdb_loki.Auth.{build_auth_headers}
use duckdb_loki.Logql.{build_selector_query}
use duckdb_loki.Pager.{StreamPager, new_pager, default_per_request_cap}
use duckdb_loki.Scan.{LokiScanBindData}

-- `query.size() >= 2 && query[0] == '{' && query[1] == '}'`
unfoldable pub has_empty_selector : Bytes → Bool
has_empty_selector (c ∷ (d ∷ s)) = (c == b'{') && (d == b'}')
has_empty_selector s = false

unfoldable pub effective_start : LokiScanBindData → ℤ
effective_start b =
    if b.pushdown_mode && not (eq_ℤ b.pushed_start_ns int64_min)
    then (if b.has_param_start then max_ℤ b.start_ns b.pushed_start_ns else b.pushed_start_ns)
    else b.start_ns

unfoldable pub effective_end : LokiScanBindData → ℤ
effective_end b =
    if b.pushdown_mode && not (eq_ℤ b.pushed_end_ns int64_max)
    then (if b.has_param_end then min_ℤ b.end_ns b.pushed_end_ns else b.pushed_end_ns)
    else b.end_ns

abbrev pub selector_required : LokiScanBindData → Exception
selector_required b =
    binder_exception (b.fn_name ++ codes ": a stream selector is required — " ++ b.selector_hint)

unfoldable pub effective_query : LokiScanBindData → Result Bytes
effective_query b =
    let query = build_selector_query b.base_selector b.pushed_matchers b.pushed_line_filters in
    if b.pushdown_mode
    then (if has_empty_selector query then throw (selector_required b) else ok query)
    else ok b.query

-- The state of a scan that has not fetched a page.
pub record LokiScanGlobalState : Type 0 where
  pub endpoint : Bytes
  pub headers : List (Bytes × Bytes)
  pub pager : StreamPager
  pub buffer : List LokiRow
  pub buf_offset : ℕ
  pub column_ids : List ℕ

unfoldable pub loki_scan_init_global : LokiScanBindData → List ℕ → Result LokiScanGlobalState
unfolding effective_query effective_start effective_end
loki_scan_init_global b column_ids = effective_query b >>= λ query. ok (record {
  endpoint = b.endpoint;
  headers =
      build_auth_headers b.auth
      ++ (codes "X-Loki-Response-Encoding-Flags", codes "categorize-labels") ∷ [];
  pager =
      new_pager query (effective_start b) (effective_end b) b.direction b.limit
        default_per_request_cap;
  buffer = [];
  buf_offset = 0;
  column_ids = column_ids;
})
