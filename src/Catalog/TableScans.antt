-- ===== src/Catalog/TableScans.antt =====
-- The scans of `logs` and `series` from `GetScanFunction` in src/loki/catalog.cpp on: when they are refused, and
-- what they ask Loki for.
use duckdb_loki.Catalog.Series.{LokiSeriesScanGlobalState}
use duckdb_loki.Catalog.{LokiLogsTable, LokiSeriesTable}
use duckdb_loki.Scan.{LokiScanBindData, loki_nanos_per_hour}
use duckdb_loki.Pager.{new_pager, default_per_request_cap}
use duckdb_loki.HttpRequest.{build_series_request}
use duckdb_loki.Auth.{build_auth_headers}
use duckdb_loki.Base.Int.{ℤ, ◌-ℤ◌, pos, eq_ℤ, int64_min, int64_max}
use duckdb_loki.Base.{
  ◌≡◌, false, List, [], ◌∷◌, ◌++◌, Bytes, ok, throw, if◌then◌else◌, codes, ℕ, ◌≤◌, length,
  Exception, Result, some,
}
use duckdb_loki.Logql.{LineFilter, LabelMatcher}
use duckdb_loki.Scan.Init.{LokiScanGlobalState}
use duckdb_loki.Logql.Reader.{read_query}

-- What the planner has added to the bind data of a table: matchers, line filters, and the two time bounds, where the
-- ends of int64 stand for none.
abbrev pub with_pushed :
    List LabelMatcher → List LineFilter → ℤ → ℤ → LokiScanBindData → LokiScanBindData
with_pushed ms fs from to b = record b {
  pushed_matchers = ms;
  pushed_line_filters = fs;
  pushed_start_ns = from;
  pushed_end_ns = to;
}

-- The pushed bound, or the hour before now where there is none.
abbrev pub from_of : ℤ → ℤ → ℤ
from_of now_ns from = if eq_ℤ from int64_min then now_ns -ℤ loki_nanos_per_hour else from

abbrev pub to_of : ℤ → ℤ → ℤ
to_of now_ns to = if eq_ℤ to int64_max then now_ns else to

-- The scan of a table is refused, or it starts, according to whether a label matcher was pushed.
abbrev pub RefusedOr :
    (S : Type 0) → (S → Type 0) → Exception → List LabelMatcher → Result S → Type 0
RefusedOr S Started refusal [] r = r ≡ throw refusal
RefusedOr S Started refusal (m ∷ more) r = (s : S) × (r ≡ ok s) × Started s

module _ (now_ns : ℤ) (ms : List LabelMatcher) (fs : List LineFilter) (from to : ℤ) where
  -- A scan of `logs` that has started: a LogQL reader finds the matchers and the line filters in its query.
  pub record LogsStarted (table : LokiLogsTable) (column_ids : List ℕ) (s : LokiScanGlobalState)
      : Type 0 where
    pub query : Bytes
    pub reads :
        (fuel : ℕ) → length ms ≤ fuel → length fs ≤ fuel → read_query fuel query ≡ some (ms, fs)
    pub pager :
        s.pager
        ≡ new_pager query
            (from_of now_ns from)
            (to_of now_ns to)
            (codes "backward")
            (pos 5000)
            default_per_request_cap
    pub endpoint : s.endpoint ≡ table.endpoint
    pub headers :
        s.headers
        ≡ build_auth_headers table.auth
          ++ (codes "X-Loki-Response-Encoding-Flags", codes "categorize-labels") ∷ []
    pub buffer : s.buffer ≡ []
    pub columns : s.column_ids ≡ column_ids

  -- A scan of `series` that has started: its selector has the matchers and no line filter.
  pub record SeriesStarted (table : LokiSeriesTable) (column_ids : List ℕ)
      (s : LokiSeriesScanGlobalState) : Type 0 where
    pub selector : Bytes
    pub reads : (fuel : ℕ) → length ms ≤ fuel → read_query fuel selector ≡ some (ms, [])
    pub request : s.request ≡ build_series_request selector (now_ns -ℤ loki_nanos_per_hour) now_ns
    pub endpoint : s.endpoint ≡ table.endpoint
    pub headers : s.headers ≡ build_auth_headers table.auth
    pub fetched : s.fetched ≡ false
    pub columns : s.column_ids ≡ column_ids
