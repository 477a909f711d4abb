-- ===== src/Tests/Tables.antt =====
-- The theorems on ATTACH and on the tables of src/loki/catalog.cpp at concrete inputs.
use duckdb_loki.Discovery.{as_io}
use duckdb_loki.Connection.Secrets.{use_best_secret}
use duckdb_loki.Connection.Resolve.{resolve_loki_connection_from_options}
use duckdb_loki.Base.{
  ℕ, ◌≡◌, refl, some, none, ok, true, false, List, [], ◌∷◌, codes, str_eq, arith, Bytes, All,
  Option, map, length, ◌≤◌, if◌then◌else◌, str_eq_refl, Bool,
}
use duckdb_loki.Base.Int.{pos}
use duckdb_loki.Base.Find.{split_last}
use duckdb_loki.HttpClient.{HttpResponse, http_get}
use duckdb_loki.Parse.{parse_string_array_response, parse_series_response}
use duckdb_loki.Logql.{LabelMatcher, MatchOp, is_valid_label_name}
use duckdb_loki.HttpRequest.{build_series_request}
use duckdb_loki.Scan.{new_bind_data}
use duckdb_loki.Scan.ColumnNames.{IsPromotable, has_seen, is_reserved_column_name}
use duckdb_loki.Catalog.{LokiTenant, LokiCatalogConfig, LokiCatalog, LokiLogsTable, LokiSeriesTable}
use duckdb_loki.Catalog.Columns.{build_loki_logs_columns, build_loki_series_columns}
use duckdb_loki.Catalog.FetchLabels.{
  discovered_names, AreColumns, fetch_loki_label_names, names_of_answer, keep_valid, keep_name,
  as_discovery_error,
}
use duckdb_loki.Catalog.FetchedNames.{IsIn, discovered_names-IsIn}
use duckdb_loki.Catalog.Options.{
  parse_ttl_option, check_attach_labels, parse_string_list_option, series_cap_of_option,
}
use duckdb_loki.Catalog.Ttl.{HasWords}
use duckdb_loki.Catalog.Attach.{loki_attach}
use duckdb_loki.Catalog.Attach.Checks.{IsValidConfig, loki_attach-IsValidConfig}
use duckdb_loki.Catalog.Schema.{new_schema_entry}
use duckdb_loki.Catalog.Series.{
  LokiSeriesScanGlobalState, fetch_series, series_output_row, series_of_answer, series_of_response,
}
use duckdb_loki.Catalog.SeriesRows.{series_calls, series_calls-rows}
use duckdb_loki.Catalog.Snapshots.{build_snapshot, lookup_schema, OnEntryNotFound, pinned_snapshot}
use duckdb_loki.Catalog.Lookup.{lookup_schema-build_schemas}
use duckdb_loki.Catalog.Pragma.{AttachedDatabase}
use duckdb_loki.Tests.Catalogs.{answer, one_string, auth, config, catalog}
use duckdb_loki.Tests.Threads.{api}

abbrev app_response : HttpResponse
app_response = record { status = pos 200; body = codes "[app]"; error = [] }

discovered_names-IsIn_example :
    (names : List Bytes) × (discovered_names str_eq one_string app_response ≡ ok names)
    × AreColumns str_eq names
    × All (λ n. IsIn n (codes "app" ∷ [])) names
    × All (λ n. IsPromotable str_eq n → has_seen str_eq names n ≡ true) (codes "app" ∷ [])
unfolding parse_string_array_response
discovered_names-IsIn_example =
    discovered_names-IsIn str_eq one_string app_response (codes "app" ∷ []) str_eq_refl refl refl
      refl

none-some {ℓ} : {A : Type ℓ} {a : A} → none ≡ some a → ⊥
none-some e = cc

words : HasWords api
words = record {
  interval_words = λ v months days micros e. absurd (none-some e);
  integral_words = λ v n e. absurd (none-some e);
}

abbrev no_options : Bytes → Option Bytes
no_options name = if str_eq name (codes "label_cache_ttl") then some (codes "5m") else none

abbrev one_tenant : Bytes → Option Bytes
one_tenant name = if str_eq name (codes "tenants") then some (codes "t1") else none

abbrev attached_config : LokiCatalogConfig
attached_config = record config {
  tenants =
      record { schema_name = codes "t1"; tenant_id = codes "t1"; label_columns = codes "app" ∷ [] }
      ∷ [];
  label_cache_ttl_ns = pos 0;
  series_max_rows = 100000;
}

attached :
    loki_attach api answer one_string (codes "http://h") one_tenant ≡ some (ok attached_config)
unfolding loki_attach series_cap_of_option resolve_loki_connection_from_options str_eq
    use_best_secret check_attach_labels parse_string_list_option parse_ttl_option
    fetch_loki_label_names names_of_answer discovered_names keep_valid keep_name as_discovery_error
    http_get split_last parse_string_array_response is_valid_label_name is_reserved_column_name
    has_seen
attached = refl

loki_attach-IsValidConfig_example : IsValidConfig api attached_config
loki_attach-IsValidConfig_example =
    loki_attach-IsValidConfig api answer one_string words (codes "http://h") one_tenant
      attached_config attached

abbrev series_scan : LokiSeriesScanGlobalState
series_scan = record {
  endpoint = codes "http://h";
  headers = [];
  request = build_series_request (codes "{app=\"x\"}") (pos 0) (pos 9);
  fetched = false;
  rows = [];
  offset = 0;
  column_ids = 0 ∷ [];
}

abbrev fetched_scan : LokiSeriesScanGlobalState
fetched_scan = record series_scan { fetched = true; rows = [] ∷ [] }

one_series : fetch_series answer one_string new_bind_data series_scan ≡ some (ok fetched_scan)
unfolding fetch_series http_get split_last parse_series_response series_of_answer series_of_response
    as_io
one_series = refl

abbrev not_virtual : ℕ → Bool
not_virtual i = false

series_calls-rows_example :
    (length fetched_scan.rows ≤ new_bind_data.series_max_rows)
    × (series_calls answer one_string not_virtual new_bind_data 2 3 series_scan
        ≡ some (
            ok (
              map
                (series_output_row not_virtual new_bind_data.label_columns series_scan.column_ids)
                fetched_scan.rows)))
series_calls-rows_example =
    series_calls-rows answer one_string not_virtual new_bind_data 1 2 series_scan fetched_scan refl
      refl one_series (omega arith)

abbrev logs : LokiLogsTable
logs = record {
  columns = build_loki_logs_columns (codes "app" ∷ []);
  endpoint = codes "http://h";
  auth = auth;
  label_columns = codes "app" ∷ [];
}

abbrev series : LokiSeriesTable
series = record {
  columns = build_loki_series_columns (codes "app" ∷ []);
  endpoint = codes "http://h";
  auth = auth;
  label_columns = codes "app" ∷ [];
  max_rows = 100;
}

abbrev matchers : List LabelMatcher
matchers = record { label = codes "app"; op = MatchOp.eq; value = codes "x" } ∷ []

abbrev tenant : Bytes → LokiTenant
tenant name = record { schema_name = name; tenant_id = name; label_columns = [] }

abbrev two_tenants : LokiCatalogConfig
two_tenants = record config { tenants = tenant (codes "a") ∷ tenant (codes "b") ∷ [] }

abbrev two_schemas : LokiCatalog
two_schemas = record catalog {
  config = two_tenants;
  current = record {
    address = 1;
    snapshot = build_snapshot two_tenants ([] ∷ (codes "app" ∷ []) ∷ []) 0;
  };
}

lookup_schema-build_schemas_example :
    lookup_schema str_eq two_schemas (codes "db") none (codes "b") OnEntryNotFound.throw_exception
    ≡ ok (
        some (
          new_schema_entry two_tenants
            (record (tenant (codes "b")) { label_columns = codes "app" ∷ [] })))
unfolding build_snapshot pinned_snapshot str_eq
lookup_schema-build_schemas_example =
    lookup_schema-build_schemas str_eq two_tenants two_schemas none (codes "db") (codes "b")
      OnEntryNotFound.throw_exception (tenant (codes "a") ∷ []) [] (tenant (codes "b")) ([] ∷ []) []
      (codes "app" ∷ []) refl refl (refl, tt) refl

abbrev databases : List AttachedDatabase
databases =
    record { name = codes "memory"; loki = none; has_transaction = true }
    ∷ record {
      name = codes "pinned";
      loki = some (record {
        catalog = record two_schemas { config = record two_tenants { labels_pinned = true } };
        transactions = [];
      });
      has_transaction = false;
    }
    ∷ []
