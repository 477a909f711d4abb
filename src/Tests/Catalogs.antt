-- ===== src/Tests/Catalogs.antt =====
-- The theorems on src/loki/catalog.cpp at concrete inputs: a server with one label, and a catalog of one tenant.
use duckdb_loki.Catalog.Refresh.Lifetime.{
  is_due, Checked, maybe_refresh_labels-Checked, maybe_refresh_labels_quiet,
}
use duckdb_loki.Catalog.Refresh.Overflow.{AllChecked, initialize_overflow}
use duckdb_loki.Catalog.Refresh.Atomic.{FetchedFor, Refreshed, do_refresh-Refreshed}
use duckdb_loki.Catalog.Refresh.{
  do_refresh, fetch_all, publish_version, next_version, label_columns_eq, names_eq, publish,
  maybe_refresh_labels, after_ttl_refresh,
}
use duckdb_loki.Catalog.Snapshots.{initialize, new_catalog, build_snapshot, add_int64}
use duckdb_loki.Base.Find.{split_last}
use duckdb_loki.Base.{
  ℕ, ◌≡◌, refl, some, ok, [], ◌∷◌, codes, str_eq, arith, Bytes, true, false, List, ◌⊎◌,
}
use duckdb_loki.Base.Int.{pos, ◌+ℤ◌, ◌-ℤ◌}
use duckdb_loki.Auth.{AuthConfig}
use duckdb_loki.HttpClient.{Call, Outcome, answered, http_get, failed}
use duckdb_loki.Parse.{Yyjson, parse_string_array_response}
use duckdb_loki.Logql.{is_valid_label_name}
use duckdb_loki.Scan.ColumnNames.{is_reserved_column_name, has_seen}
use duckdb_loki.Catalog.{LokiCatalogConfig, LokiCatalog, tenant_auth, LokiCatalogSnapshot}
use duckdb_loki.Catalog.FetchLabels.{
  fetch_loki_label_names, names_of_answer, discovered_names, keep_valid, keep_name,
  as_discovery_error,
}

abbrev pub offline : Call → Outcome
offline call = failed (codes "no route")

abbrev pub answer : Call → Outcome
answer call = answered (pos 200) (codes "[app]")

-- A reader of JSON to which every text is an array of one string.
abbrev pub one_string : Yyjson
one_string = record {
  Val = ℕ;
  read = λ text. some 0;
  obj_get = λ v key. some 1;
  arr_items = λ v. some (2 ∷ []);
  get_str = λ v. some (codes "app");
  obj_entries = λ v. [];
}

abbrev pub auth : AuthConfig
auth = record { token = []; username = []; password = []; tenant = []; extra_headers = [] }

app_fetched :
    fetch_loki_label_names str_eq answer one_string (codes "http://h") auth 5 5
    ≡ some (ok (codes "app" ∷ []))
unfolding fetch_loki_label_names names_of_answer discovered_names keep_valid keep_name
    as_discovery_error http_get split_last parse_string_array_response is_valid_label_name
    is_reserved_column_name str_eq has_seen
app_fetched = refl

abbrev pub config : LokiCatalogConfig
config = record {
  endpoint = codes "http://h";
  auth = auth;
  tenants = record { schema_name = codes "public"; tenant_id = []; label_columns = [] } ∷ [];
  labels_pinned = false;
  label_cache_ttl_ns = pos 1000;
  series_max_rows = 100;
}

abbrev pub catalog : LokiCatalog
catalog = initialize (pos 0) (new_catalog config)

abbrev pub labels : List (List Bytes)
labels = (codes "app" ∷ []) ∷ []

abbrev pub generation : LokiCatalogSnapshot
generation = build_snapshot config labels 1

do_refresh_app :
    do_refresh str_eq answer one_string true [] catalog
    ≡ some (ok (true, publish [] generation catalog))
unfolding do_refresh fetch_all tenant_auth publish_version next_version label_columns_eq names_eq
    initialize new_catalog build_snapshot fetch_loki_label_names names_of_answer discovered_names
    keep_valid keep_name as_discovery_error http_get split_last parse_string_array_response
    is_valid_label_name is_reserved_column_name str_eq has_seen
do_refresh_app = refl

do_refresh-Refreshed_example :
    (fetched : List (List Bytes)) × FetchedFor str_eq answer one_string catalog.config true
      catalog.config.tenants fetched
    × Refreshed str_eq answer one_string fetched catalog true (publish [] generation catalog)
do_refresh-Refreshed_example =
    do_refresh-Refreshed str_eq answer one_string true [] catalog (publish [] generation catalog)
      true do_refresh_app

abbrev pub refreshed : LokiCatalog
refreshed = record (publish [] generation catalog) { next_check_ns = pos 3000 }

pub maybe_refresh_app :
    maybe_refresh_labels str_eq answer one_string (pos 2000) (pos 1000) true [] catalog
    ≡ some refreshed
unfolding maybe_refresh_labels after_ttl_refresh add_int64 publish do_refresh fetch_all tenant_auth
    publish_version next_version label_columns_eq names_eq initialize new_catalog build_snapshot
    ◌+ℤ◌ ◌-ℤ◌ fetch_loki_label_names names_of_answer discovered_names keep_valid keep_name
    as_discovery_error http_get split_last parse_string_array_response is_valid_label_name
    is_reserved_column_name str_eq has_seen
maybe_refresh_app = refl

due : is_due str_eq answer one_string (pos 2000) (pos 1000) true catalog ≡ true
unfolding initialize new_catalog add_int64 ◌+ℤ◌ ◌-ℤ◌
due = refl

maybe_refresh_labels-Checked_example :
    ((is_due str_eq answer one_string (pos 2000) (pos 1000) true catalog ≡ false)
      × (refreshed ≡ catalog))
    ⊎ ((is_due str_eq answer one_string (pos 2000) (pos 1000) true catalog ≡ true)
        × Checked str_eq answer one_string (pos 2000) catalog refreshed)
maybe_refresh_labels-Checked_example =
    maybe_refresh_labels-Checked str_eq answer one_string (pos 2000) (pos 1000) true [] catalog
      refreshed maybe_refresh_app

maybe_refresh_labels_quiet_example :
    maybe_refresh_labels str_eq offline one_string
      (pos 2999)
      refreshed.next_check_ns
      true
      []
      refreshed
    ≡ some refreshed
unfolding initialize new_catalog
maybe_refresh_labels_quiet_example =
    maybe_refresh_labels_quiet str_eq answer one_string 2000 1000 2999 (pos 1000) true [] catalog
      refreshed refl (omega arith) maybe_refresh_app due (omega arith) offline true []

abbrev forever : LokiCatalog
forever = new_catalog (record config { label_cache_ttl_ns = pos 9000000000000000000 })

initialize_overflow_example :
    AllChecked str_eq one_string (initialize (pos 1000000000000000000) forever) (
      record { time = 1000000000000000000; get = offline; holders = [] }
      ∷ record { time = 1000000000000000001; get = answer; holders = [] }
      ∷ [])
unfolding new_catalog
initialize_overflow_example =
    initialize_overflow str_eq one_string 1000000000000000000 9000000000000000000 forever
      (record { time = 1000000000000000000; get = offline; holders = [] }
        ∷ record { time = 1000000000000000001; get = answer; holders = [] }
        ∷ [])
      refl refl (omega arith) (omega arith) (omega arith)
      ((omega arith, omega arith), ((omega arith, omega arith), tt))
