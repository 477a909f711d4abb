-- ===== src/Tests/Threads.antt =====
-- The theorems on the threads of src/loki/catalog.cpp at concrete steps: a transaction starts, and another thread
-- publishes a generation with one more column.
use duckdb_loki.Base.{
  ℕ, ◌≡◌, ◌<◌, ◌↔◌, refl, some, none, ok, true, false, [], ◌∷◌, codes, str_eq, arith, Bytes, All,
}
use duckdb_loki.Base.Int.{pos}
use duckdb_loki.Base.Find.{split_last}
use duckdb_loki.HttpClient.{http_get}
use duckdb_loki.Parse.{parse_string_array_response}
use duckdb_loki.Logql.{is_valid_label_name}
use duckdb_loki.Connection.{Duckdb}
use duckdb_loki.Scan.ColumnNames.{is_reserved_column_name, has_seen}
use duckdb_loki.Catalog.{DuckdbCatalog, LokiTransaction, tenant_auth}
use duckdb_loki.Catalog.Columns.{ComparesNames}
use duckdb_loki.Catalog.FetchLabels.{
  fetch_loki_label_names, names_of_answer, discovered_names, keep_valid, keep_name,
  as_discovery_error,
}
use duckdb_loki.Catalog.Snapshots.{
  initialize, pin_current_snapshot, new_catalog, build_snapshot, lookup_schema, scan_schemas,
  OnEntryNotFound,
}
use duckdb_loki.Catalog.Refresh.{
  fetch_all, next_version, label_columns_eq, names_eq, publish, count,
}
use duckdb_loki.Catalog.Transactions.{
  LokiTransactionManager, begin_transaction, start_transaction, started,
}
use duckdb_loki.Catalog.Attach.Checks.{IsValidConfig}
use duckdb_loki.Catalog.Steps.{
  System, Refresher, Step, Reach, attached, find_transaction, start, later,
}
use duckdb_loki.Catalog.Steps.Invariant.{owned, IsSound, Reach-IsSound}
use duckdb_loki.Catalog.Steps.SeenColumns.{HasColumns, scan_schemas-HasColumns}
use duckdb_loki.Catalog.Steps.Isolation.{StepsDuring, lookup_schema-StepsDuring}
use duckdb_loki.Catalog.Steps.Freed.{publish-owned}
use duckdb_loki.Catalog.Steps.Runs.{Run, system_of, start_transaction-Run}
use duckdb_loki.Tests.Catalogs.{
  answer, one_string, config, catalog, labels, generation, refreshed, maybe_refresh_app,
}

abbrev reader : LokiTransaction
reader = record { id = 7; snapshot = catalog.current }

abbrev at_start : System
at_start = attached str_eq one_string config (pos 0)

abbrev reading : System
reading = record at_start { transactions = reader ∷ [] }

abbrev fetching : System
fetching = record reading { refresher = Refresher.fetching }

abbrev built : System
built = record reading { refresher = Refresher.built generation }

abbrev published : System
published = record reading {
  refresher = Refresher.done;
  catalog = publish (catalog.current ∷ []) generation catalog;
}

reached : Reach str_eq one_string config (pos 0) reading
unfolding pin_current_snapshot
reached = later start (Step.begin_transaction 7 refl refl)

all_fetched :
    fetch_all str_eq answer one_string catalog.config false catalog.config.tenants
    ≡ some (ok labels)
unfolding initialize new_catalog fetch_all tenant_auth fetch_loki_label_names names_of_answer
    discovered_names keep_valid keep_name as_discovery_error http_get split_last
    parse_string_array_response is_valid_label_name is_reserved_column_name str_eq has_seen
all_fetched = refl

abbrev locks : Step str_eq one_string reading fetching
locks = Step.lock_refresh refl refl

abbrev builds : Step str_eq one_string fetching built
unfolding next_version label_columns_eq names_eq initialize new_catalog build_snapshot
builds = Step.check_labels answer false labels refl all_fetched refl

abbrev publishes : Step str_eq one_string built published
publishes = Step.publish_snapshot generation refl refl

steps : StepsDuring str_eq one_string 7 reading published
unfolding next_version label_columns_eq names_eq initialize new_catalog build_snapshot
steps =
    StepsDuring.one_more
      (StepsDuring.one_more (StepsDuring.one_more StepsDuring.none_yet locks tt) builds tt)
      publishes tt

lookup_schema-StepsDuring_example :
    ((catalog_name name : Bytes) (if_not_found : OnEntryNotFound)
      → lookup_schema str_eq published.catalog catalog_name
          (find_transaction 7 published.transactions)
          name
          if_not_found
        ≡ lookup_schema str_eq reading.catalog catalog_name
            (find_transaction 7 reading.transactions)
            name
            if_not_found)
    × (scan_schemas published.catalog reader ≡ scan_schemas reading.catalog reader)
    × (0 < owned published.catalog reader.snapshot.address)
lookup_schema-StepsDuring_example =
    lookup_schema-StepsDuring str_eq one_string config (pos 0) 7 reader reading published reached
      refl steps

-- DuckDB's catalog functions over values that are texts.
abbrev db : Duckdb
db = record {
  Value = Bytes;
  is_null = λ v. false;
  to_string = λ v. v;
  map_entries = λ v. [];
  interval_of = λ v. none;
  cast_to_timestamp = λ v. v;
  epoch_nanoseconds = λ v. none;
  Secret = ℕ;
  secret_type = λ s. codes "loki";
  secret_name = λ s. codes "x";
  is_key_value = λ s. true;
  try_get_value = λ s name. none;
  match_score = λ s path. pos 0;
  secret_by_name = λ name. none;
  lookup_secret = λ path. none;
  all_secrets = [];
  lower = λ s. s;
}

abbrev pub api : DuckdbCatalog
api = record {
  db = db;
  list_children = λ v. none;
  get_integral = λ v. none;
  ci_equals = str_eq;
  split = λ text c. text ∷ [];
  trim = λ text. text;
}

valid : IsValidConfig api config
valid = record {
  some_tenant = omega arith;
  columns = ((tt, tt), tt);
  capped = omega arith;
  lifetime = omega arith;
  pinned = λ p. cc;
}

str_eq_sym : (a b : Bytes) → str_eq a b ≡ str_eq b a
unfolding str_eq
str_eq_sym [] [] = refl
str_eq_sym [] (d ∷ b) = refl
str_eq_sym (c ∷ a) [] = refl
str_eq_sym (c ∷ a) (d ∷ b) = ground (arith, str_eq_sym a b)

compares : ComparesNames str_eq
unfolding str_eq
compares = record {
  symmetric = str_eq_sym;
  fixed_apart = ((refl, (refl, (refl, tt))), ((refl, (refl, tt)), ((refl, tt), (tt, tt))));
}

later_reached : Reach str_eq one_string config (pos 0) published
later_reached = later (later (later reached locks) builds) publishes

scan_schemas-HasColumns_example :
    All (λ t. All (HasColumns str_eq) (scan_schemas published.catalog t)) published.transactions
scan_schemas-HasColumns_example =
    scan_schemas-HasColumns api one_string config valid (pos 0) published compares later_reached

sound : IsSound catalog []
unfolding count
sound = Reach-IsSound str_eq one_string config (pos 0) at_start start

publish-owned_example : (0 < owned (publish [] generation catalog) 1) ↔ (0 < count 1 [])
unfolding initialize new_catalog
publish-owned_example = publish-owned catalog [] generation sound 1 (omega arith)

abbrev manager : LokiTransactionManager
manager = record { catalog = catalog; transactions = [] }

abbrev later_reader : LokiTransaction
later_reader = record { id = 8; snapshot = refreshed.current }

started_app :
    start_transaction str_eq answer one_string (pos 2000) (pos 1000) true 8 manager
    ≡ some (later_reader, record { catalog = refreshed; transactions = later_reader ∷ [] })
unfolding start_transaction started begin_transaction pin_current_snapshot
started_app = rw maybe_refresh_app refl

start_transaction-Run_example :
    Run str_eq one_string
      (system_of manager)
      (system_of (record { catalog = refreshed; transactions = later_reader ∷ [] }))
start_transaction-Run_example =
    start_transaction-Run str_eq one_string answer manager (pos 2000) (pos 1000) true 8 later_reader
      (record { catalog = refreshed; transactions = later_reader ∷ [] }) refl started_app
