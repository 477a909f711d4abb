-- ===== src/Catalog/Schema.antt =====
-- `LokiSchemaEntry` and its three tables, of src/loki/catalog.cpp: their construction, the lookups, what a
-- scan of a table starts with, and the operations that would change something.
use duckdb_loki.Base.{
  Bool, true, Option, none, some, List, [], ◌∷◌, Bytes, codes, if◌then◌else◌, Exception,
  not_implemented_exception, Result, throw,
}
use duckdb_loki.Base.Int.{ℤ, negsuc, ◌-ℤ◌}
use duckdb_loki.HttpRequest.{build_labels_request}
use duckdb_loki.Scan.{LokiScanBindData, new_bind_data, loki_nanos_per_hour}
use duckdb_loki.Discovery.{DiscoveryKind, LokiDiscoveryBindData}
use duckdb_loki.Catalog.Columns.{
  LogicalType, column, build_loki_logs_columns, build_loki_series_columns,
}
use duckdb_loki.Catalog.{
  LokiTenant, LokiCatalogConfig, LokiLogsTable, LokiLabelsTable, LokiSeriesTable, LokiSchemaEntry,
  tenant_auth,
}

-- The constructor.
unfoldable pub new_schema_entry : LokiCatalogConfig → LokiTenant → LokiSchemaEntry
new_schema_entry config tenant =
    let auth = tenant_auth config.auth tenant.tenant_id in
    record {
      name = tenant.schema_name;
      logs_table = record {
        columns = build_loki_logs_columns tenant.label_columns;
        endpoint = config.endpoint;
        auth = auth;
        label_columns = tenant.label_columns;
      };
      labels_table = record {
        columns = column (codes "label") LogicalType.varchar ∷ [];
        endpoint = config.endpoint;
        auth = auth;
      };
      series_table = record {
        columns = build_loki_series_columns tenant.label_columns;
        endpoint = config.endpoint;
        auth = auth;
        label_columns = tenant.label_columns;
        max_rows = config.series_max_rows;
      };
    }

pub data CatalogType : Type 0 where
  table_entry other_entry : CatalogType

pub data CatalogEntry : Type 0 where
  logs_entry : LokiLogsTable → CatalogEntry
  labels_entry : LokiLabelsTable → CatalogEntry
  series_entry : LokiSeriesTable → CatalogEntry

-- The entries that the callback of `Scan` gets, in order.
unfoldable pub scan : CatalogType → LokiSchemaEntry → List CatalogEntry
scan CatalogType.table_entry schema =
    logs_entry schema.logs_table
    ∷ labels_entry schema.labels_table
    ∷ series_entry schema.series_table
    ∷ []
scan CatalogType.other_entry schema = []

module _ (ci_equals : Bytes → Bytes → Bool) where
  unfoldable pub lookup_entry : CatalogType → Bytes → LokiSchemaEntry → Option CatalogEntry
  lookup_entry CatalogType.other_entry name schema = none
  lookup_entry CatalogType.table_entry name schema =
      if ci_equals name (codes "logs")
      then some (logs_entry schema.logs_table)
      else if ci_equals name (codes "labels")
      then some (labels_entry schema.labels_table)
      else if ci_equals name (codes "series")
      then some (series_entry schema.series_table)
      else none

-- What the three `GetScanFunction` hand to a scan.
unfoldable pub logs_bind_data : LokiLogsTable → ℤ → LokiScanBindData
logs_bind_data table now_ns = record new_bind_data {
  pushdown_mode = true;
  base_selector = [];
  endpoint = table.endpoint;
  auth = table.auth;
  label_columns = table.label_columns;
  fn_name = codes "loki logs";
  selector_hint = codes "add a WHERE equality/IN on a label column, e.g. WHERE job = 'api'";
  end_ns = now_ns;
  start_ns = now_ns -ℤ loki_nanos_per_hour;
}

unfoldable pub labels_bind_data : LokiLabelsTable → LokiDiscoveryBindData
labels_bind_data table = record {
  kind = DiscoveryKind.kind_labels;
  endpoint = table.endpoint;
  auth = table.auth;
  request = build_labels_request (negsuc 0) (negsuc 0);
}

unfoldable pub series_bind_data : LokiSeriesTable → ℤ → LokiScanBindData
series_bind_data table now_ns = record new_bind_data {
  pushdown_mode = true;
  base_selector = [];
  endpoint = table.endpoint;
  auth = table.auth;
  label_columns = table.label_columns;
  fn_name = codes "loki series";
  series_max_rows = table.max_rows;
  end_ns = now_ns;
  start_ns = now_ns -ℤ loki_nanos_per_hour;
}

abbrev pub read_only : Exception
read_only = not_implemented_exception (
    codes
      "loki catalog is read-only: ATTACH exposes Loki for querying only (no CREATE/INSERT/UPDATE/DELETE)")

-- The operations of the catalog that would change it; the plans are of statements that write.
pub data CatalogMutation : Type 0 where
  create_schema drop_schema plan_create_table_as : CatalogMutation
  plan_insert plan_delete plan_update : CatalogMutation

-- The operations of a schema that would change it.
pub data SchemaMutation : Type 0 where
  create_table create_function create_index create_view create_sequence : SchemaMutation
  create_table_function create_copy_function create_pragma_function : SchemaMutation
  create_collation create_type drop_entry alter : SchemaMutation

unfoldable pub mutate_catalog {ℓ} : {A : Type ℓ} → CatalogMutation → Result A
mutate_catalog operation = throw read_only

unfoldable pub mutate_schema {ℓ} : {A : Type ℓ} → SchemaMutation → Result A
mutate_schema operation = throw read_only
