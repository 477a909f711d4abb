-- ===== src/Catalog.antt =====
-- src/include/loki/catalog.hpp and src/loki/catalog.cpp: the catalog that ATTACH makes, its generations
-- and its tables, and what it reads of DuckDB.
pub mod Columns
pub mod FetchLabels
pub mod FetchedNames
pub mod Options
pub mod Ttl
pub mod Attach
pub mod Schema
pub mod Series
pub mod SeriesRows
pub mod EmptySelector
pub mod TableScans
pub mod Snapshots
pub mod Lookup
pub mod Refresh
pub mod Transactions
pub mod Pragma
pub mod Steps
use duckdb_loki.Base.{ℕ, Bool, Option, List, [], Bytes, Result}
use duckdb_loki.Base.Int.{ℤ, pos}
use duckdb_loki.Auth.{AuthConfig}
use duckdb_loki.Connection.{Duckdb}
use duckdb_loki.Catalog.Columns.{ColumnDefinition}

-- DuckDB's values and texts, beyond those of a connection.
pub record DuckdbCatalog : Type 1 where
  pub db : Duckdb
  -- `type().id() == LogicalTypeId::LIST` with `ListValue::GetChildren`, where the value is a list
  pub list_children : db.Value → Option (List db.Value)
  -- `type().IsIntegral()` with `GetValue<int64_t>`, which throws where the value does not fit
  pub get_integral : db.Value → Option (Result ℤ)
  -- `StringUtil::CIEquals`, `Split` and `Trim`
  pub ci_equals : Bytes → Bytes → Bool
  pub split : Bytes → ℕ → List Bytes
  pub trim : Bytes → Bytes

pub record LokiTenant : Type 0 where
  pub schema_name : Bytes
  pub tenant_id : Bytes
  pub label_columns : List Bytes

pub record LokiCatalogConfig : Type 0 where
  pub endpoint : Bytes
  pub auth : AuthConfig
  pub tenants : List LokiTenant
  pub labels_pinned : Bool
  pub label_cache_ttl_ns : ℤ
  pub series_max_rows : ℕ

pub record LokiLogsTable : Type 0 where
  pub columns : List ColumnDefinition
  pub endpoint : Bytes
  pub auth : AuthConfig
  pub label_columns : List Bytes

pub record LokiLabelsTable : Type 0 where
  pub columns : List ColumnDefinition
  pub endpoint : Bytes
  pub auth : AuthConfig

pub record LokiSeriesTable : Type 0 where
  pub columns : List ColumnDefinition
  pub endpoint : Bytes
  pub auth : AuthConfig
  pub label_columns : List Bytes
  pub max_rows : ℕ

pub record LokiSchemaEntry : Type 0 where
  pub name : Bytes
  pub logs_table : LokiLogsTable
  pub labels_table : LokiLabelsTable
  pub series_table : LokiSeriesTable

-- One generation of the schema tree; nothing changes it once it is published.
pub record LokiCatalogSnapshot : Type 0 where
  pub version : ℕ
  pub label_columns : List (List Bytes)
  pub schemas : List LokiSchemaEntry

-- A `shared_ptr<const LokiCatalogSnapshot>`: copies of one pointer have one address.
pub record SnapshotPtr : Type 0 where
  pub address : ℕ
  pub snapshot : LokiCatalogSnapshot

-- The members of `LokiCatalog` that change, and the address that the next allocation gets. `current` is
-- never null: the constructor sets it.
pub record LokiCatalog : Type 0 where
  pub config : LokiCatalogConfig
  pub current : SnapshotPtr
  pub retired : List SnapshotPtr
  pub next_check_ns : ℤ
  pub next_address : ℕ

-- A transaction by its number, with the generation that it pins.
pub record LokiTransaction : Type 0 where
  pub id : ℕ
  pub snapshot : SnapshotPtr

-- The auth of a tenant: the header of the tenant replaces that of the connection, if it has one.
unfoldable pub tenant_auth : AuthConfig → Bytes → AuthConfig
tenant_auth auth [] = auth
tenant_auth auth tenant_id = record auth { tenant = tenant_id }
