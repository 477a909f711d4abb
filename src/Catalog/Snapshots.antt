-- ===== src/Catalog/Snapshots.antt =====
-- Generations of the schema tree in src/loki/catalog.cpp: how `LokiCatalog` builds, pins, and reads them.
use duckdb_loki.Base.{
  ℕ, ◌+◌, ◌-◌, ◌%◌, ◌^◌, Bool, Option, none, some, List, [], ◌∷◌, ◌++◌, map, Bytes, codes,
  if◌then◌else◌, Exception, catalog_exception, Result, ok, throw,
}
use duckdb_loki.Base.Int.{ℤ, pos, ◌+ℤ◌, ◌-ℤ◌, pos_part, neg_part, int64_max}
use duckdb_loki.Catalog.{
  LokiTenant, LokiCatalogConfig, LokiSchemaEntry, LokiCatalogSnapshot, SnapshotPtr, LokiCatalog,
  LokiTransaction,
}
use duckdb_loki.Catalog.Schema.{new_schema_entry}

-- The loop over the tenants, each with the labels at its place, if there are any.
unfoldable pub build_schemas :
    LokiCatalogConfig → List LokiTenant → List (List Bytes) → List LokiSchemaEntry
build_schemas config [] labels = []
build_schemas config (t ∷ ts) [] = new_schema_entry config t ∷ build_schemas config ts []
build_schemas config (t ∷ ts) (l ∷ ls) =
    new_schema_entry config (record t { label_columns = l }) ∷ build_schemas config ts ls

unfoldable pub build_snapshot : LokiCatalogConfig → List (List Bytes) → ℕ → LokiCatalogSnapshot
unfolding build_schemas
build_snapshot config labels version = record {
  version = version;
  label_columns = labels;
  schemas = build_schemas config config.tenants labels;
}

-- The sum of two `int64_t`, as the machine forms it.
unfoldable pub add_int64 : ℤ → ℤ → ℤ
add_int64 a b =
    let n = (pos_part (a +ℤ b) + 2 ^ 64 + 2 ^ 63 - neg_part (a +ℤ b)) % 2 ^ 64 in
    pos n -ℤ pos (2 ^ 63)

abbrev pub empty_snapshot : LokiCatalogSnapshot
empty_snapshot = record { version = 0; label_columns = []; schemas = [] }

-- The constructor: an empty generation, and no check that falls due.
unfoldable pub new_catalog : LokiCatalogConfig → LokiCatalog
new_catalog config = record {
  config = config;
  current = record { address = 0; snapshot = empty_snapshot };
  retired = [];
  next_check_ns = int64_max;
  next_address = 1;
}

abbrev pub label_columns_of : LokiTenant → List Bytes
label_columns_of t = t.label_columns

unfoldable pub initialize : ℤ → LokiCatalog → LokiCatalog
unfolding build_snapshot add_int64
initialize now_ns c = record c {
  current = record {
    address = c.next_address;
    snapshot = build_snapshot c.config (map label_columns_of c.config.tenants) 0;
  };
  next_check_ns = add_int64 now_ns c.config.label_cache_ttl_ns;
  next_address = c.next_address + 1;
}

unfoldable pub pin_current_snapshot : LokiCatalog → SnapshotPtr
pin_current_snapshot c = c.current

-- The generation that a lookup reads: that of its transaction, if it has one.
unfoldable pub pinned_snapshot : LokiCatalog → Option LokiTransaction → SnapshotPtr
unfolding pin_current_snapshot
pinned_snapshot c none = pin_current_snapshot c
pinned_snapshot c (some transaction) = transaction.snapshot

pub data OnEntryNotFound : Type 0 where
  throw_exception return_null : OnEntryNotFound

abbrev pub schema_not_found : Bytes → Bytes → Exception
schema_not_found name catalog_name = catalog_exception (
    codes "Schema '"
    ++ (name ++ (codes "' not found in loki catalog '" ++ (catalog_name ++ codes "'"))))

module _ (ci_equals : Bytes → Bytes → Bool) where
  unfoldable pub find_schema : Bytes → List LokiSchemaEntry → Option LokiSchemaEntry
  find_schema name [] = none
  find_schema name (schema ∷ schemas) =
      let rest = find_schema name schemas in
      if ci_equals schema.name name then some schema else rest

  unfoldable pub schema_or_failure :
      Bytes → Bytes → OnEntryNotFound → Option LokiSchemaEntry → Result (Option LokiSchemaEntry)
  schema_or_failure name catalog_name if_not_found (some schema) = ok (some schema)
  schema_or_failure name catalog_name OnEntryNotFound.return_null none = ok none
  schema_or_failure name catalog_name OnEntryNotFound.throw_exception none =
      throw (schema_not_found name catalog_name)

  unfoldable pub lookup_schema :
      LokiCatalog
      → Bytes
      → Option LokiTransaction
      → Bytes
      → OnEntryNotFound
      → Result (Option LokiSchemaEntry)
  unfolding find_schema schema_or_failure pinned_snapshot
  lookup_schema c catalog_name transaction name if_not_found =
      schema_or_failure name catalog_name if_not_found
        (find_schema name (pinned_snapshot c transaction).snapshot.schemas)

-- The schemas that the callback of `ScanSchemas` gets, in order.
unfoldable pub scan_schemas : LokiCatalog → LokiTransaction → List LokiSchemaEntry
unfolding pinned_snapshot
scan_schemas c transaction = (pinned_snapshot c (some transaction)).snapshot.schemas

unfoldable pub default_schema_of : List LokiTenant → Bytes
default_schema_of [] = codes "public"
default_schema_of (t ∷ ts) = t.schema_name

unfoldable pub get_default_schema : LokiCatalog → Bytes
unfolding default_schema_of
get_default_schema c = default_schema_of c.config.tenants
