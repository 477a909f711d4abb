-- ===== src/Catalog/Steps/SeenColumns.antt =====
-- src/loki/catalog.cpp: the generation and the columns that a transaction sees, from ATTACH on.
use duckdb_loki.Base.{suc, ◌≡◌, refl, ap, List, [], ◌∷◌, map, arith, Bytes, length, All, Bool}
use duckdb_loki.Base.Int.{ℤ}
use duckdb_loki.Parse.{Yyjson}
use duckdb_loki.Scan.ColumnNames.{AreDistinct}
use duckdb_loki.Catalog.{
  DuckdbCatalog, LokiTenant, LokiCatalogConfig, LokiCatalog, LokiTransaction, LokiSchemaEntry,
}
use duckdb_loki.Catalog.Columns.{ComparesNames, names_of, build_loki_logs_columns-AreDistinct}
use duckdb_loki.Catalog.FetchLabels.{AreColumns}
use duckdb_loki.Catalog.Attach.Checks.{IsValidConfig}
use duckdb_loki.Catalog.Schema.{new_schema_entry}
use duckdb_loki.Catalog.Snapshots.{
  build_schemas, initialize, new_catalog, label_columns_of, scan_schemas, pinned_snapshot,
}
use duckdb_loki.Catalog.Steps.Generations.{
  build_snapshot-IsGeneration, IsPin, IsConsistent, Step-IsConsistent,
}
use duckdb_loki.Catalog.Steps.{System, Reach, attached, start, later}

length-label_columns_of : (ts : List LokiTenant) → length (map label_columns_of ts) ≡ length ts
length-label_columns_of [] = refl
length-label_columns_of (t ∷ ts) = ap suc (length-label_columns_of ts)

-- DuckDB takes the columns of both tables of a schema: no name stands twice, in any case.
abbrev pub HasColumns : (Bytes → Bytes → Bool) → LokiSchemaEntry → Type 0
HasColumns ci_equals schema =
    AreDistinct ci_equals (names_of schema.logs_table.columns)
    × AreDistinct ci_equals (names_of schema.series_table.columns)

module _ (ci_equals : Bytes → Bytes → Bool) where
  label_columns_of-All :
      (ts : List LokiTenant)
      → All (λ (t : LokiTenant). AreColumns ci_equals t.label_columns) ts
      → All (AreColumns ci_equals) (map label_columns_of ts)
  label_columns_of-All [] h = tt
  label_columns_of-All (t ∷ ts) (p, h) = (p, label_columns_of-All ts h)

  module _ (compares : ComparesNames ci_equals) (config : LokiCatalogConfig) where
    new_schema_entry-HasColumns :
        (t : LokiTenant)
        → AreColumns ci_equals t.label_columns
        → HasColumns ci_equals (new_schema_entry config t)
    unfolding new_schema_entry
    new_schema_entry-HasColumns t (p, d) =
        build_loki_logs_columns-AreDistinct ci_equals compares t.label_columns p d

    build_schemas-HasColumns :
        (ts : List LokiTenant) (labels : List (List Bytes))
        → length labels ≡ length ts
        → All (AreColumns ci_equals) labels
        → All (HasColumns ci_equals) (build_schemas config ts labels)
    unfolding build_schemas
    build_schemas-HasColumns [] labels many h = tt
    build_schemas-HasColumns (t ∷ ts) [] many h = absurd (omega arith)
    build_schemas-HasColumns (t ∷ ts) (l ∷ ls) many (p, h) = (
      new_schema_entry-HasColumns (record t { label_columns = l }) p,
      build_schemas-HasColumns ts ls (omega arith) h,
    )

module _ (api : DuckdbCatalog) (y : Yyjson) (config : LokiCatalogConfig)
    (valid : IsValidConfig api config) (now_ns : ℤ) where
  open api use {ci_equals}

  attached-IsConsistent : IsConsistent ci_equals config (attached ci_equals y config now_ns)
  unfolding initialize new_catalog
  attached-IsConsistent = record {
    same_config = refl;
    current_generation =
        build_snapshot-IsGeneration ci_equals config (map label_columns_of config.tenants) 0
          (length-label_columns_of config.tenants)
          (label_columns_of-All ci_equals config.tenants valid.columns);
    pinned = tt;
    next = tt;
  }

  Reach-IsConsistent :
      (s : System) → Reach ci_equals y config now_ns s → IsConsistent ci_equals config s
  Reach-IsConsistent s start = attached-IsConsistent
  Reach-IsConsistent u (later {s} r st) =
      Step-IsConsistent ci_equals config y s u st (Reach-IsConsistent s r)

  -- In every state that threads can reach from ATTACH, whatever Loki answers: each transaction reads a
  -- complete generation, with label columns for every tenant; its number is not above that of the current
  -- one, and where the numbers are the same it is the current one.
  pub Reach-IsPin :
      (s : System)
      → Reach ci_equals y config now_ns s
      → All (IsPin ci_equals config s.catalog) s.transactions
  Reach-IsPin s r = (Reach-IsConsistent s r).pinned

  seen-HasColumns :
      (compares : ComparesNames ci_equals) (c : LokiCatalog) (t : LokiTransaction)
      → IsPin ci_equals config c t
      → All (HasColumns ci_equals) (scan_schemas c t)
  unfolding scan_schemas pinned_snapshot
  seen-HasColumns compares c t pin =
      let g = pin.generation in
      rw g.tree (
        build_schemas-HasColumns ci_equals compares config config.tenants
          t.snapshot.snapshot.label_columns g.parallel g.columns)

  all_seen-HasColumns :
      (compares : ComparesNames ci_equals) (c : LokiCatalog) (ts : List LokiTransaction)
      → All (IsPin ci_equals config c) ts
      → All (λ t. All (HasColumns ci_equals) (scan_schemas c t)) ts
  all_seen-HasColumns compares c [] h = tt
  all_seen-HasColumns compares c (t ∷ ts) (pin, h) =
      (seen-HasColumns compares c t pin, all_seen-HasColumns compares c ts h)

  -- No label set that Loki reports can make a table that DuckDB rejects: in every reachable state, every
  -- schema that a transaction lists has no column name twice, in any case, in `logs` or in `series`, if
  -- DuckDB's equality of names is symmetric and tells the fixed names apart.
  pub scan_schemas-HasColumns :
      (s : System)
      → ComparesNames ci_equals
      → Reach ci_equals y config now_ns s
      → All (λ t. All (HasColumns ci_equals) (scan_schemas s.catalog t)) s.transactions
  scan_schemas-HasColumns s compares r =
      all_seen-HasColumns compares s.catalog s.transactions (Reach-IsPin s r)
