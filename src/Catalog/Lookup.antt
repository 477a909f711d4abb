-- ===== src/Catalog/Lookup.antt =====
-- `LookupSchema` of src/loki/catalog.cpp: which tenant a name finds.
use duckdb_loki.Base.{
  ◌≡◌, refl, Bool, true, false, Option, some, List, [], ◌∷◌, ◌++◌, arith, Bytes, ok, length, All,
}
use duckdb_loki.Catalog.{LokiTenant, LokiCatalogConfig, LokiCatalog, LokiTransaction}
use duckdb_loki.Catalog.Schema.{new_schema_entry}
use duckdb_loki.Catalog.Snapshots.{
  build_schemas, find_schema, schema_or_failure, lookup_schema, pinned_snapshot, OnEntryNotFound,
}

module _ (ci_equals : Bytes → Bytes → Bool) (config : LokiCatalogConfig) where
  -- The first tenant of the name is found, with the labels at its place.
  find_schema-build_schemas :
      (name : Bytes) (before after : List LokiTenant) (t : LokiTenant)
      (labels_before labels_after : List (List Bytes)) (labels : List Bytes)
      → length labels_before ≡ length before
      → All (λ (u : LokiTenant). ci_equals u.schema_name name ≡ false) before
      → ci_equals t.schema_name name ≡ true
      → find_schema ci_equals name
          (build_schemas config (before ++ t ∷ after) (labels_before ++ labels ∷ labels_after))
        ≡ some (new_schema_entry config (record t { label_columns = labels }))
  unfolding find_schema build_schemas new_schema_entry
  find_schema-build_schemas name [] after t [] la labels many others same = rw same refl
  find_schema-build_schemas name [] after t (l ∷ lb) la labels many others same =
      absurd (omega arith)
  find_schema-build_schemas name (u ∷ before) after t [] la labels many others same =
      absurd (omega arith)
  find_schema-build_schemas name (u ∷ before) after t (l ∷ lb) la labels many (other, others) same =
      rw other
        (find_schema-build_schemas name before after t lb la labels (omega arith) others same)

  -- A name finds the schema of the first tenant whose schema has that name in any case, with the labels at the
  -- tenant's place; so where the names of two tenants differ in case only, or not at all, the second tenant's
  -- schema is never found.
  pub lookup_schema-build_schemas :
      (c : LokiCatalog) (transaction : Option LokiTransaction) (catalog_name name : Bytes)
      (if_not_found : OnEntryNotFound) (before after : List LokiTenant) (t : LokiTenant)
      (labels_before labels_after : List (List Bytes)) (labels : List Bytes)
      → (pinned_snapshot c transaction).snapshot.schemas
        ≡ build_schemas config (before ++ t ∷ after) (labels_before ++ labels ∷ labels_after)
      → length labels_before ≡ length before
      → All (λ (u : LokiTenant). ci_equals u.schema_name name ≡ false) before
      → ci_equals t.schema_name name ≡ true
      → lookup_schema ci_equals c catalog_name transaction name if_not_found
        ≡ ok (some (new_schema_entry config (record t { label_columns = labels })))
  unfolding lookup_schema schema_or_failure
  lookup_schema-build_schemas c transaction catalog_name name if_not_found before after t lb la
        labels tree many others same =
      rw (tree, find_schema-build_schemas name before after t lb la labels many others same) refl
