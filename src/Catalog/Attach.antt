-- ===== src/Catalog/Attach.antt =====
-- `LokiAttach` of src/loki/catalog.cpp: the configuration of an attached catalog.
pub mod OptionChecks
pub mod Checks
use duckdb_loki.Base.{
  ℕ, Bool, true, false, not, ◌&&◌, Option, none, some, List, [], ◌∷◌, ◌++◌, Bytes, codes,
  if◌then◌else◌, Exception, binder_exception, Result, ok, throw, ◌>>=◌, ◌>>◌, throw_if, Crashing,
  and_then,
}
use duckdb_loki.Base.Int.{ℤ, pos, eq_ℤ}
use duckdb_loki.HttpClient.{Call, Outcome}
use duckdb_loki.Parse.{Yyjson}
use duckdb_loki.Connection.Resolve.{Connected, resolve_loki_connection_from_options}
use duckdb_loki.Discovery.{no_auth}
use duckdb_loki.Catalog.{DuckdbCatalog, LokiTenant, LokiCatalogConfig, tenant_auth}
use duckdb_loki.Catalog.Options.{
  parse_string_list_option, parse_ttl_option, check_attach_labels, series_cap_of_option,
}
use duckdb_loki.Catalog.FetchLabels.{fetch_loki_label_names}

abbrev pub ttl_with_labels : Exception
ttl_with_labels = binder_exception (
    codes
      "ATTACH (TYPE loki): `label_cache_ttl` applies to auto-discovered label columns, but `labels` was given, which pins them; drop one of the two options")

abbrev pub is_given {ℓ} : {A : Type ℓ} → Option A → Bool
is_given none = false
is_given (some a) = true

module _ (api : DuckdbCatalog) where
  open api use {db}
  open db use {Value}

  -- The configuration that the options give, before its tenants are known.
  unfoldable pub config_of_options : Bytes → (Bytes → Option Value) → Result LokiCatalogConfig
  config_of_options path options = do
    c ← resolve_loki_connection_from_options db path options [] no_auth (codes "ATTACH (TYPE loki)")
    check_attach_labels api [] (parse_string_list_option api options (codes "labels"))
    ttl ← parse_ttl_option api options (codes "label_cache_ttl")
    throw_if (is_given (options (codes "labels")) && not (eq_ℤ ttl (pos 0))) ttl_with_labels
    cap ← series_cap_of_option api (options (codes "series_max_rows"))
    ok (record {
      endpoint = c.endpoint;
      auth = c.auth;
      tenants = [];
      labels_pinned = is_given (options (codes "labels"));
      label_cache_ttl_ns = ttl;
      series_max_rows = cap;
    })

module _ (api : DuckdbCatalog) (get : Call → Outcome) (y : Yyjson) where
  open api use {db}
  open db use {Value}

  -- The columns of a tenant: the labels that ATTACH names, or those that are discovered.
  unfoldable pub resolve_labels : LokiCatalogConfig → List Bytes → Bytes → Crashing (List Bytes)
  resolve_labels config explicit_labels tenant_id =
      if config.labels_pinned
      then some (ok explicit_labels)
      else fetch_loki_label_names api.ci_equals get y config.endpoint
          (tenant_auth config.auth tenant_id) 10 60

  unfoldable pub resolve_tenant :
      LokiCatalogConfig → List Bytes → Bytes → Bytes → Crashing LokiTenant
  unfolding resolve_labels
  resolve_tenant config explicit_labels schema_name tenant_id =
      and_then (resolve_labels config explicit_labels tenant_id) λ label_columns. some (
        ok (record {
          schema_name = schema_name;
          tenant_id = tenant_id;
          label_columns = label_columns;
        }))

  unfoldable pub resolve_tenants :
      LokiCatalogConfig → List Bytes → List Bytes → Crashing (List LokiTenant)
  unfolding resolve_tenant
  resolve_tenants config explicit_labels [] = some (ok [])
  resolve_tenants config explicit_labels (tid ∷ tids) =
      let others = resolve_tenants config explicit_labels tids in
      and_then (resolve_tenant config explicit_labels tid tid)
        λ tenant. and_then others λ tenants. some (ok (tenant ∷ tenants))

  -- One schema for each tenant that ATTACH names, or a single one, `public`.
  unfoldable pub all_tenants :
      LokiCatalogConfig → List Bytes → List Bytes → Crashing (List LokiTenant)
  unfolding resolve_tenants
  all_tenants config explicit_labels [] =
      and_then (resolve_tenant config explicit_labels (codes "public") config.auth.tenant)
        λ tenant. some (ok (tenant ∷ []))
  all_tenants config explicit_labels (tid ∷ tids) =
      resolve_tenants config explicit_labels (tid ∷ tids)

  -- `none` where the process crashes.
  unfoldable pub loki_attach : Bytes → (Bytes → Option Value) → Crashing LokiCatalogConfig
  unfolding config_of_options all_tenants
  loki_attach path options = and_then (some (config_of_options api path options)) λ config.
      and_then
        (all_tenants config (parse_string_list_option api options (codes "labels"))
          (parse_string_list_option api options (codes "tenants")))
        λ tenants. some (ok (record config { tenants = tenants }))
