-- ===== src/Catalog/Attach/Checks.antt =====
-- What `LokiAttach` of src/loki/catalog.cpp makes sure of before a catalog exists.
use mathlib.Core.Path.{subst}
use duckdb_loki.Base.{
  suc, ◌<◌, ◌≡◌, refl, ap, sym, ◌∙◌, inl, inr, Bool, true, false, not, ◌&&◌, Option, some, List, [],
  ◌∷◌, arith, Bytes, codes, ok, Crashing, bind_ok, throw_if_ok, and_then_ok, All, length,
  Bool-cases,
}
use duckdb_loki.Base.Int.{ℤ, pos, eq_ℤ, eq_of_parts}
use duckdb_loki.HttpClient.{Call, Outcome}
use duckdb_loki.Parse.{Yyjson}
use duckdb_loki.TimeBounds.Duration.{IsSpan}
use duckdb_loki.Connection.Resolve.{resolve_loki_connection_from_options}
use duckdb_loki.Discovery.{no_auth}
use duckdb_loki.Catalog.{DuckdbCatalog, LokiTenant, LokiCatalogConfig, tenant_auth}
use duckdb_loki.Catalog.Options.{
  parse_string_list_option, parse_ttl_option, check_attach_labels, series_cap_of_option,
}
use duckdb_loki.Catalog.Ttl.{HasWords, SpanOrRefused, parse_ttl_option-SpanOrRefused}
use duckdb_loki.Catalog.FetchLabels.{AreColumns}
use duckdb_loki.Catalog.FetchedNames.{Fetched, fetch_loki_label_names-Fetched}
use duckdb_loki.Catalog.Attach.OptionChecks.{
  check_attach_labels-AreColumns, series_cap_of_option-pos,
}
use duckdb_loki.Catalog.Attach.{
  ttl_with_labels, is_given, config_of_options, resolve_labels, resolve_tenant, resolve_tenants,
  all_tenants, loki_attach,
}

-- What holds of the configuration of every attached catalog: a tenant at least, label columns that DuckDB
-- and LogQL take, a cap of one row or more, a lifetime that is an int64 and not negative, and none where the
-- labels are pinned.
pub record IsValidConfig (api : DuckdbCatalog) (config : LokiCatalogConfig) : Type 0 where
  pub some_tenant : 0 < length config.tenants
  pub columns : All (λ (t : LokiTenant). AreColumns api.ci_equals t.label_columns) config.tenants
  pub capped : 0 < config.series_max_rows
  pub lifetime : IsSpan config.label_cache_ttl_ns
  pub pinned : config.labels_pinned ≡ true → config.label_cache_ttl_ns ≡ pos 0

module _ (api : DuckdbCatalog) (get : Call → Outcome) (y : Yyjson) where
  open api use {db}
  open db use {Value}

  abbrev TenantColumns : LokiTenant → Type 0
  TenantColumns t = AreColumns api.ci_equals t.label_columns

  fetched-AreColumns :
      (r : Crashing (List Bytes)) (names : List Bytes)
      → Fetched api.ci_equals y r
      → r ≡ some (ok names)
      → AreColumns api.ci_equals names
  fetched-AreColumns r names h e = subst (Fetched api.ci_equals y) e h

  module _ (config : LokiCatalogConfig) (labels : List Bytes)
      (good : AreColumns api.ci_equals labels) where
    resolve_labels-AreColumns :
        (tid : Bytes) (names : List Bytes)
        → resolve_labels api get y config labels tid ≡ some (ok names)
        → AreColumns api.ci_equals names
    unfolding resolve_labels
    resolve_labels-AreColumns tid names h = elim (Bool-cases config.labels_pinned) [
      | inl p ↦
          let h' : some (ok labels) ≡ some (ok names) = rw p at h in
          let same : labels ≡ names = cc in subst (AreColumns api.ci_equals) same good
      | inr p ↦
          fetched-AreColumns _ names
            (fetch_loki_label_names-Fetched api.ci_equals y get config.endpoint
              (tenant_auth config.auth tid) 10 60)
            (rw p at h)
    ]

    resolve_tenant-columns :
        (schema tid : Bytes) (t : LokiTenant)
        → resolve_tenant api get y config labels schema tid ≡ some (ok t)
        → TenantColumns t
    unfolding resolve_tenant
    resolve_tenant-columns schema tid t h =
        let (names, e, k) = and_then_ok (resolve_labels api get y config labels tid) _ t h in
        let same : names ≡ t.label_columns = ground arith in
        subst (AreColumns api.ci_equals) same (resolve_labels-AreColumns tid names e)

    resolve_tenants-columns :
        (tids : List Bytes) (ts : List LokiTenant)
        → resolve_tenants api get y config labels tids ≡ some (ok ts)
        → All TenantColumns ts × (length ts ≡ length tids)
    unfolding resolve_tenants
    resolve_tenants-columns [] ts h = let same : ts ≡ [] = ground arith in rw same (tt, refl)
    resolve_tenants-columns (tid ∷ tids) ts h =
        let (t, e, k) = and_then_ok (resolve_tenant api get y config labels tid tid) _ ts h in
        let (rest, f, g) = and_then_ok (resolve_tenants api get y config labels tids) _ ts k in
        let same : ts ≡ t ∷ rest = ground arith in
        let (cols, many) = resolve_tenants-columns tids rest f in
        rw same ((resolve_tenant-columns tid tid t e, cols), ap suc many)

    all_tenants-columns :
        (tids : List Bytes) (ts : List LokiTenant)
        → all_tenants api get y config labels tids ≡ some (ok ts)
        → All TenantColumns ts × (0 < length ts)
    unfolding all_tenants
    all_tenants-columns [] ts h =
        let (t, e, k) =
          and_then_ok (resolve_tenant api get y config labels (codes "public") config.auth.tenant) _
            ts h in
        let same : ts ≡ t ∷ [] = ground arith in
        rw same ((resolve_tenant-columns (codes "public") config.auth.tenant t e, tt), omega arith)
    all_tenants-columns (tid ∷ tids) ts h =
        let (cols, many) = resolve_tenants-columns (tid ∷ tids) ts h in (cols, omega arith)

  module _ (words : HasWords api) (path : Bytes) (options : Bytes → Option Value) where
    abbrev explicit_labels : List Bytes
    explicit_labels = parse_string_list_option api options (codes "labels")

    lifetime_of :
        (ttl : ℤ) → parse_ttl_option api options (codes "label_cache_ttl") ≡ ok ttl → IsSpan ttl
    lifetime_of ttl e =
        subst SpanOrRefused e
          (parse_ttl_option-SpanOrRefused api words options (codes "label_cache_ttl"))

    -- The checks of the options, before any request is sent.
    record Checked (config : LokiCatalogConfig) : Type 0 where
      labels_fit : AreColumns api.ci_equals explicit_labels
      capped : 0 < config.series_max_rows
      lifetime : IsSpan config.label_cache_ttl_ns
      pinned : config.labels_pinned ≡ true → config.label_cache_ttl_ns ≡ pos 0

    not_pinned :
        (ttl : ℤ) (given : Bool)
        → (given && not (eq_ℤ ttl (pos 0))) ≡ false
        → given ≡ true
        → ttl ≡ pos 0
    not_pinned ttl given h e = eq_of_parts ttl (pos 0) (ground arith)

    config_of_options-Checked :
        (config : LokiCatalogConfig)
        → config_of_options api path options ≡ ok config
        → Checked config
    unfolding config_of_options
    config_of_options-Checked config h =
        let given = is_given (options (codes "labels")) in
        let (c, _, h1) =
          bind_ok
            (resolve_loki_connection_from_options db path options [] no_auth
              (codes "ATTACH (TYPE loki)"))
            _ config h in
        let (u, fit, h2) = bind_ok (check_attach_labels api [] explicit_labels) _ config h1 in
        let (ttl, e, h3) =
          bind_ok (parse_ttl_option api options (codes "label_cache_ttl")) _ config h2 in
        let (fine, h4) =
          throw_if_ok (given && not (eq_ℤ ttl (pos 0))) ttl_with_labels _ config h3 in
        let (cap, k, h5) =
          bind_ok (series_cap_of_option api (options (codes "series_max_rows"))) _ config h4 in
        let same_ttl : ttl ≡ config.label_cache_ttl_ns = ground arith in
        let same_pin : given ≡ config.labels_pinned = ground arith in
        let same_cap : cap ≡ config.series_max_rows = ground arith in
        record {
          labels_fit = check_attach_labels-AreColumns api [] explicit_labels (tt, tt) fit;
          capped =
              subst (λ n. 0 < n) same_cap
                (series_cap_of_option-pos api (options (codes "series_max_rows")) cap k);
          lifetime = subst IsSpan same_ttl (lifetime_of ttl e);
          pinned = λ p. sym same_ttl ∙ not_pinned ttl given fine (same_pin ∙ p);
        }

    -- An attached catalog has a tenant at least; the label columns of every tenant are valid names, none
    -- reserved and no two the same in any case, whether they were named or discovered; the cap of `series` is
    -- positive; the lifetime is an int64, not negative, and zero where the labels are pinned. DuckDB's
    -- numbers are taken to be machine words.
    pub loki_attach-IsValidConfig :
        (config : LokiCatalogConfig)
        → loki_attach api get y path options ≡ some (ok config)
        → IsValidConfig api config
    unfolding loki_attach
    loki_attach-IsValidConfig config h =
        let (before, e, k) = and_then_ok (some (config_of_options api path options)) _ config h in
        let checked : Checked before = config_of_options-Checked before (ground arith) in
        let tids = parse_string_list_option api options (codes "tenants") in
        let (ts, f, g) =
          and_then_ok (all_tenants api get y before explicit_labels tids) _ config k in
        let (cols, many) =
          all_tenants-columns before explicit_labels checked.labels_fit tids ts f in
        let same : record before { tenants = ts } ≡ config = ground arith in
        subst (IsValidConfig api) same (record {
          some_tenant = many;
          columns = cols;
          capped = checked.capped;
          lifetime = checked.lifetime;
          pinned = checked.pinned;
        })
