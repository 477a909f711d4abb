-- ===== src/Catalog/Pragma/Pinned.antt =====
-- `PRAGMA loki_refresh_labels` of src/loki/catalog.cpp on databases whose labels are pinned.
use mathlib.Core.Path.{subst}
use duckdb_loki.Base.{
  ℕ, ◌≡◌, ◌⊎◌, refl, ap, ◌∙◌, inl, inr, Bool, true, false, Option, none, some, List, [], ◌∷◌, arith,
  Bytes, ok, All,
}
use duckdb_loki.Base.Int.{ℤ}
use duckdb_loki.HttpClient.{Call, Outcome}
use duckdb_loki.Parse.{Yyjson}
use duckdb_loki.Catalog.{LokiCatalog}
use duckdb_loki.Catalog.Refresh.{maybe_refresh_labels}
use duckdb_loki.Catalog.Transactions.{
  LokiTransactionManager, pins, started, begin_transaction, start_transaction,
}
use duckdb_loki.Catalog.Pragma.{
  AttachedDatabase, manager_of, reach_database, refresh_manager, refreshed_database,
  refresh_reached, refresh_one_database, go_on, refresh_if_loki, refresh_all_databases,
}

-- A database with another catalog, or a loki database whose labels are pinned.
abbrev pub IsLeftAlone : AttachedDatabase → Type 0
IsLeftAlone d =
    (d.loki ≡ none)
    ⊎ ((m : LokiTransactionManager) × (d.loki ≡ some m) × (m.catalog.config.labels_pinned ≡ true))

abbrev pub catalog_of : Option LokiTransactionManager → Option LokiCatalog
catalog_of none = none
catalog_of (some m) = some m.catalog

abbrev pub catalogs_of : List AttachedDatabase → List (Option LokiCatalog)
catalogs_of [] = []
catalogs_of (d ∷ ds) = catalog_of d.loki ∷ catalogs_of ds

module _ (ci_equals : Bytes → Bytes → Bool) (get : Call → Outcome) (y : Yyjson) (now_ns : ℤ)
    (id : ℕ) where
  maybe_refresh_labels_pinned :
      (first_seen : ℤ) (m : LokiTransactionManager)
      → m.catalog.config.labels_pinned ≡ true
      → maybe_refresh_labels ci_equals get y now_ns first_seen true (pins m.transactions) m.catalog
        ≡ some m.catalog
  unfolding maybe_refresh_labels
  maybe_refresh_labels_pinned first_seen m p = ground arith

  reach_database_pinned :
      (has_transaction : Bool) (m : LokiTransactionManager)
      → m.catalog.config.labels_pinned ≡ true
      → (m' : LokiTransactionManager) × (reach_database ci_equals get y now_ns id has_transaction m
          ≡ some m')
        × (m'.catalog ≡ m.catalog)
  unfolding reach_database start_transaction started
  reach_database_pinned true m p = (m, refl, refl)
  reach_database_pinned false m p = (
    (begin_transaction id m.transactions m.catalog).1,
    ap (λ o. manager_of ci_equals get y (started ci_equals get y id m.transactions o))
        (maybe_refresh_labels_pinned m.catalog.next_check_ns m p),
    refl,
  )

  refresh_manager_pinned :
      (name : Bytes) (m : LokiTransactionManager)
      → m.catalog.config.labels_pinned ≡ true
      → refresh_manager ci_equals get y name now_ns true m ≡ some (m, ok tt)
  unfolding refresh_manager
  refresh_manager_pinned name m p = rw p refl

  refresh_one_database_pinned :
      (d : AttachedDatabase) (m : LokiTransactionManager)
      → m.catalog.config.labels_pinned ≡ true
      → (d' : AttachedDatabase) × (refresh_one_database ci_equals get y now_ns id true d (some m)
          ≡ some (d', ok tt))
        × (catalog_of d'.loki ≡ some m.catalog)
  unfolding refresh_one_database refresh_reached refreshed_database
  refresh_one_database_pinned d m p =
      let (m', r, c) = reach_database_pinned d.has_transaction m p in
      let done =
        refresh_manager_pinned d.name m' (ap (λ (x : LokiCatalog). x.config.labels_pinned) c ∙ p) in
      (
        record d { loki = some m'; has_transaction = true },
        ap (refresh_reached ci_equals get y now_ns true d) r
            ∙ ap (refreshed_database ci_equals get y d) done,
        ap some c,
      )

  refresh_if_loki_alone :
      (d : AttachedDatabase) (o : Option LokiTransactionManager)
      → d.loki ≡ o
      → IsLeftAlone d
      → (d' : AttachedDatabase) × (refresh_if_loki ci_equals get y now_ns id d o ≡ some (d', ok tt))
        × (catalog_of d'.loki ≡ catalog_of o)
  unfolding refresh_if_loki
  refresh_if_loki_alone d none e alone = (d, refl, ap catalog_of e)
  refresh_if_loki_alone d (some m) e (inl other) = absurd (cc)
  refresh_if_loki_alone d (some m) e (inr (k, f, p)) =
      let same : k ≡ m = cc in
      refresh_one_database_pinned d m
        (subst (λ (x : LokiTransactionManager). x.catalog.config.labels_pinned ≡ true) same p)

  -- Where every attached database has another catalog or pinned labels, the bare pragma asks no server for
  -- anything, so it cannot fail whatever the servers do, and each catalog is as it was.
  pub refresh_all_databases-catalogs_of :
      (databases : List AttachedDatabase)
      → All IsLeftAlone databases
      → (after : List AttachedDatabase) × (refresh_all_databases ci_equals get y now_ns id databases
          ≡ some (after, ok tt))
        × (catalogs_of after ≡ catalogs_of databases)
  unfolding refresh_all_databases
  refresh_all_databases-catalogs_of [] h = ([], refl, refl)
  refresh_all_databases-catalogs_of (d ∷ rest) (alone, h) =
      let (d', e, c) = refresh_if_loki_alone d d.loki refl alone in
      let (after, f, cs) = refresh_all_databases-catalogs_of rest h in
      (d' ∷ after, unfold go_on in rw (e, f) refl, rw (c, cs) refl)
