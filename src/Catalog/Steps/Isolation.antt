-- ===== src/Catalog/Steps/Isolation.antt =====
-- src/loki/catalog.cpp: a transaction sees one generation, whatever other threads do.
use duckdb_loki.Base.{ℕ, ◌<◌, ◌≡◌, ◌≢◌, refl, ◌∙◌, Bool, some, List, [], ◌∷◌, arith, Bytes}
use duckdb_loki.Base.Int.{ℤ}
use duckdb_loki.Parse.{Yyjson}
use duckdb_loki.Catalog.{LokiCatalogConfig, LokiTransaction}
use duckdb_loki.Catalog.Snapshots.{OnEntryNotFound, lookup_schema, pinned_snapshot, scan_schemas}
use duckdb_loki.Catalog.Refresh.{count}
use duckdb_loki.Catalog.Transactions.{pins, erase_transaction}
use duckdb_loki.Catalog.Steps.Invariant.{owned, Reach-IsSound}
use duckdb_loki.Catalog.Steps.{
  System, Step, Reach, find_transaction, later, lock_refresh, fail_refresh, check_labels,
  publish_snapshot, unlock_refresh, begin_transaction, end_transaction,
}

find_transaction-erase_ne :
    (id other : ℕ) (ts : List LokiTransaction)
    → other ≢ id
    → find_transaction id (erase_transaction other ts) ≡ find_transaction id ts
unfolding erase_transaction
find_transaction-erase_ne id other [] ne = refl
find_transaction-erase_ne id other (t ∷ ts) ne =
    ground (arith, find_transaction-erase_ne id other ts)

-- A transaction that is found holds its pin.
count-find_transaction :
    (id : ℕ) (t : LokiTransaction) (ts : List LokiTransaction)
    → find_transaction id ts ≡ some t
    → 0 < count t.snapshot.address (pins ts)
unfolding count
count-find_transaction id t [] h = cc
count-find_transaction id t (q ∷ ts) h = ground (arith, count-find_transaction id t ts)

module _ (ci_equals : Bytes → Bytes → Bool) (y : Yyjson) where
  -- The step does not end the transaction.
  abbrev pub Spares : (id : ℕ) {s u : System} → Step ci_equals y s u → Type 0
  Spares id (end_transaction other same) = other ≢ id
  Spares id (lock_refresh e same) = Unit
  Spares id (fail_refresh n e same) = Unit
  Spares id (check_labels get short fetched e f same) = Unit
  Spares id (publish_snapshot snapshot e same) = Unit
  Spares id (unlock_refresh n e same) = Unit
  Spares id (begin_transaction other fresh same) = Unit

  -- Steps of any threads, none of which ends the transaction.
  pub data StepsDuring (id : ℕ) (s : System) : System → Type 0 where
    none_yet : StepsDuring id s s
    one_more :
        {t u : System}
        → StepsDuring id s t
        → (st : Step ci_equals y t u) → Spares id st
        → StepsDuring id s u

  kept_active :
      (id : ℕ) (t : LokiTransaction) (s u : System) (st : Step ci_equals y s u)
      → Spares id st
      → find_transaction id s.transactions ≡ some t
      → find_transaction id u.transactions ≡ some t
  kept_active id t s u (lock_refresh e same) spares found = rw same found
  kept_active id t s u (fail_refresh n e same) spares found = rw same found
  kept_active id t s u (check_labels get short fetched e f same) spares found = rw same found
  kept_active id t s u (publish_snapshot snapshot e same) spares found = rw same found
  kept_active id t s u (unlock_refresh n e same) spares found = rw same found
  kept_active id t s u (begin_transaction other fresh same) spares found = rw same (ground arith)
  kept_active id t s u (end_transaction other same) spares found =
      rw same (find_transaction-erase_ne id other s.transactions spares ∙ found)

  stays_active :
      (id : ℕ) (t : LokiTransaction) (s u : System)
      → StepsDuring id s u
      → find_transaction id s.transactions ≡ some t
      → find_transaction id u.transactions ≡ some t
  stays_active id t s u none_yet found = found
  stays_active id t s u (one_more {t = v} steps st spares) found =
      kept_active id t v u st spares (stays_active id t s v steps found)

  extended :
      (config : LokiCatalogConfig) (now_ns : ℤ) (id : ℕ) (s u : System)
      → Reach ci_equals y config now_ns s
      → StepsDuring id s u
      → Reach ci_equals y config now_ns u
  extended config now_ns id s u r none_yet = r
  extended config now_ns id s u r (one_more {t = v} steps st spares) =
      later (extended config now_ns id s v r steps) st

  -- While a transaction is active, every lookup of a schema and every listing of the schemas in it gives what
  -- it gave before, whatever steps other threads have taken: refreshes, publications, and transactions that
  -- start and end. The catalog still owns the generation that the transaction reads.
  pub lookup_schema-StepsDuring :
      (config : LokiCatalogConfig) (now_ns : ℤ) (id : ℕ) (t : LokiTransaction) (s u : System)
      → Reach ci_equals y config now_ns s
      → find_transaction id s.transactions ≡ some t
      → StepsDuring id s u
      → ((catalog_name name : Bytes) (if_not_found : OnEntryNotFound)
          → lookup_schema ci_equals u.catalog catalog_name
              (find_transaction id u.transactions)
              name
              if_not_found
            ≡ lookup_schema ci_equals s.catalog catalog_name
                (find_transaction id s.transactions)
                name
                if_not_found)
        × (scan_schemas u.catalog t ≡ scan_schemas s.catalog t)
        × (0 < owned u.catalog t.snapshot.address)
  unfolding lookup_schema scan_schemas pinned_snapshot
  lookup_schema-StepsDuring config now_ns id t s u r found steps =
      let active = stays_active id t s u steps found in
      (
        λ catalog_name name if_not_found. rw (active, found) refl,
        refl,
        (Reach-IsSound ci_equals y config now_ns u (extended config now_ns id s u r steps)).alive
            t.snapshot.address (count-find_transaction id t u.transactions active),
      )
