-- ===== src/Catalog/Steps.antt =====
-- src/loki/catalog.cpp with several threads: what they do between locks, interleaved in any order.
-- `refresh_lock` lets one refresh run at a time; its fetches, its check of the labels and its publication are
-- steps of their own, and transactions start and end between them. The time of the next check is left open.
pub mod Invariant
pub mod Generations
pub mod Isolation
pub mod SeenColumns
pub mod Runs
pub mod Freed
use duckdb_loki.Base.{
  if◌then◌else◌, ◌==◌, ℕ, ◌≡◌, Bool, Option, none, some, List, [], ◌∷◌, Bytes, ok,
}
use duckdb_loki.Base.Int.{ℤ}
use duckdb_loki.HttpClient.{Call, Outcome}
use duckdb_loki.Parse.{Yyjson}
use duckdb_loki.Catalog.{LokiCatalogConfig, LokiCatalogSnapshot, LokiCatalog, LokiTransaction}
use duckdb_loki.Catalog.Snapshots.{build_snapshot, new_catalog, initialize, pin_current_snapshot}
use duckdb_loki.Catalog.Refresh.{fetch_all, next_version, publish}
use duckdb_loki.Catalog.Transactions.{pins, erase_transaction}

-- Where the thread stands that holds `refresh_lock`, if one does.
pub data Refresher : Type 0 where
  idle : Refresher
  fetching : Refresher
  built : LokiCatalogSnapshot → Refresher
  done : Refresher

pub record System : Type 0 where
  pub catalog : LokiCatalog
  pub transactions : List LokiTransaction
  pub refresher : Refresher

-- The transaction of a number, while it is active.
abbrev pub find_transaction : ℕ → List LokiTransaction → Option LokiTransaction
find_transaction id [] = none
find_transaction id (t ∷ ts) = if t.id == id then some t else find_transaction id ts

-- What follows the check of the labels: the new generation is built, if there is one.
abbrev pub after_check : LokiCatalogConfig → List (List Bytes) → Option ℕ → Refresher
after_check config fetched none = Refresher.done
after_check config fetched (some version) = Refresher.built (build_snapshot config fetched version)

module _ (ci_equals : Bytes → Bytes → Bool) (y : Yyjson) where
  -- The server may answer each refresh differently.
  pub data Step (s u : System) : Type 0 where
    lock_refresh :
        s.refresher ≡ Refresher.idle → u ≡ record s { refresher = Refresher.fetching } → Step s u
    fail_refresh :
        (next_check_ns : ℤ)
        → s.refresher ≡ Refresher.fetching
        → u ≡ record s {
          refresher = Refresher.idle;
          catalog = record s.catalog { next_check_ns = next_check_ns };
        }
        → Step s u
    check_labels :
        (get : Call → Outcome) (short : Bool) (fetched : List (List Bytes))
        → s.refresher ≡ Refresher.fetching
        → fetch_all ci_equals get y s.catalog.config short s.catalog.config.tenants
          ≡ some (ok fetched)
        → u ≡ record s {
          refresher = after_check s.catalog.config fetched (next_version s.catalog fetched);
        }
        → Step s u
    publish_snapshot :
        (snapshot : LokiCatalogSnapshot)
        → s.refresher ≡ Refresher.built snapshot
        → u ≡ record s {
          refresher = Refresher.done;
          catalog = publish (pins s.transactions) snapshot s.catalog;
        }
        → Step s u
    unlock_refresh :
        (next_check_ns : ℤ)
        → s.refresher ≡ Refresher.done
        → u ≡ record s {
          refresher = Refresher.idle;
          catalog = record s.catalog { next_check_ns = next_check_ns };
        }
        → Step s u
    begin_transaction :
        (id : ℕ)
        → find_transaction id s.transactions ≡ none
        → u ≡ record s {
          transactions =
              record { id = id; snapshot = pin_current_snapshot s.catalog } ∷ s.transactions;
        }
        → Step s u
    end_transaction :
        (id : ℕ) → u ≡ record s { transactions = erase_transaction id s.transactions } → Step s u

  -- The catalog as it is once ATTACH has set it up.
  abbrev pub attached : LokiCatalogConfig → ℤ → System
  attached config now_ns = record {
    catalog = initialize now_ns (new_catalog config);
    transactions = [];
    refresher = Refresher.idle;
  }

  pub data Reach (config : LokiCatalogConfig) (now_ns : ℤ) : System → Type 0 where
    start : Reach config now_ns (attached config now_ns)
    later : {s u : System} → Reach config now_ns s → Step s u → Reach config now_ns u
