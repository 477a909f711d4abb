-- ===== src/Catalog/Transactions.antt =====
-- `LokiTransactionManager` of src/loki/catalog.cpp.
use duckdb_loki.Base.{ℕ, Bool, ◌==◌, Option, none, some, List, [], ◌∷◌, Bytes, if◌then◌else◌}
use duckdb_loki.Base.Int.{ℤ}
use duckdb_loki.HttpClient.{Call, Outcome}
use duckdb_loki.Parse.{Yyjson}
use duckdb_loki.Catalog.{SnapshotPtr, LokiCatalog, LokiTransaction}
use duckdb_loki.Catalog.Snapshots.{pin_current_snapshot}
use duckdb_loki.Catalog.Refresh.{maybe_refresh_labels}

pub record LokiTransactionManager : Type 0 where
  pub catalog : LokiCatalog
  pub transactions : List LokiTransaction

abbrev pub pin_of : LokiTransaction → SnapshotPtr
pin_of t = t.snapshot

-- The pointers that the transactions hold.
abbrev pub pins : List LokiTransaction → List SnapshotPtr
pins [] = []
pins (t ∷ ts) = t.snapshot ∷ pins ts

-- The new transaction, and the map that has it.
unfoldable pub begin_transaction :
    ℕ → List LokiTransaction → LokiCatalog → LokiTransaction × LokiTransactionManager
begin_transaction id transactions c =
    let t : LokiTransaction = record { id = id; snapshot = pin_current_snapshot c } in
    (t, record { catalog = c; transactions = t ∷ transactions })

-- `transactions.erase(transaction)`
unfoldable pub erase_transaction : ℕ → List LokiTransaction → List LokiTransaction
erase_transaction id [] = []
erase_transaction id (t ∷ ts) =
    let rest = erase_transaction id ts in if t.id == id then rest else t ∷ rest

unfoldable pub commit_transaction : ℕ → LokiTransactionManager → LokiTransactionManager
unfolding erase_transaction
commit_transaction id m = record m { transactions = erase_transaction id m.transactions }

unfoldable pub rollback_transaction : ℕ → LokiTransactionManager → LokiTransactionManager
unfolding erase_transaction
rollback_transaction id m = record m { transactions = erase_transaction id m.transactions }

-- `LokiCreateTransactionManager`
unfoldable pub create_transaction_manager : LokiCatalog → LokiTransactionManager
create_transaction_manager c = record { catalog = c; transactions = [] }

module _ (ci_equals : Bytes → Bytes → Bool) (get : Call → Outcome) (y : Yyjson) where
  unfoldable pub started :
      ℕ
      → List LokiTransaction
      → Option LokiCatalog
      → Option (LokiTransaction × LokiTransactionManager)
  unfolding begin_transaction
  started id transactions none = none
  started id transactions (some c) = some (begin_transaction id transactions c)

  -- `none` where the process crashes; no exception leaves it.
  unfoldable pub start_transaction :
      ℤ → ℤ → Bool → ℕ → LokiTransactionManager → Option (LokiTransaction × LokiTransactionManager)
  unfolding started
  start_transaction now_ns first_seen owns_lock id m = started id m.transactions (
      maybe_refresh_labels ci_equals get y now_ns first_seen owns_lock (pins m.transactions)
        m.catalog)
