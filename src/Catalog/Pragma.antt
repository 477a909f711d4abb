-- ===== src/Catalog/Pragma.antt =====
-- `PRAGMA loki_refresh_labels` of src/loki/catalog.cpp.
pub mod Pinned
use duckdb_loki.Base.{
  ℕ, Bool, true, false, ◌&&◌, Option, none, some, List, [], ◌∷◌, ◌++◌, Bytes, codes, if◌then◌else◌,
  Exception, invalid_input_exception, catalog_exception, Result, ok, throw, Crashing,
}
use duckdb_loki.Base.Int.{ℤ}
use duckdb_loki.HttpClient.{Call, Outcome}
use duckdb_loki.Parse.{Yyjson}
use duckdb_loki.Catalog.{LokiCatalog, LokiTransaction}
use duckdb_loki.Catalog.Refresh.{refresh_labels}
use duckdb_loki.Catalog.Transactions.{LokiTransactionManager, pins, start_transaction}

-- A database that is attached: the loki catalog behind it, if it has one, and whether the transaction of the
-- context has reached it.
pub record AttachedDatabase : Type 0 where
  pub name : Bytes
  pub loki : Option LokiTransactionManager
  pub has_transaction : Bool

abbrev pub not_loki : Bytes → Exception
not_loki name = invalid_input_exception (
    codes "PRAGMA loki_refresh_labels: database '"
    ++ (name ++ codes "' is not an ATTACHed Loki database (TYPE loki)"))

abbrev pub no_such_database : Bytes → Exception
no_such_database name =
    catalog_exception
      (codes "PRAGMA loki_refresh_labels: no attached database named '" ++ (name ++ codes "'"))

module _ (ci_equals : Bytes → Bytes → Bool) (get : Call → Outcome) (y : Yyjson) where
  unfoldable pub manager_of :
      Option (LokiTransaction × LokiTransactionManager) → Option LokiTransactionManager
  manager_of none = none
  manager_of (some (t, m)) = some m

  -- `Transaction::Get`, where nothing else refreshes: a transaction starts if the context has none there.
  unfoldable pub reach_database :
      ℤ → ℕ → Bool → LokiTransactionManager → Option LokiTransactionManager
  unfolding manager_of
  reach_database now_ns id true m = some m
  reach_database now_ns id false m =
      manager_of (start_transaction ci_equals get y now_ns m.catalog.next_check_ns true id m)

  -- What a refresh comes to: the manager, also where an exception leaves it, and that exception. One that
  -- throws has not touched the catalog.
  unfoldable pub after_refresh :
      LokiTransactionManager
      → Crashing LokiCatalog
      → Option (LokiTransactionManager × Result (Unit {0}))
  after_refresh m none = none
  after_refresh m (some (throw e)) = some (m, throw e)
  after_refresh m (some (ok c)) = some (record m { catalog = c }, ok tt)

  unfoldable pub refresh_manager :
      Bytes
      → ℤ
      → Bool
      → LokiTransactionManager
      → Option (LokiTransactionManager × Result (Unit {0}))
  unfolding after_refresh
  refresh_manager name now_ns skip_pinned m =
      if skip_pinned && m.catalog.config.labels_pinned
      then some (m, ok tt)
      else after_refresh m
          (refresh_labels ci_equals get y name now_ns (pins m.transactions) m.catalog)

  unfoldable pub refreshed_database :
      AttachedDatabase
      → Option (LokiTransactionManager × Result (Unit {0}))
      → Option (AttachedDatabase × Result (Unit {0}))
  refreshed_database database none = none
  refreshed_database database (some (m, r)) =
      some (record database { loki = some m; has_transaction = true }, r)

  unfoldable pub refresh_reached :
      ℤ
      → Bool
      → AttachedDatabase
      → Option LokiTransactionManager
      → Option (AttachedDatabase × Result (Unit {0}))
  unfolding refresh_manager refreshed_database
  refresh_reached now_ns skip_pinned database none = none
  refresh_reached now_ns skip_pinned database (some m) =
      refreshed_database database (refresh_manager database.name now_ns skip_pinned m)

  -- The database comes back with what it is when the call is left, by an exception too.
  unfoldable pub refresh_one_database :
      ℤ
      → ℕ
      → Bool
      → AttachedDatabase
      → Option LokiTransactionManager
      → Option (AttachedDatabase × Result (Unit {0}))
  unfolding reach_database refresh_reached
  refresh_one_database now_ns id skip_pinned database none =
      some (database, throw (not_loki database.name))
  refresh_one_database now_ns id skip_pinned database (some m) =
      refresh_reached now_ns skip_pinned database
        (reach_database now_ns id database.has_transaction m)

  -- The loop goes on behind a database that was refreshed, and stops where an exception leaves it.
  unfoldable pub go_on :
      List AttachedDatabase
      → Option (List AttachedDatabase × Result (Unit {0}))
      → Option (AttachedDatabase × Result (Unit {0}))
      → Option (List AttachedDatabase × Result (Unit {0}))
  go_on rest others none = none
  go_on rest others (some (database, throw e)) = some (database ∷ rest, throw e)
  go_on rest none (some (database, ok u)) = none
  go_on rest (some (dbs, r)) (some (database, ok u)) = some (database ∷ dbs, r)

  unfoldable pub refresh_if_loki :
      ℤ
      → ℕ
      → AttachedDatabase
      → Option LokiTransactionManager
      → Option (AttachedDatabase × Result (Unit {0}))
  unfolding refresh_one_database
  refresh_if_loki now_ns id database none = some (database, ok tt)
  refresh_if_loki now_ns id database (some m) =
      refresh_one_database now_ns id true database (some m)

  unfoldable pub refresh_all_databases :
      ℤ → ℕ → List AttachedDatabase → Option (List AttachedDatabase × Result (Unit {0}))
  unfolding refresh_if_loki go_on
  refresh_all_databases now_ns id [] = some ([], ok tt)
  refresh_all_databases now_ns id (database ∷ rest) =
      go_on rest (refresh_all_databases now_ns id rest)
        (refresh_if_loki now_ns id database database.loki)

  -- The database that a name finds, put back into its place.
  unfoldable pub refresh_named_database :
      ℤ
      → ℕ
      → Bytes
      → (Bytes → Bool)
      → List AttachedDatabase
      → Option (List AttachedDatabase × Result (Unit {0}))
  unfolding refresh_one_database go_on
  refresh_named_database now_ns id name is_named [] = some ([], throw (no_such_database name))
  refresh_named_database now_ns id name is_named (database ∷ rest) =
      let others = refresh_named_database now_ns id name is_named rest in
      if is_named database.name
      then go_on rest (some (rest, ok tt))
          (refresh_one_database now_ns id false database database.loki)
      else go_on rest others (some (database, ok tt))

  -- `is_named` is how DuckDB finds a database by the argument.
  unfoldable pub loki_refresh_labels_pragma :
      ℤ
      → ℕ
      → Option Bytes
      → (Bytes → Bool)
      → List AttachedDatabase
      → Option (List AttachedDatabase × Result (Unit {0}))
  unfolding refresh_all_databases refresh_named_database
  loki_refresh_labels_pragma now_ns id none is_named databases =
      refresh_all_databases now_ns id databases
  loki_refresh_labels_pragma now_ns id (some name) is_named databases =
      refresh_named_database now_ns id name is_named databases
