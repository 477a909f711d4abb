-- ===== src/Catalog/Steps/Runs.antt =====
-- The functions of src/loki/catalog.cpp as runs of the steps: what one thread does with nothing between.
use mathlib.Core.Path.{subst}
use duckdb_loki.Base.{
  else_branch, ℕ, ◌≡◌, refl, sym, ◌∙◌, inl, inr, Bool-cases, Bool, true, false, Option, none, some,
  List, ◌∷◌, arith, Bytes, ok, throw, Crashing, and_then_ok,
}
use duckdb_loki.Base.Int.{ℤ, max_ℤ}
use duckdb_loki.HttpClient.{Call, Outcome}
use duckdb_loki.Parse.{Yyjson}
use duckdb_loki.Catalog.{LokiCatalog, LokiTransaction}
use duckdb_loki.Catalog.Snapshots.{build_snapshot, add_int64, pin_current_snapshot}
use duckdb_loki.Catalog.Refresh.{
  fetch_all, next_version, publish_version, do_refresh, after_ttl_refresh, maybe_refresh_labels,
  refresh_labels, refresh_backoff_ns, labels_are_pinned,
}
use duckdb_loki.Catalog.Refresh.Lifetime.{
  is_due, maybe_refresh_labels_due, maybe_refresh_labels_idle,
}
use duckdb_loki.Catalog.Transactions.{
  LokiTransactionManager, pins, started, begin_transaction, start_transaction, commit_transaction,
  rollback_transaction,
}
use duckdb_loki.Catalog.Steps as Steps
use duckdb_loki.Catalog.Steps.{
  Refresher, idle, fetching, built, done, System, Step, find_transaction, after_check, lock_refresh,
  fail_refresh, check_labels, publish_snapshot, unlock_refresh, end_transaction,
}

-- Between the calls no thread holds `refresh_lock`.
abbrev pub system_of : LokiTransactionManager → System
system_of m = record {
  catalog = m.catalog;
  transactions = m.transactions;
  refresher = Refresher.idle;
}

module _ (ci_equals : Bytes → Bytes → Bool) (y : Yyjson) where
  pub data Run (s : System) : System → Type 0 where
    stop : Run s s
    then_step : {t u : System} → Run s t → Step ci_equals y t u → Run s u

  module _ (get : Call → Outcome) (m : LokiTransactionManager) where
    abbrev at : LokiCatalog → Refresher → System
    at c r = record { catalog = c; transactions = m.transactions; refresher = r }

    locked : Run (system_of m) (at m.catalog fetching)
    locked = then_step stop (lock_refresh refl refl)

    publish_version-Run :
        (fetched : List (List Bytes)) (o : Option ℕ) (published : Bool) (t : LokiCatalog)
        → Run (system_of m) (at m.catalog (after_check m.catalog.config fetched o))
        → publish_version (pins m.transactions) fetched m.catalog o ≡ (published, t)
        → Run (system_of m) (at t done)
    unfolding publish_version
    publish_version-Run fetched none published t run h =
        subst (λ (r : Bool × LokiCatalog). Run (system_of m) (at r.1 done)) h run
    publish_version-Run fetched (some version) published t run h =
        subst (λ (r : Bool × LokiCatalog). Run (system_of m) (at r.1 done)) h
          (then_step run
            (publish_snapshot (build_snapshot m.catalog.config fetched version) refl refl))

    do_refresh-Run :
        (short published : Bool) (t : LokiCatalog)
        → do_refresh ci_equals get y short (pins m.transactions) m.catalog
          ≡ some (ok (published, t))
        → Run (system_of m) (at t done)
    unfolding do_refresh
    do_refresh-Run short published t h =
        let c = m.catalog in
        let (fetched, e, k) =
          and_then_ok (fetch_all ci_equals get y c.config short c.config.tenants) _ (published, t)
            h in
        publish_version-Run fetched (next_version c fetched) published t
          (then_step locked (check_labels get short fetched refl e refl)) (ground arith)

    after_ttl_refresh-Run :
        (now_ns : ℤ) (r : Crashing (Bool × LokiCatalog)) (c : LokiCatalog)
        → do_refresh ci_equals get y true (pins m.transactions) m.catalog ≡ r
        → after_ttl_refresh ci_equals get y now_ns m.catalog r ≡ some c
        → Run (system_of m) (at c idle)
    unfolding after_ttl_refresh
    after_ttl_refresh-Run now_ns none c e h = cc
    after_ttl_refresh-Run now_ns (some (throw x)) c e h =
        let same : record m.catalog {
          next_check_ns =
              add_int64 now_ns (max_ℤ m.catalog.config.label_cache_ttl_ns refresh_backoff_ns);
        }
            ≡ c =
          ground arith in
        subst (λ k. Run (system_of m) (at k idle)) same
          (then_step locked (fail_refresh _ refl refl))
    after_ttl_refresh-Run now_ns (some (ok (published, t))) c e h =
        let same : record t { next_check_ns = add_int64 now_ns t.config.label_cache_ttl_ns } ≡ c =
          ground arith in
        subst (λ k. Run (system_of m) (at k idle)) same
          (then_step (do_refresh-Run true published t e) (unlock_refresh _ refl refl))

    maybe_refresh_labels-Run :
        (now_ns first_seen : ℤ) (owns_lock : Bool) (c : LokiCatalog)
        → maybe_refresh_labels ci_equals get y now_ns first_seen owns_lock
            (pins m.transactions)
            m.catalog
          ≡ some c
        → Run (system_of m) (at c idle)
    maybe_refresh_labels-Run now_ns first_seen owns_lock c h =
        let holders = pins m.transactions in
        elim (Bool-cases (is_due ci_equals get y now_ns first_seen owns_lock m.catalog)) [
          | inl due ↦ after_ttl_refresh-Run now_ns _ c refl (
              sym (
                maybe_refresh_labels_due ci_equals get y now_ns first_seen owns_lock holders
                  m.catalog due)
              ∙ h)
          | inr early ↦
              let e =
                maybe_refresh_labels_idle ci_equals get y now_ns first_seen owns_lock holders
                  m.catalog early in
              let same : m.catalog ≡ c = ground arith in
              subst (λ k. Run (system_of m) (at k idle)) same stop
        ]

    started-Run :
        (id : ℕ) (o : Option LokiCatalog) (t : LokiTransaction) (m' : LokiTransactionManager)
        → find_transaction id m.transactions ≡ none
        → ((c : LokiCatalog) → o ≡ some c → Run (system_of m) (at c idle))
        → started ci_equals get y id m.transactions o ≡ some (t, m')
        → Run (system_of m) (system_of m')
    unfolding started begin_transaction
    started-Run id none t m' fresh run h = cc
    started-Run id (some c) t m' fresh run h =
        let begun : LokiTransactionManager = record {
          catalog = c;
          transactions = record { id = id; snapshot = pin_current_snapshot c } ∷ m.transactions;
        } in
        let same : begun ≡ m' = ground arith in
        subst (λ k. Run (system_of m) (system_of k)) same
          (then_step (run c refl) (Steps.begin_transaction id fresh refl))

    refresh_labels-Run :
        (name : Bytes) (now_ns : ℤ) (c : LokiCatalog)
        → refresh_labels ci_equals get y name now_ns (pins m.transactions) m.catalog ≡ some (ok c)
        → Run (system_of m) (at c idle)
    unfolding refresh_labels
    refresh_labels-Run name now_ns c h = elim (Bool-cases m.catalog.config.labels_pinned) [
      | inl p ↦ absurd (ground arith)
      | inr p ↦
          let ((published, t), e, k) =
            and_then_ok (do_refresh ci_equals get y false (pins m.transactions) m.catalog) _ c (
              else_branch m.catalog.config.labels_pinned (some (throw (labels_are_pinned name))) p
                h) in
          let same : record t { next_check_ns = add_int64 now_ns t.config.label_cache_ttl_ns } ≡ c =
            ground arith in
          subst (λ k. Run (system_of m) (at k idle)) same
            (then_step (do_refresh-Run false published t e) (unlock_refresh _ refl refl))
    ]

    -- The start of a transaction with a new number, and whatever check by lifetime comes before it, is a run of
    -- the steps: so what holds in all reachable states holds after it.
    pub start_transaction-Run :
        (now_ns first_seen : ℤ) (owns_lock : Bool) (id : ℕ) (t : LokiTransaction)
        (m' : LokiTransactionManager)
        → find_transaction id m.transactions ≡ none
        → start_transaction ci_equals get y now_ns first_seen owns_lock id m ≡ some (t, m')
        → Run (system_of m) (system_of m')
    unfolding start_transaction
    start_transaction-Run now_ns first_seen owns_lock id t m' fresh h =
        started-Run id
          (maybe_refresh_labels ci_equals get y now_ns first_seen owns_lock (pins m.transactions)
            m.catalog)
          t m' fresh (λ c e. maybe_refresh_labels-Run now_ns first_seen owns_lock c e) h

    commit_transaction-Run :
        (id : ℕ)
        → Run (system_of m) (system_of (commit_transaction id m))
          × Run (system_of m) (system_of (rollback_transaction id m))
    unfolding commit_transaction rollback_transaction
    commit_transaction-Run id =
        (then_step stop (end_transaction id refl), then_step stop (end_transaction id refl))
