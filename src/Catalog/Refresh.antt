-- ===== src/Catalog/Refresh.antt =====
-- The refresh of the labels in src/loki/catalog.cpp: `DoRefresh`, `MaybeRefreshLabels`, `RefreshLabels`.
-- What other threads hold at that time is a list of pointers.
pub mod Prune
pub mod Atomic
pub mod Lifetime
pub mod Overflow
use duckdb_loki.Base.{
  ℕ, zero, suc, ◌+◌, ◌*◌, Bool, true, false, not, ◌&&◌, ◌||◌, ◌==◌, Option, none, some, List, [],
  ◌∷◌, ◌++◌, Bytes, codes, str_eq, length, get_elem?, if◌then◌else◌, Exception,
  invalid_input_exception, ok, throw, Crashing, and_then,
}
use duckdb_loki.Base.Int.{ℤ, pos, ltb_ℤ, eq_ℤ, max_ℤ}
use duckdb_loki.HttpClient.{Call, Outcome}
use duckdb_loki.Parse.{Yyjson}
use duckdb_loki.Catalog.{
  LokiTenant, LokiCatalogConfig, LokiCatalogSnapshot, SnapshotPtr, LokiCatalog, tenant_auth,
}
use duckdb_loki.Catalog.FetchLabels.{fetch_loki_label_names}
use duckdb_loki.Catalog.Snapshots.{build_snapshot, add_int64}

-- `==` on vectors of strings, and on vectors of these
unfoldable pub names_eq : List Bytes → List Bytes → Bool
names_eq [] [] = true
names_eq [] (y ∷ ys) = false
names_eq (x ∷ xs) [] = false
names_eq (x ∷ xs) (y ∷ ys) = str_eq x y && names_eq xs ys

unfoldable pub label_columns_eq : List (List Bytes) → List (List Bytes) → Bool
unfolding names_eq
label_columns_eq [] [] = true
label_columns_eq [] (y ∷ ys) = false
label_columns_eq (x ∷ xs) [] = false
label_columns_eq (x ∷ xs) (y ∷ ys) = names_eq x y && label_columns_eq xs ys

-- How many pointers to an address there are.
unfoldable pub count : ℕ → List SnapshotPtr → ℕ
count address [] = 0
count address (p ∷ ps) = (if p.address == address then 1 else 0) + count address ps

-- `use_count()` of a pointer that `current`, `retired` and the others hold.
unfoldable pub use_count : SnapshotPtr → List SnapshotPtr → List SnapshotPtr → ℕ → ℕ
unfolding count
use_count current retired holders address =
    (if current.address == address then 1 else 0) + count address retired + count address holders

unfoldable pub erase_at {ℓ} : {A : Type ℓ} → ℕ → List A → List A
erase_at i [] = []
erase_at zero (x ∷ xs) = xs
erase_at (suc i) (x ∷ xs) = x ∷ erase_at i xs

unfoldable pub prune_found :
    SnapshotPtr → List SnapshotPtr → ℕ → List SnapshotPtr → Option SnapshotPtr → List SnapshotPtr
unfolding use_count
prune_found current holders i retired none = retired
prune_found current holders i retired (some p) =
    if use_count current retired holders p.address == 1 then erase_at i retired else retired

-- The loop from the end of `retired` that drops what nobody else holds; so many places are left.
unfoldable pub prune : ℕ → SnapshotPtr → List SnapshotPtr → List SnapshotPtr → List SnapshotPtr
unfolding prune_found
prune zero current holders retired = retired
prune (suc i) current holders retired =
    prune i current holders (prune_found current holders i retired (get_elem? retired i))

-- The version of the next generation, where the labels differ from those of the current one.
unfoldable pub next_version : LokiCatalog → List (List Bytes) → Option ℕ
next_version c fetched =
    if label_columns_eq c.current.snapshot.label_columns fetched
    then none
    else some (c.current.snapshot.version + 1)

-- The last critical section: a generation becomes the current one.
unfoldable pub publish : List SnapshotPtr → LokiCatalogSnapshot → LokiCatalog → LokiCatalog
unfolding prune
publish holders snapshot c =
    let current : SnapshotPtr = record { address = c.next_address; snapshot = snapshot } in
    let retired = c.retired ++ c.current ∷ [] in
    record c {
      current = current;
      retired = prune (length retired) current holders retired;
      next_address = c.next_address + 1;
    }

unfoldable pub publish_version :
    List SnapshotPtr → List (List Bytes) → LokiCatalog → Option ℕ → Bool × LokiCatalog
unfolding publish
publish_version holders fetched c none = (false, c)
publish_version holders fetched c (some version) =
    (true, publish holders (build_snapshot c.config fetched version) c)

abbrev pub refresh_backoff_ns : ℤ
refresh_backoff_ns = pos (60 * 1000 * 1000 * 1000)

abbrev pub labels_are_pinned : Bytes → Exception
labels_are_pinned name = invalid_input_exception (
    codes "loki catalog '"
    ++ (name
        ++ codes
            "' was attached with an explicit `labels` option, so its promoted columns are pinned and there is nothing to refresh; re-ATTACH without `labels` to auto-discover them"))

module _ (ci_equals : Bytes → Bytes → Bool) (get : Call → Outcome) (y : Yyjson) where
  -- The labels of every tenant, before any state is touched.
  unfoldable pub fetch_all :
      LokiCatalogConfig → Bool → List LokiTenant → Crashing (List (List Bytes))
  fetch_all config short_timeouts [] = some (ok [])
  fetch_all config short_timeouts (t ∷ ts) =
      let others = fetch_all config short_timeouts ts in
      and_then
        (fetch_loki_label_names ci_equals get y config.endpoint
          (tenant_auth config.auth t.tenant_id) (if short_timeouts then 5 else 10)
          (if short_timeouts then 5 else 60))
        λ names. and_then others λ rest. some (ok (names ∷ rest))

  -- Whether a generation was published, and the catalog; `none` where the process crashes.
  unfoldable pub do_refresh : Bool → List SnapshotPtr → LokiCatalog → Crashing (Bool × LokiCatalog)
  unfolding fetch_all next_version publish_version
  do_refresh short_timeouts holders c =
      and_then (fetch_all c.config short_timeouts c.config.tenants)
        λ fetched. some (ok (publish_version holders fetched c (next_version c fetched)))

  -- The `try` and the `catch` of the path by lifetime.
  unfoldable pub after_ttl_refresh :
      ℤ → LokiCatalog → Crashing (Bool × LokiCatalog) → Option LokiCatalog
  unfolding add_int64
  after_ttl_refresh now_ns c none = none
  after_ttl_refresh now_ns c (some (throw e)) = some (record c {
    next_check_ns = add_int64 now_ns (max_ℤ c.config.label_cache_ttl_ns refresh_backoff_ns);
  })
  after_ttl_refresh now_ns c (some (ok (published, t))) =
      some (record t { next_check_ns = add_int64 now_ns t.config.label_cache_ttl_ns })

  -- `first_seen` is what the first load of `next_check_ns` gave, and `owns_lock` what came of the attempt to
  -- lock `refresh_lock`; `c` is the catalog from then on. No exception leaves it.
  unfoldable pub maybe_refresh_labels :
      ℤ → ℤ → Bool → List SnapshotPtr → LokiCatalog → Option LokiCatalog
  unfolding do_refresh after_ttl_refresh
  maybe_refresh_labels now_ns first_seen owns_lock holders c =
      if c.config.labels_pinned || eq_ℤ c.config.label_cache_ttl_ns (pos 0)
      then some c
      else if ltb_ℤ now_ns first_seen || not owns_lock || ltb_ℤ now_ns c.next_check_ns
      then some c
      else after_ttl_refresh now_ns c (do_refresh true holders c)

  -- `name` is that of the attached database, and `now_ns` the time once the refresh is done.
  unfoldable pub refresh_labels : Bytes → ℤ → List SnapshotPtr → LokiCatalog → Crashing LokiCatalog
  unfolding do_refresh add_int64
  refresh_labels name now_ns holders c =
      if c.config.labels_pinned
      then some (throw (labels_are_pinned name))
      else and_then (do_refresh false holders c) λ r.
        some (ok (record r.1 { next_check_ns = add_int64 now_ns r.1.config.label_cache_ttl_ns }))
