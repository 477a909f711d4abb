-- ===== src/Catalog/Steps/Generations.antt =====
-- The generations of src/loki/catalog.cpp in every reachable state: their numbers, and the columns of their
-- tables.
use duckdb_loki.Base.Int.{ℤ}
use mathlib.Core.Path.{subst}
use duckdb_loki.Base.{
  ℕ, suc, ◌+◌, ◌≤◌, ◌≡◌, refl, ap, Bool, some, List, [], ◌∷◌, arith, Bytes, length, All, sym, ◌∙◌,
  none, Option,
}
use duckdb_loki.HttpClient.{Call, Outcome}
use duckdb_loki.Parse.{Yyjson}
use duckdb_loki.Catalog.{
  LokiTenant, LokiCatalogConfig, LokiCatalogSnapshot, LokiCatalog, LokiTransaction, SnapshotPtr,
}
use duckdb_loki.Catalog.FetchLabels.{AreColumns}
use duckdb_loki.Catalog.Snapshots.{build_schemas, build_snapshot, pin_current_snapshot}
use duckdb_loki.Catalog.Refresh.{next_version, publish}
use duckdb_loki.Catalog.Refresh.Atomic.{FetchedFor, fetch_all-FetchedFor}
use duckdb_loki.Catalog.Transactions.{erase_transaction}
use duckdb_loki.Catalog.Steps.{
  Refresher, idle, fetching, built, done, System, Step, after_check, lock_refresh, fail_refresh,
  check_labels, publish_snapshot, unlock_refresh, begin_transaction, end_transaction,
}

module _ (ci_equals : Bytes → Bytes → Bool) (config : LokiCatalogConfig) where
  -- A generation of a configuration: label columns for every tenant, fit to be columns, and the schemas that
  -- are built from them.
  pub record IsGeneration (g : LokiCatalogSnapshot) : Type 0 where
    pub parallel : length g.label_columns ≡ length config.tenants
    pub columns : All (AreColumns ci_equals) g.label_columns
    pub tree : g.schemas ≡ build_schemas config config.tenants g.label_columns

  pub build_snapshot-IsGeneration :
      (labels : List (List Bytes)) (version : ℕ)
      → length labels ≡ length config.tenants
      → All (AreColumns ci_equals) labels
      → IsGeneration (build_snapshot config labels version)
  unfolding build_snapshot
  build_snapshot-IsGeneration labels version many fit = record {
    parallel = many;
    columns = fit;
    tree = refl;
  }

  -- What a transaction pins: a generation, not newer than the current one, and the current one itself where
  -- the numbers are the same.
  pub record IsPin (c : LokiCatalog) (t : LokiTransaction) : Type 0 where
    pub generation : IsGeneration t.snapshot.snapshot
    pub older : t.snapshot.snapshot.version ≤ c.current.snapshot.version
    pub identified :
        t.snapshot.snapshot.version ≡ c.current.snapshot.version → t.snapshot ≡ c.current

  abbrev pub IsNext : LokiCatalog → Refresher → Type 0
  IsNext c idle = Unit
  IsNext c fetching = Unit
  IsNext c (built g) = IsGeneration g × (g.version ≡ c.current.snapshot.version + 1)
  IsNext c done = Unit

  pub record IsConsistent (s : System) : Type 0 where
    pub same_config : s.catalog.config ≡ config
    pub current_generation : IsGeneration s.catalog.current.snapshot
    pub pinned : All (IsPin s.catalog) s.transactions
    pub next : IsNext s.catalog s.refresher

  -- The label columns that a refresh has fetched are parallel to the tenants, and fit to be columns.
  FetchedFor-columns :
      (get : Call → Outcome) (y : Yyjson) (k : LokiCatalogConfig) (short : Bool)
      (ts : List LokiTenant) (fetched : List (List Bytes))
      → FetchedFor ci_equals get y k short ts fetched
      → (length fetched ≡ length ts) × All (AreColumns ci_equals) fetched
  FetchedFor-columns get y k short [] [] h = (refl, tt)
  FetchedFor-columns get y k short [] (n ∷ ns) h = absurd h
  FetchedFor-columns get y k short (t ∷ ts) [] h = absurd h
  FetchedFor-columns get y k short (t ∷ ts) (n ∷ ns) (e, fit, h) =
      let (many, rest) = FetchedFor-columns get y k short ts ns h in (ap suc many, (fit, rest))

  All-pins :
      {A : Type 0} (P Q : A → Type 0) (xs : List A) → ((x : A) → P x → Q x) → All P xs → All Q xs
  All-pins P Q [] f h = tt
  All-pins P Q (x ∷ xs) f (p, h) = (f x p, All-pins P Q xs f h)

  erase_transaction-All :
      (P : LokiTransaction → Type 0) (id : ℕ) (ts : List LokiTransaction)
      → All P ts
      → All P (erase_transaction id ts)
  unfolding erase_transaction
  erase_transaction-All P id [] h = tt
  erase_transaction-All P id (t ∷ ts) (p, h) = ground (arith, erase_transaction-All P id ts h)

  next_version-some :
      (c : LokiCatalog) (fetched : List (List Bytes)) (version : ℕ)
      → next_version c fetched ≡ some version
      → version ≡ c.current.snapshot.version + 1
  unfolding next_version
  next_version-some c fetched version h = ground arith

  IsPin-publish :
      (holders : List SnapshotPtr) (g : LokiCatalogSnapshot) (c : LokiCatalog) (t : LokiTransaction)
      → g.version ≡ c.current.snapshot.version + 1
      → IsPin c t
      → IsPin (publish holders g c) t
  unfolding publish
  IsPin-publish holders g c t newer pin = record {
    generation = pin.generation;
    older = omega (arith, pin.older);
    identified = λ e. absurd (omega (arith, pin.older));
  }

  IsPin-begin :
      (c : LokiCatalog) (id : ℕ)
      → IsGeneration c.current.snapshot
      → IsPin c (record { id = id; snapshot = pin_current_snapshot c })
  unfolding pin_current_snapshot
  IsPin-begin c id g = record { generation = g; older = omega arith; identified = λ e. refl }

  IsPin-retimed :
      (c : LokiCatalog) (n : ℤ) (t : LokiTransaction)
      → IsPin c t
      → IsPin (record c { next_check_ns = n }) t
  IsPin-retimed c n t pin = record {
    generation = pin.generation;
    older = pin.older;
    identified = pin.identified;
  }

  retimed :
      (s : System) (n : ℤ)
      → IsConsistent s
      → IsConsistent
          (record s { refresher = idle; catalog = record s.catalog { next_check_ns = n } })
  retimed s n k = record {
    same_config = k.same_config;
    current_generation = k.current_generation;
    pinned =
        All-pins (IsPin s.catalog) (IsPin (record s.catalog { next_check_ns = n })) s.transactions
          (λ t p. IsPin-retimed s.catalog n t p) k.pinned;
    next = tt;
  }

  published :
      (s : System) (holders : List SnapshotPtr) (g : LokiCatalogSnapshot)
      → IsConsistent s
      → IsGeneration g
      → g.version ≡ s.catalog.current.snapshot.version + 1
      → IsConsistent (record s { refresher = done; catalog = publish holders g s.catalog })
  unfolding publish
  published s holders g k good newer = record {
    same_config = k.same_config;
    current_generation = good;
    pinned =
        All-pins (IsPin s.catalog) (IsPin (publish holders g s.catalog)) s.transactions
          (λ t p. IsPin-publish holders g s.catalog t newer p) k.pinned;
    next = tt;
  }

  built_version :
      (k : LokiCatalogConfig) (labels : List (List Bytes)) (version : ℕ)
      → (build_snapshot k labels version).version ≡ version
  unfolding build_snapshot
  built_version k labels version = refl

  -- What the check of the labels goes on with.
  checked :
      (s : System) (get : Call → Outcome) (y : Yyjson) (short : Bool) (fetched : List (List Bytes))
      (o : Option ℕ)
      → next_version s.catalog fetched ≡ o
      → IsConsistent s
      → FetchedFor ci_equals get y s.catalog.config short s.catalog.config.tenants fetched
      → IsNext s.catalog (after_check s.catalog.config fetched o)
  checked s get y short fetched none e k h = tt
  checked s get y short fetched (some version) e k h =
      let (many, fit) =
        FetchedFor-columns get y s.catalog.config short s.catalog.config.tenants fetched h in
      let same = k.same_config in
      (
        subst (λ c. IsGeneration (build_snapshot c fetched version)) (sym same)
            (build_snapshot-IsGeneration fetched version
              (many ∙ ap (λ (c : LokiCatalogConfig). length c.tenants) same) fit),
        built_version s.catalog.config fetched version
            ∙ next_version-some s.catalog fetched version e,
      )

  pub Step-IsConsistent :
      (y : Yyjson) (s u : System) → Step ci_equals y s u → IsConsistent s → IsConsistent u
  Step-IsConsistent y s u (lock_refresh e same) k = subst IsConsistent (sym same) (record {
    same_config = k.same_config;
    current_generation = k.current_generation;
    pinned = k.pinned;
    next = tt;
  })
  Step-IsConsistent y s u (fail_refresh n e same) k = subst IsConsistent (sym same) (retimed s n k)
  Step-IsConsistent y s u (check_labels get short fetched e f same) k =
      subst IsConsistent (sym same) (record {
        same_config = k.same_config;
        current_generation = k.current_generation;
        pinned = k.pinned;
        next = checked s get y short fetched (next_version s.catalog fetched) refl k (
            fetch_all-FetchedFor ci_equals get y s.catalog.config short s.catalog.config.tenants
              fetched f);
      })
  Step-IsConsistent y s u (publish_snapshot g e same) k =
      let (good, newer) = subst (IsNext s.catalog) e k.next in
      subst IsConsistent (sym same) (published s _ g k good newer)
  Step-IsConsistent y s u (unlock_refresh n e same) k =
      subst IsConsistent (sym same) (retimed s n k)
  Step-IsConsistent y s u (begin_transaction id fresh same) k =
      subst IsConsistent (sym same) (record {
        same_config = k.same_config;
        current_generation = k.current_generation;
        pinned = (IsPin-begin s.catalog id k.current_generation, k.pinned);
        next = k.next;
      })
  Step-IsConsistent y s u (end_transaction id same) k = subst IsConsistent (sym same) (record {
    same_config = k.same_config;
    current_generation = k.current_generation;
    pinned = erase_transaction-All (IsPin s.catalog) id s.transactions k.pinned;
    next = k.next;
  })
