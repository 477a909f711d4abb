-- ===== src/Catalog/Refresh/Lifetime.antt =====
-- `MaybeRefreshLabels` of src/loki/catalog.cpp: when it refreshes, and what it leaves alone.
use native.Mathlib.Decide.{dec_lt}
use duckdb_loki.Catalog.Refresh.Atomic.{FetchedFor, Refreshed, do_refresh-Refreshed}
use duckdb_loki.Catalog.Refresh.{
  do_refresh, fetch_all, after_ttl_refresh, maybe_refresh_labels, refresh_backoff_ns,
}
use duckdb_loki.Catalog.{SnapshotPtr, LokiCatalog, LokiTenant, LokiCatalogConfig, tenant_auth}
use duckdb_loki.Catalog.FetchLabels.{fetch_loki_label_names}
use duckdb_loki.Parse.{Yyjson}
use duckdb_loki.HttpClient.{Call, Outcome}
use duckdb_loki.Base.{
  ℕ, ◌+◌, ◌^◌, ◌≤◌, ◌<◌, ◌≡◌, arith, refl, sym, ◌∙◌, ◌⊎◌, inl, inr, Bool-cases, Bool, true, false,
  not, ◌||◌, ◌&&◌, none, some, List, [], ◌∷◌, Bytes, ok, throw, Crashing, Exception, and_then_throw,
  and_then, if◌then◌else◌,
}
use duckdb_loki.Base.Int.{pos, ◌+ℤ◌, ◌-ℤ◌, ◌<ℤ◌, ℤ, ltb_ℤ, eq_ℤ, max_ℤ}
use duckdb_loki.Catalog.Snapshots.{add_int64}

-- A sum that is an int64 is what the machine forms.
pub add_int64_exact : (a b : ℕ) → a + b < 2 ^ 63 → add_int64 (pos a) (pos b) ≡ pos (a + b)
unfolding add_int64 ◌+ℤ◌ ◌-ℤ◌
add_int64_exact a b h = ground arith

-- A sum past the largest int64 comes out negative.
pub add_int64_wraps :
    (a b : ℕ) → a < 2 ^ 63 → b < 2 ^ 63 → 2 ^ 63 ≤ a + b → add_int64 (pos a) (pos b) <ℤ pos 0
unfolding add_int64 ◌+ℤ◌ ◌-ℤ◌
add_int64_wraps a b ha hb h = ground arith

module _ (ci_equals : Bytes → Bytes → Bool) (get : Call → Outcome) (y : Yyjson) where
  -- The fetch of one tenant threw, behind those that gave labels.
  abbrev pub FetchFails : LokiCatalogConfig → Bool → List LokiTenant → Type 0
  FetchFails config short [] = ⊥
  FetchFails config short (t ∷ ts) =
      let r =
        fetch_loki_label_names ci_equals get y config.endpoint (tenant_auth config.auth t.tenant_id)
          (if short then 5 else 10) (if short then 5 else 60) in
      ((x : Exception) × (r ≡ some (throw x)))
      ⊎ ((names : List Bytes) × (r ≡ some (ok names)) × FetchFails config short ts)

  -- A check that fell due came to an end: a fetch failed, and the catalog is as before but for the time of
  -- the next check; or all fetches succeeded, and the next check is a lifetime away.
  abbrev pub Checked : ℤ → LokiCatalog → LokiCatalog → Type 0
  Checked now_ns c t =
      (FetchFails c.config true c.config.tenants
        × (t ≡ record c {
          next_check_ns = add_int64 now_ns (max_ℤ c.config.label_cache_ttl_ns refresh_backoff_ns);
        }))
      ⊎ ((fetched : List (List Bytes)) × (published : Bool) × (u : LokiCatalog) × FetchedFor
            ci_equals get y c.config true c.config.tenants fetched
          × Refreshed ci_equals get y fetched c published u
          × (t ≡ record u { next_check_ns = add_int64 now_ns u.config.label_cache_ttl_ns }))

  abbrev pub is_due : ℤ → ℤ → Bool → LokiCatalog → Bool
  is_due now_ns first_seen owns_lock c =
      not (c.config.labels_pinned || eq_ℤ c.config.label_cache_ttl_ns (pos 0))
      && not (ltb_ℤ now_ns first_seen || not owns_lock || ltb_ℤ now_ns c.next_check_ns)

  fetch_all-FetchFails :
      (config : LokiCatalogConfig) (short : Bool) (ts : List LokiTenant) (x : Exception)
      → fetch_all ci_equals get y config short ts ≡ some (throw x)
      → FetchFails config short ts
  unfolding fetch_all
  fetch_all-FetchFails config short [] x h = cc
  fetch_all-FetchFails config short (t ∷ ts) x h =
      let others = fetch_all ci_equals get y config short ts in
      let first =
        fetch_loki_label_names ci_equals get y config.endpoint (tenant_auth config.auth t.tenant_id)
          (if short then 5 else 10) (if short then 5 else 60) in
      elim (and_then_throw first (λ names. and_then others λ rest. some (ok (names ∷ rest))) x h) [
        | inl e ↦ inl (x, e)
        | inr (names, e, k) ↦ elim (and_then_throw others (λ rest. some (ok (names ∷ rest))) x k) [
          | inl f ↦ inr (names, e, fetch_all-FetchFails config short ts x f)
          | inr (rest, _, impossible) ↦ cc
        ]
      ]

  do_refresh-FetchFails :
      (holders : List SnapshotPtr) (c : LokiCatalog) (x : Exception)
      → do_refresh ci_equals get y true holders c ≡ some (throw x)
      → FetchFails c.config true c.config.tenants
  unfolding do_refresh
  do_refresh-FetchFails holders c x h =
      elim (and_then_throw (fetch_all ci_equals get y c.config true c.config.tenants) _ x h) [
        | inl f ↦ fetch_all-FetchFails c.config true c.config.tenants x f
        | inr (fetched, _, impossible) ↦ cc
      ]

  after_ttl_refresh-Checked :
      (now_ns : ℤ) (holders : List SnapshotPtr) (c t : LokiCatalog)
      (r : Crashing (Bool × LokiCatalog))
      → do_refresh ci_equals get y true holders c ≡ r
      → after_ttl_refresh ci_equals get y now_ns c r ≡ some t
      → Checked now_ns c t
  unfolding after_ttl_refresh
  after_ttl_refresh-Checked now_ns holders c t none e h = cc
  after_ttl_refresh-Checked now_ns holders c t (some (throw x)) e h =
      inl (do_refresh-FetchFails holders c x e, ground arith)
  after_ttl_refresh-Checked now_ns holders c t (some (ok (published, u))) e h =
      let (fetched, f, r) = do_refresh-Refreshed ci_equals get y true holders c u published e in
      inr (fetched, published, u, f, r, ground arith)

  pub maybe_refresh_labels_due :
      (now_ns first_seen : ℤ) (owns_lock : Bool) (holders : List SnapshotPtr) (c : LokiCatalog)
      → is_due now_ns first_seen owns_lock c ≡ true
      → maybe_refresh_labels ci_equals get y now_ns first_seen owns_lock holders c
        ≡ after_ttl_refresh ci_equals get y now_ns c (do_refresh ci_equals get y true holders c)
  unfolding maybe_refresh_labels
  maybe_refresh_labels_due now_ns first_seen owns_lock holders c h =
      elim (Bool-cases (c.config.labels_pinned || eq_ℤ c.config.label_cache_ttl_ns (pos 0))) [
        | inl a ↦ absurd (ground arith)
        | inr a ↦
            elim (Bool-cases
              (ltb_ℤ now_ns first_seen || not owns_lock || ltb_ℤ now_ns c.next_check_ns)) [
                | inl b ↦ absurd (ground arith)
                | inr b ↦ rw (a, b) refl
              ]
      ]

  pub maybe_refresh_labels_idle :
      (now_ns first_seen : ℤ) (owns_lock : Bool) (holders : List SnapshotPtr) (c : LokiCatalog)
      → is_due now_ns first_seen owns_lock c ≡ false
      → maybe_refresh_labels ci_equals get y now_ns first_seen owns_lock holders c ≡ some c
  unfolding maybe_refresh_labels
  maybe_refresh_labels_idle now_ns first_seen owns_lock holders c h =
      elim (Bool-cases (c.config.labels_pinned || eq_ℤ c.config.label_cache_ttl_ns (pos 0))) [
        | inl a ↦ rw a refl
        | inr a ↦
            elim (Bool-cases
              (ltb_ℤ now_ns first_seen || not owns_lock || ltb_ℤ now_ns c.next_check_ns)) [
                | inl b ↦ rw (a, b) refl
                | inr b ↦ absurd (ground arith)
              ]
      ]

  -- No exception leaves the check by lifetime. Where the labels are pinned, the lifetime is 0, the next check
  -- is ahead, or another thread refreshes, the catalog stays as it is. Else the labels of all tenants were
  -- fetched, the catalog refreshed, and the next check is a lifetime away; or the fetch of one failed, and the
  -- catalog keeps its generation and waits for the lifetime, but a minute at least.
  pub maybe_refresh_labels-Checked :
      (now_ns first_seen : ℤ) (owns_lock : Bool) (holders : List SnapshotPtr) (c t : LokiCatalog)
      → maybe_refresh_labels ci_equals get y now_ns first_seen owns_lock holders c ≡ some t
      → ((is_due now_ns first_seen owns_lock c ≡ false) × (t ≡ c))
        ⊎ ((is_due now_ns first_seen owns_lock c ≡ true) × Checked now_ns c t)
  maybe_refresh_labels-Checked now_ns first_seen owns_lock holders c t h =
      elim (Bool-cases (is_due now_ns first_seen owns_lock c)) [
        | inr idle ↦
            let e = maybe_refresh_labels_idle now_ns first_seen owns_lock holders c idle in
            inl (idle, ground arith)
        | inl due ↦ inr (
          due,
          after_ttl_refresh-Checked now_ns holders c t (do_refresh ci_equals get y true holders c)
              refl (sym (maybe_refresh_labels_due now_ns first_seen owns_lock holders c due) ∙ h),
        )
      ]

module _ (ci_equals : Bytes → Bytes → Bool) (get : Call → Outcome) (y : Yyjson) where
  -- After a check that fell due, the next one is a lifetime away at least.
  Checked-next :
      (now ttl : ℕ) (c t : LokiCatalog)
      → c.config.label_cache_ttl_ns ≡ pos ttl
      → now + ttl + 60000000000 < 2 ^ 63
      → Checked ci_equals get y (pos now) c t
      → (n : ℕ) × (t.next_check_ns ≡ pos n) × (now + ttl ≤ n)
  Checked-next now ttl c t e fits (inl (failed, same)) = elim (dec_lt ttl 60000000000) [
    | yes short ↦ (now + 60000000000, ground (arith, add_int64_exact now 60000000000), omega arith)
    | no long ↦ (now + ttl, ground (arith, add_int64_exact now ttl), omega arith)
  ]
  Checked-next now ttl c t e fits (inr (fetched, published, u, f, (_, inl (_, kept)), same)) =
      (now + ttl, ground (arith, add_int64_exact now ttl), omega arith)
  Checked-next now ttl c t e fits
        (inr (fetched, published, u, f, (_, inr (_, _, _, _, kept, _)), same)) =
      (now + ttl, ground (arith, add_int64_exact now ttl), omega arith)

  -- A discovered label set is reused for its lifetime: once a check fell due and ended, also by a failure, no
  -- start of a transaction before the lifetime is over sends a request or changes the catalog, whatever the
  -- server would answer, if the times in nanoseconds are int64 values.
  pub maybe_refresh_labels_quiet :
      (now ttl later : ℕ) (first_seen : ℤ) (owns_lock : Bool) (holders : List SnapshotPtr)
      (c t : LokiCatalog)
      → c.config.label_cache_ttl_ns ≡ pos ttl
      → now + ttl + 60000000000 < 2 ^ 63
      → maybe_refresh_labels ci_equals get y (pos now) first_seen owns_lock holders c ≡ some t
      → is_due ci_equals get y (pos now) first_seen owns_lock c ≡ true
      → later < now + ttl
      → (get' : Call → Outcome) (owns_lock' : Bool) (holders' : List SnapshotPtr)
      → maybe_refresh_labels ci_equals get' y (pos later) t.next_check_ns owns_lock' holders' t
        ≡ some t
  maybe_refresh_labels_quiet now ttl later first_seen owns_lock holders c t e fits h due early get'
        owns_lock' holders' =
      let checked : Checked ci_equals get y (pos now) c t =
        elim (maybe_refresh_labels-Checked ci_equals get y (pos now) first_seen owns_lock holders c
          t h) [ inl (idle, _) ↦ absurd (ground arith) | inr (_, k) ↦ k ] in
      let (n, next, far) = Checked-next now ttl c t e fits checked in
      maybe_refresh_labels_idle ci_equals get' y (pos later) t.next_check_ns owns_lock' holders' t
        (ground arith)
