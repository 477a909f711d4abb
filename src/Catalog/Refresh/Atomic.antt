-- ===== src/Catalog/Refresh/Atomic.antt =====
-- `DoRefresh` and `MaybeRefreshLabels` of src/loki/catalog.cpp: all or nothing.
use duckdb_loki.Catalog.Snapshots.{build_snapshot}
use mathlib.Core.Path.{subst}
use duckdb_loki.Base.{
  ◌≡◌, refl, Bool, true, some, List, [], ◌∷◌, arith, Bytes, ok, Crashing, and_then_ok,
  if◌then◌else◌, eq_of_str_eq, str_eq_refl, ◌≢◌, ◌⊎◌, inl, inr, Bool-cases, sym, ap, ◌∙◌, ◌+◌,
  false,
}
use duckdb_loki.HttpClient.{Call, Outcome}
use duckdb_loki.Parse.{Yyjson}
use duckdb_loki.Catalog.{LokiTenant, LokiCatalogConfig, tenant_auth, LokiCatalog, SnapshotPtr}
use duckdb_loki.Catalog.FetchLabels.{fetch_loki_label_names, AreColumns}
use duckdb_loki.Catalog.FetchedNames.{Fetched, fetch_loki_label_names-Fetched}
use duckdb_loki.Catalog.Refresh.{
  names_eq, label_columns_eq, fetch_all, do_refresh, publish, publish_version, next_version,
}

eq_of_names_eq : (xs ys : List Bytes) → names_eq xs ys ≡ true → xs ≡ ys
unfolding names_eq
eq_of_names_eq [] [] h = refl
eq_of_names_eq [] (y ∷ ys) h = cc
eq_of_names_eq (x ∷ xs) [] h = cc
eq_of_names_eq (x ∷ xs) (y ∷ ys) h = ground (arith, eq_of_str_eq x y, eq_of_names_eq xs ys)

eq_of_label_columns_eq : (xs ys : List (List Bytes)) → label_columns_eq xs ys ≡ true → xs ≡ ys
unfolding label_columns_eq
eq_of_label_columns_eq [] [] h = refl
eq_of_label_columns_eq [] (y ∷ ys) h = cc
eq_of_label_columns_eq (x ∷ xs) [] h = cc
eq_of_label_columns_eq (x ∷ xs) (y ∷ ys) h =
    ground (arith, eq_of_names_eq x y, eq_of_label_columns_eq xs ys)

names_eq_refl : (xs : List Bytes) → names_eq xs xs ≡ true
unfolding names_eq
names_eq_refl [] = refl
names_eq_refl (x ∷ xs) = ground (arith, str_eq_refl x, names_eq_refl xs)

label_columns_eq_refl : (xs : List (List Bytes)) → label_columns_eq xs xs ≡ true
unfolding label_columns_eq
label_columns_eq_refl [] = refl
label_columns_eq_refl (x ∷ xs) = ground (arith, names_eq_refl x, label_columns_eq_refl xs)

module _ (ci_equals : Bytes → Bytes → Bool) (get : Call → Outcome) (y : Yyjson) where
  -- The labels of every tenant as one fetch each gave them.
  abbrev pub FetchedFor : LokiCatalogConfig → Bool → List LokiTenant → List (List Bytes) → Type 0
  FetchedFor config short [] [] = Unit
  FetchedFor config short [] (n ∷ ns) = ⊥
  FetchedFor config short (t ∷ ts) [] = ⊥
  FetchedFor config short (t ∷ ts) (n ∷ ns) =
      (fetch_loki_label_names ci_equals get y config.endpoint (tenant_auth config.auth t.tenant_id)
          (if short then 5 else 10) (if short then 5 else 60)
        ≡ some (ok n))
      × AreColumns ci_equals n
      × FetchedFor config short ts ns

  columns_of :
      (r : Crashing (List Bytes)) (n : List Bytes)
      → Fetched ci_equals y r
      → r ≡ some (ok n)
      → AreColumns ci_equals n
  columns_of r n h e = subst (Fetched ci_equals y) e h

  pub fetch_all-FetchedFor :
      (config : LokiCatalogConfig) (short : Bool) (ts : List LokiTenant)
      (fetched : List (List Bytes))
      → fetch_all ci_equals get y config short ts ≡ some (ok fetched)
      → FetchedFor config short ts fetched
  unfolding fetch_all
  fetch_all-FetchedFor config short [] [] h = tt
  fetch_all-FetchedFor config short [] (n ∷ ns) h = absurd (ground arith)
  fetch_all-FetchedFor config short (t ∷ ts) fetched h =
      let auth = tenant_auth config.auth t.tenant_id in
      let (names, e, k) =
        and_then_ok
          (fetch_loki_label_names ci_equals get y config.endpoint auth (if short then 5 else 10)
            (if short then 5 else 60))
          _ fetched h in
      let (rest, f, g) = and_then_ok (fetch_all ci_equals get y config short ts) _ fetched k in
      let same : names ∷ rest ≡ fetched = ground arith in
      subst (FetchedFor config short (t ∷ ts)) same (
        e,
        columns_of _ names
            (fetch_loki_label_names-Fetched ci_equals y get config.endpoint auth
              (if short then 5 else 10) (if short then 5 else 60))
            e,
        fetch_all-FetchedFor config short ts rest f,
      )

  -- What a refresh that succeeds has done to the catalog, if `fetched` are the labels of its tenants.
  abbrev pub Refreshed : List (List Bytes) → LokiCatalog → Bool → LokiCatalog → Type 0
  Refreshed fetched c published t =
      (t.current.snapshot.label_columns ≡ fetched)
      × (((published ≡ false) × (t ≡ c))
          ⊎ ((published ≡ true)
              × (c.current.snapshot.label_columns ≢ fetched)
              × (t.current.snapshot
                  ≡ build_snapshot c.config fetched (c.current.snapshot.version + 1))
              × (t.current.address ≡ c.next_address)
              × (t.config ≡ c.config)
              × (t.next_check_ns ≡ c.next_check_ns)))

  differs :
      (fetched : List (List Bytes)) (c : LokiCatalog)
      → label_columns_eq c.current.snapshot.label_columns fetched ≡ false
      → c.current.snapshot.label_columns ≢ fetched
  differs fetched c other e =
      let same : label_columns_eq fetched fetched ≡ false =
        subst (λ ls. label_columns_eq ls fetched ≡ false) e other in
      ground (arith, label_columns_eq_refl fetched)

  publish-Refreshed :
      (holders : List SnapshotPtr) (fetched : List (List Bytes)) (c : LokiCatalog)
      → label_columns_eq c.current.snapshot.label_columns fetched ≡ false
      → Refreshed fetched c true
          (publish holders (build_snapshot c.config fetched (c.current.snapshot.version + 1)) c)
  unfolding publish build_snapshot
  publish-Refreshed holders fetched c other =
      (refl, inr (refl, (λ e. differs fetched c other e), refl, refl, refl, refl))

  publish_version-Refreshed :
      (holders : List SnapshotPtr) (fetched : List (List Bytes)) (c t : LokiCatalog)
      (published : Bool)
      → publish_version holders fetched c (next_version c fetched) ≡ (published, t)
      → Refreshed fetched c published t
  publish_version-Refreshed holders fetched c t published h =
      elim (Bool-cases (label_columns_eq c.current.snapshot.label_columns fetched)) [
        | inl same ↦
            let e0 : publish_version holders fetched c (next_version c fetched) ≡ (false, c) =
              unfold publish_version next_version in rw same refl in
            let h' : (false, c) ≡ (published, t) = sym e0 ∙ h in
            (
              ap (λ (k : LokiCatalog). k.current.snapshot.label_columns) (sym (ap (λ r. r.1) h'))
                  ∙ eq_of_label_columns_eq c.current.snapshot.label_columns fetched same,
              inl (sym (ap (λ r. r.0) h'), sym (ap (λ r. r.1) h')),
            )
        | inr other ↦
            let next =
              publish holders (build_snapshot c.config fetched (c.current.snapshot.version + 1))
                c in
            let e0 : publish_version holders fetched c (next_version c fetched) ≡ (true, next) =
              unfold publish_version next_version in rw other refl in
            let h' : (true, next) ≡ (published, t) = sym e0 ∙ h in
            subst (λ (r : Bool × LokiCatalog). Refreshed fetched c r.0 r.1) h'
              (publish-Refreshed holders fetched c other)
      ]

  -- A refresh that succeeds has fetched the labels of every tenant, and the current generation has them: if
  -- they are those that it had, nothing changes; else there is one new generation at a new address, whose
  -- version is one more and whose schemas are built from them. The configuration and the time of the next
  -- check stay.
  pub do_refresh-Refreshed :
      (short : Bool) (holders : List SnapshotPtr) (c t : LokiCatalog) (published : Bool)
      → do_refresh ci_equals get y short holders c ≡ some (ok (published, t))
      → (fetched : List (List Bytes)) × FetchedFor c.config short c.config.tenants fetched
        × Refreshed fetched c published t
  unfolding do_refresh
  do_refresh-Refreshed short holders c t published h =
      let (fetched, e, k) =
        and_then_ok (fetch_all ci_equals get y c.config short c.config.tenants) _ (published, t)
          h in
      (
        fetched,
        fetch_all-FetchedFor c.config short c.config.tenants fetched e,
        publish_version-Refreshed holders fetched c t published (ground arith),
      )
