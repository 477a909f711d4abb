-- ===== src/Catalog/Refresh/Prune.antt =====
-- The loop over `retired` in `DoRefresh` of src/loki/catalog.cpp: a generation is dropped exactly where nobody
-- else holds it.
use duckdb_loki.Base.{
  ℕ, zero, suc, ◌+◌, ◌≤◌, ◌<◌, ◌≡◌, refl, inl, inr, Bool-cases, false, ◌==◌, Option, none, some,
  List, [], ◌∷◌, ◌++◌, arith, length, drop, drop-none, drop-some, get_elem?, if◌then◌else◌, All,
}
use duckdb_loki.Catalog.{SnapshotPtr}
use duckdb_loki.Catalog.Refresh.{count, use_count, erase_at, prune_found, prune}

abbrev pub here : SnapshotPtr → ℕ → ℕ
here p a = if p.address == a then 1 else 0

pub count-append : (a : ℕ) (ps qs : List SnapshotPtr) → count a (ps ++ qs) ≡ count a ps + count a qs
unfolding count
count-append a [] qs = omega arith
count-append a (p ∷ ps) qs = ground (arith, count-append a ps qs)

count-erase_at :
    (a i : ℕ) (ps : List SnapshotPtr) (p : SnapshotPtr)
    → get_elem? ps i ≡ some p
    → count a ps ≡ here p a + count a (erase_at i ps)
unfolding count erase_at
count-erase_at a i [] p h = cc
count-erase_at a zero (q ∷ ps) p h = ground arith
count-erase_at a (suc i) (q ∷ ps) p h = ground (arith, count-erase_at a i ps p)

drop-erase_at {ℓ} : {A : Type ℓ} (i : ℕ) (xs : List A) → drop i (erase_at i xs) ≡ drop (suc i) xs
unfolding erase_at
drop-erase_at zero [] = refl
drop-erase_at (suc i) [] = refl
drop-erase_at zero (x ∷ xs) = refl
drop-erase_at (suc i) (x ∷ xs) = drop-erase_at i xs

module _ (current : SnapshotPtr) (holders : List SnapshotPtr) where
  -- Whatever somebody holds is the current generation or a retired one.
  abbrev pub AreAlive : List SnapshotPtr → Type 0
  AreAlive retired = (a : ℕ) → 0 < count a holders → 0 < here current a + count a retired

  -- No address stands twice among the current generation and the retired ones.
  abbrev pub AreApart : List SnapshotPtr → Type 0
  AreApart retired = (a : ℕ) → here current a + count a retired ≤ 1

  abbrev pub ArePinned : List SnapshotPtr → Type 0
  ArePinned ps = All (λ (p : SnapshotPtr). 0 < count p.address holders) ps

  prune_found-AreAlive :
      (i : ℕ) (retired : List SnapshotPtr) (o : Option SnapshotPtr)
      → get_elem? retired i ≡ o
      → AreAlive retired
      → AreAlive (prune_found current holders i retired o)
  unfolding prune_found use_count
  prune_found-AreAlive i retired none e alive a held = alive a held
  prune_found-AreAlive i retired (some p) e alive a held =
      ground (arith, count-erase_at a i retired p, count-erase_at p.address i retired p, alive a)

  -- The loop drops nothing that is held.
  pub prune-AreAlive :
      (i : ℕ) (retired : List SnapshotPtr)
      → AreAlive retired
      → AreAlive (prune i current holders retired)
  unfolding prune
  prune-AreAlive zero retired alive = alive
  prune-AreAlive (suc i) retired alive =
      prune-AreAlive i (prune_found current holders i retired (get_elem? retired i))
        (prune_found-AreAlive i retired (get_elem? retired i) refl alive)

  prune_found-le :
      (a i : ℕ) (retired : List SnapshotPtr) (o : Option SnapshotPtr)
      → get_elem? retired i ≡ o
      → count a (prune_found current holders i retired o) ≤ count a retired
  unfolding prune_found
  prune_found-le a i retired none e = omega arith
  prune_found-le a i retired (some p) e = ground (arith, count-erase_at a i retired p)

  -- The loop adds nothing.
  pub prune-le :
      (a i : ℕ) (retired : List SnapshotPtr)
      → count a (prune i current holders retired) ≤ count a retired
  unfolding prune
  prune-le a zero retired = omega arith
  prune-le a (suc i) retired = omega (
    arith,
    prune_found-le a i retired (get_elem? retired i) refl,
    prune-le a i (prune_found current holders i retired (get_elem? retired i)),
  )

  is_held :
      (i : ℕ) (retired : List SnapshotPtr) (p : SnapshotPtr)
      → get_elem? retired i ≡ some p
      → AreApart retired
      → (use_count current retired holders p.address == 1) ≡ false
      → 0 < count p.address holders
  unfolding use_count
  is_held i retired p e apart held =
      ground (arith, count-erase_at p.address i retired p, apart p.address)

  prune_found-ArePinned :
      (i : ℕ) (retired : List SnapshotPtr) (o : Option SnapshotPtr)
      → get_elem? retired i ≡ o
      → AreApart retired
      → ArePinned (drop (suc i) retired)
      → ArePinned (drop i (prune_found current holders i retired o))
  prune_found-ArePinned i retired none e apart pinned =
      unfold prune_found in rw (drop-none retired i e) tt
  prune_found-ArePinned i retired (some p) e apart pinned =
      elim (Bool-cases (use_count current retired holders p.address == 1)) [
        | inl alone ↦ unfold prune_found in rw (alone, drop-erase_at i retired) pinned
        | inr held ↦
            unfold prune_found in
            rw (held, drop-some retired i p e) (is_held i retired p e apart held, pinned)
      ]

  prune_pinned :
      (i : ℕ) (retired : List SnapshotPtr)
      → AreApart retired
      → ArePinned (drop i retired)
      → ArePinned (prune i current holders retired)
  unfolding prune
  prune_pinned zero retired apart pinned = pinned
  prune_pinned (suc i) retired apart pinned =
      let o = get_elem? retired i in
      prune_pinned i (prune_found current holders i retired o)
        (λ a. omega (arith, apart a, prune_found-le a i retired o refl))
        (prune_found-ArePinned i retired o refl apart pinned)

  drop_all : {A : Type 0} (xs : List A) → drop (length xs) xs ≡ []
  drop_all [] = refl
  drop_all (x ∷ xs) = drop_all xs

  -- The loop over all places leaves nothing that nobody holds.
  pub prune-ArePinned :
      (retired : List SnapshotPtr)
      → AreApart retired
      → ArePinned (prune (length retired) current holders retired)
  prune-ArePinned retired apart =
      prune_pinned (length retired) retired apart (rw (drop_all retired) tt)
