-- ===== src/Catalog/Steps/Freed.antt =====
-- `DoRefresh` of src/loki/catalog.cpp: which generations a publication frees.
use duckdb_loki.Base.{
  ℕ, ◌+◌, ◌<◌, ◌≡◌, ◌↔◌, ◌==◌, ==_iff, List, [], ◌∷◌, arith, if◌then◌else◌, All, inl, inr,
  Bool-cases, refl,
}
use duckdb_loki.Catalog.{LokiCatalogSnapshot, SnapshotPtr, LokiCatalog}
use duckdb_loki.Catalog.Refresh.{count, publish}
use duckdb_loki.Catalog.Steps.Invariant.{owned, IsSound, publish-IsSound, publish-ArePinned}

count-pinned :
    (a : ℕ) (holders ps : List SnapshotPtr)
    → All (λ (p : SnapshotPtr). 0 < count p.address holders) ps
    → 0 < count a ps
    → 0 < count a holders
unfolding count
count-pinned a holders [] h k = absurd (omega arith)
count-pinned a holders (p ∷ ps) (h, hs) k = elim (Bool-cases (p.address == a)) [
  | inl e ↦ let same : p.address ≡ a = (==_iff p.address a).0 e in rw same at h
  | inr e ↦ count-pinned a holders ps hs (ground arith)
]

module _ (c : LokiCatalog) (holders : List SnapshotPtr) (snapshot : LokiCatalogSnapshot) where
  new_address :
      (a : ℕ)
      → owned (publish holders snapshot c) a
        ≡ (if c.next_address == a then 1 else 0) + count a (publish holders snapshot c).retired
  unfolding publish
  new_address a = refl

  -- When a generation is published, the catalog keeps exactly those of its former generations that somebody
  -- pins, and frees the others at once: so the one that was current is freed if no transaction has pinned it,
  -- whoever else still points into it.
  pub publish-owned :
      IsSound c holders
      → (a : ℕ) → 0 < owned c a
      → (0 < owned (publish holders snapshot c) a) ↔ (0 < count a holders)
  publish-owned sound a old = (
    λ kept.
        count-pinned a holders (publish holders snapshot c).retired
          (publish-ArePinned c holders snapshot sound)
          (ground (arith, new_address a, sound.allocated a)),
    λ held. (publish-IsSound c holders snapshot sound).alive a held,
  )
