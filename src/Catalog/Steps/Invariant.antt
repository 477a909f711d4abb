-- ===== src/Catalog/Steps/Invariant.antt =====
-- The pointers of src/loki/catalog.cpp in every reachable state: what is held is kept, and no address stands
-- twice.
use duckdb_loki.Catalog.Steps.{
  System, Step, Reach, attached, start, later, lock_refresh, fail_refresh, check_labels,
  publish_snapshot, unlock_refresh, begin_transaction, end_transaction,
}
use duckdb_loki.Catalog.Transactions.{pins, erase_transaction}
use duckdb_loki.Catalog.Snapshots.{initialize, new_catalog, pin_current_snapshot}
use duckdb_loki.Parse.{Yyjson}
use duckdb_loki.Base.Int.{ℤ}
use mathlib.Core.Path.{subst}
use duckdb_loki.Base.{ℕ, ◌+◌, ◌≤◌, ◌<◌, ◌≡◌, List, [], ◌∷◌, ◌++◌, arith, length, sym, Bytes, Bool}
use duckdb_loki.Catalog.{
  LokiCatalogSnapshot, SnapshotPtr, LokiCatalog, LokiCatalogConfig, LokiTransaction,
}
use duckdb_loki.Catalog.Refresh.{count, publish}
use duckdb_loki.Catalog.Refresh.Prune.{
  here, count-append, AreAlive, AreApart, ArePinned, prune-AreAlive, prune-le, prune-ArePinned,
}

-- What the catalog holds at an address: its current generation, or retired ones.
abbrev pub owned : LokiCatalog → ℕ → ℕ
owned c a = here c.current a + count a c.retired

-- `alive`: what a transaction pins, the catalog holds too. `apart`: no address twice. `allocated`: addresses
-- below the next one.
pub record IsSound (c : LokiCatalog) (holders : List SnapshotPtr) : Type 0 where
  pub alive : (a : ℕ) → 0 < count a holders → 0 < owned c a
  pub apart : (a : ℕ) → owned c a ≤ 1
  pub allocated : (a : ℕ) → 0 < owned c a → a < c.next_address

module _ (c : LokiCatalog) (holders : List SnapshotPtr) (snapshot : LokiCatalogSnapshot)
    (sound : IsSound c holders) where
  open sound use {alive, apart, allocated}

  abbrev pub next : SnapshotPtr
  next = record { address = c.next_address; snapshot = snapshot }

  abbrev superseded : List SnapshotPtr
  superseded = c.retired ++ c.current ∷ []

  count-superseded : (a : ℕ) → count a superseded ≡ owned c a
  unfolding count
  count-superseded a = omega (arith, count-append a c.retired (c.current ∷ []))

  superseded-AreAlive : AreAlive next holders superseded
  superseded-AreAlive a held = omega (arith, count-superseded a, alive a held)

  superseded-AreApart : AreApart next holders superseded
  superseded-AreApart a = ground (arith, count-superseded a, apart a, allocated a)

  pub publish-IsSound : IsSound (publish holders snapshot c) holders
  unfolding publish
  publish-IsSound = record {
    alive = λ a held.
        prune-AreAlive next holders (length superseded) superseded superseded-AreAlive a held;
    apart = λ a.
        omega
          (arith, superseded-AreApart a, prune-le next holders a (length superseded) superseded);
    allocated = λ a held. ground (
      arith,
      prune-le next holders a (length superseded) superseded,
      count-superseded a,
      allocated a,
    );
  }

  -- After a publication, each retired generation that is left is pinned by somebody.
  pub publish-ArePinned : ArePinned next holders (publish holders snapshot c).retired
  unfolding publish
  publish-ArePinned = prune-ArePinned next holders superseded superseded-AreApart

count-erase_transaction :
    (a id : ℕ) (ts : List LokiTransaction)
    → count a (pins (erase_transaction id ts)) ≤ count a (pins ts)
unfolding count erase_transaction
count-erase_transaction a id [] = omega arith
count-erase_transaction a id (t ∷ ts) = ground (arith, count-erase_transaction a id ts)

abbrev pub SoundSystem : System → Type 0
SoundSystem s = IsSound s.catalog (pins s.transactions)

-- A change of the time of the next check alone.
retimed :
    (c : LokiCatalog) (holders : List SnapshotPtr) (n : ℤ)
    → IsSound c holders
    → IsSound (record c { next_check_ns = n }) holders
retimed c holders n sound = record {
  alive = sound.alive;
  apart = sound.apart;
  allocated = sound.allocated;
}

begun :
    (s : System)
    → SoundSystem s
    → IsSound s.catalog (pin_current_snapshot s.catalog ∷ pins s.transactions)
unfolding pin_current_snapshot count
begun s sound = record {
  alive = λ a held. ground (arith, sound.alive a);
  apart = sound.apart;
  allocated = sound.allocated;
}

ended :
    (id : ℕ) (s : System)
    → SoundSystem s
    → IsSound s.catalog (pins (erase_transaction id s.transactions))
ended id s sound = record {
  alive = λ a held. sound.alive a (omega (arith, count-erase_transaction a id s.transactions));
  apart = sound.apart;
  allocated = sound.allocated;
}

module _ (ci_equals : Bytes → Bytes → Bool) (y : Yyjson) where
  Step-SoundSystem : (s u : System) → Step ci_equals y s u → SoundSystem s → SoundSystem u
  Step-SoundSystem s u (lock_refresh e same) sound = subst SoundSystem (sym same) sound
  Step-SoundSystem s u (fail_refresh n e same) sound =
      subst SoundSystem (sym same) (retimed s.catalog (pins s.transactions) n sound)
  Step-SoundSystem s u (check_labels get short fetched e f same) sound =
      subst SoundSystem (sym same) sound
  Step-SoundSystem s u (publish_snapshot snapshot e same) sound =
      subst SoundSystem (sym same) (publish-IsSound s.catalog (pins s.transactions) snapshot sound)
  Step-SoundSystem s u (unlock_refresh n e same) sound =
      subst SoundSystem (sym same) (retimed s.catalog (pins s.transactions) n sound)
  Step-SoundSystem s u (begin_transaction id fresh same) sound =
      subst SoundSystem (sym same) (begun s sound)
  Step-SoundSystem s u (end_transaction id same) sound =
      subst SoundSystem (sym same) (ended id s sound)

  attached-SoundSystem :
      (config : LokiCatalogConfig) (now_ns : ℤ) → SoundSystem (attached ci_equals y config now_ns)
  unfolding initialize new_catalog count
  attached-SoundSystem config now_ns = record {
    alive = λ a held. absurd (omega arith);
    apart = λ a. ground arith;
    allocated = λ a held. ground arith;
  }

  -- In every state that threads can reach, in any order of their steps: what a transaction pins is the current
  -- generation or a retired one, no generation is owned twice, and a new one gets an address of its own.
  pub Reach-IsSound :
      (config : LokiCatalogConfig) (now_ns : ℤ) (s : System)
      → Reach ci_equals y config now_ns s
      → IsSound s.catalog (pins s.transactions)
  Reach-IsSound config now_ns s start = attached-SoundSystem config now_ns
  Reach-IsSound config now_ns u (later {s} r st) =
      Step-SoundSystem s u st (Reach-IsSound config now_ns s r)
