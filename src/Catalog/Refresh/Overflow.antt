-- ===== src/Catalog/Refresh/Overflow.antt =====
-- `MaybeRefreshLabels` of src/loki/catalog.cpp where the lifetime ends past the largest int64: the sum of the time
-- and the lifetime wraps.
use native.Mathlib.Decide.{dec_lt}
use mathlib.Core.Path.{subst}
use duckdb_loki.Base.{
  ℕ, ◌+◌, ◌^◌, ◌≤◌, ◌<◌, ◌≡◌, arith, sym, Bool, true, false, some, List, [], ◌∷◌, Bytes, All, inl,
  inr,
}
use duckdb_loki.Base.Int.{pos, ◌<ℤ◌}
use duckdb_loki.Parse.{Yyjson}
use duckdb_loki.HttpClient.{Call, Outcome}
use duckdb_loki.Catalog.{SnapshotPtr, LokiCatalog}
use duckdb_loki.Catalog.Snapshots.{add_int64, initialize}
use duckdb_loki.Catalog.Refresh.{maybe_refresh_labels}
use duckdb_loki.Catalog.Refresh.Lifetime.{Checked, maybe_refresh_labels-Checked, add_int64_wraps}

-- A start of a transaction: its time, the server, and the pointers that others hold.
pub record Start : Type 0 where
  pub time : ℕ
  pub get : Call → Outcome
  pub holders : List SnapshotPtr

module _ (ci_equals : Bytes → Bytes → Bool) (y : Yyjson) where
  -- Every start, one after the other, comes to a check by requests, however it ends.
  abbrev pub AllChecked : LokiCatalog → List Start → Type 0
  AllChecked c [] = Unit
  AllChecked c (s ∷ ss) =
      (t : LokiCatalog)
      → maybe_refresh_labels ci_equals s.get y (pos s.time) c.next_check_ns true s.holders c
        ≡ some t
      → Checked ci_equals s.get y (pos s.time) c t × AllChecked t ss

  -- The next check lies before the epoch, and nothing stops a check.
  abbrev IsOverdue : ℕ → LokiCatalog → Type 0
  IsOverdue ttl c =
      (c.config.labels_pinned ≡ false)
      × (c.config.label_cache_ttl_ns ≡ pos ttl)
      × (c.next_check_ns <ℤ pos 0)

  module _ (ttl : ℕ) (short : ttl < 2 ^ 63) where
    Checked-IsOverdue :
        (s : Start) (c t : LokiCatalog)
        → s.time < 2 ^ 63
        → 2 ^ 63 ≤ s.time + ttl
        → IsOverdue ttl c
        → Checked ci_equals s.get y (pos s.time) c t
        → IsOverdue ttl t
    Checked-IsOverdue s c t now over (free, e, past) (inl (failed, same)) =
        elim (dec_lt ttl 60000000000) [
          | yes less ↦ ground (arith, add_int64_wraps s.time 60000000000)
          | no more ↦ ground (arith, add_int64_wraps s.time ttl)
        ]
    Checked-IsOverdue s c t now over (free, e, past)
          (inr (fetched, published, u, f, (_, inl (_, kept)), same)) =
        ground (arith, add_int64_wraps s.time ttl)
    Checked-IsOverdue s c t now over (free, e, past)
          (inr (fetched, published, u, f, (_, inr (_, _, _, _, kept, _)), same)) =
        ground (arith, add_int64_wraps s.time ttl)

    overdue_checks :
        (since : ℕ) (ss : List Start) (c : LokiCatalog)
        → 2 ^ 63 ≤ since + ttl
        → All (λ (s : Start). (since ≤ s.time) × (s.time < 2 ^ 63)) ss
        → IsOverdue ttl c
        → AllChecked c ss
    overdue_checks since [] c over times h = tt
    overdue_checks since (s ∷ ss) c over ((from, to), times) (free, e, past) = λ t ran.
        let checked : Checked ci_equals s.get y (pos s.time) c t =
          elim (maybe_refresh_labels-Checked ci_equals s.get y (pos s.time) c.next_check_ns true
            s.holders c t ran) [ inl (idle, _) ↦ absurd (ground arith) | inr (_, k) ↦ k ] in
        (
          checked,
          overdue_checks since ss t over times
              (Checked-IsOverdue s c t to (omega arith) (free, e, past) checked),
        )

  -- If the labels are not pinned and the lifetime is so long that its end is no int64, the time of the next check
  -- wraps and lies in the past, at ATTACH and after every check: each start of a transaction from then on that gets
  -- the lock and does not crash the process has asked Loki for the labels of the tenants, be it that all fetches
  -- succeeded or that one failed.
  pub initialize_overflow :
      (now ttl : ℕ) (c : LokiCatalog) (ss : List Start)
      → c.config.labels_pinned ≡ false
      → c.config.label_cache_ttl_ns ≡ pos ttl
      → now < 2 ^ 63
      → ttl < 2 ^ 63
      → 2 ^ 63 ≤ now + ttl
      → All (λ (s : Start). (now ≤ s.time) × (s.time < 2 ^ 63)) ss
      → AllChecked (initialize (pos now) c) ss
  unfolding initialize
  initialize_overflow now ttl c ss free e fits short over times =
      let wrapped = add_int64_wraps now ttl fits short over in
      overdue_checks ttl short now ss (initialize (pos now) c) over times
        (free, e, subst (λ l. add_int64 (pos now) l <ℤ pos 0) (sym e) wrapped)
