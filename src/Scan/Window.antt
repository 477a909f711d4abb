-- ===== src/Scan/Window.antt =====
-- The time bounds of src/loki/loki_scan.cpp: what `TryComparison` pushes and `LokiScanInitGlobal` uses.
use duckdb_loki.Base.{◌⊎◌, ◌≡◌, ap, true, false, arith, inl, inr, Bool-cases}
use duckdb_loki.Base.Int.{
  ℤ, pos, ◌+ℤ◌, ◌≤ℤ◌, ◌<ℤ◌, int64_max, int64_min, eq_ℤ, min_ℤ, max_ℤ, pos_part, neg_part, int_laws,
}
use duckdb_loki.Scan.{LokiScanBindData, ExpressionType}
use duckdb_loki.Scan.Pushdown.{push_time_bound, add_start_bound, add_end_bound}
use duckdb_loki.Scan.Init.{effective_start, effective_end}

-- `timestamp op ns` for the instant `t`; another operator gives no bound.
abbrev pub Compares : ExpressionType → ℤ → ℤ → Type 0
Compares ExpressionType.compare_greaterthan t ns = ns <ℤ t
Compares ExpressionType.compare_greaterthanorequalto t ns = ns ≤ℤ t
Compares ExpressionType.compare_lessthan t ns = t <ℤ ns
Compares ExpressionType.compare_lessthanorequalto t ns = t ≤ℤ ns
Compares ExpressionType.compare_equal t ns = t ≡ ns
Compares op t ns = Unit {0}

-- The bounds that have been pushed leave `t` in; the largest instant stands for no end.
abbrev pub InBounds : LokiScanBindData → ℤ → Type 0
InBounds b t = (b.pushed_start_ns ≤ℤ t) × ((t <ℤ b.pushed_end_ns) ⊎ (b.pushed_end_ns ≡ int64_max))

min_bound : (m t ns : ℤ) → ns ≤ℤ m → t <ℤ ns → t <ℤ min_ℤ m ns
min_bound m t ns h k = ground arith

below_next : (m t ns : ℤ) → t ≤ℤ ns → t <ℤ (ns +ℤ pos 1)
below_next m t ns h = omega int_laws

next_le : (m ns : ℤ) → ns ≤ℤ m → eq_ℤ ns m ≡ false → (ns +ℤ pos 1) ≤ℤ m
unfolding ◌+ℤ◌
next_le m ns h k = ground arith

module _ (b : LokiScanBindData) (t ns : ℤ) where
  start_bound : InBounds b t → ns ≤ℤ t → InBounds (add_start_bound b ns) t
  unfolding add_start_bound
  start_bound (s, e) h = (ground arith, e)

  end_bound : InBounds b t → ns ≤ℤ int64_max → t <ℤ ns → InBounds (add_end_bound b ns) t
  unfolding add_end_bound
  end_bound (s, inl e) k h = (s, inl (ground arith))
  end_bound (s, inr e) k h = (s, inl (min_bound b.pushed_end_ns t ns (rw e k) h))

  lt_le : ns <ℤ t → ns ≤ℤ t
  lt_le h = omega arith

eq_le : (t ns : ℤ) → t ≡ ns → ns ≤ℤ t
eq_le t ns e = omega (arith, ap pos_part e, ap neg_part e)

eq_le' : (t ns : ℤ) → t ≡ ns → t ≤ℤ ns
eq_le' t ns e = omega (arith, ap pos_part e, ap neg_part e)

-- An instant of the bounds that a comparison of `timestamp` is true of stays in the bounds that the
-- comparison is pushed into, where the constant is at most the largest instant.
pub push_time_bound-InBounds :
    (op : ExpressionType) (b : LokiScanBindData) (t ns : ℤ)
    → ns ≤ℤ int64_max
    → InBounds b t
    → Compares op t ns
    → InBounds (push_time_bound b op ns) t
unfolding push_time_bound
push_time_bound-InBounds ExpressionType.compare_greaterthan b t ns m w h =
    start_bound b t ns w (lt_le b t ns h)
push_time_bound-InBounds ExpressionType.compare_greaterthanorequalto b t ns m w h =
    start_bound b t ns w h
push_time_bound-InBounds ExpressionType.compare_lessthan b t ns m w h = end_bound b t ns w m h
push_time_bound-InBounds ExpressionType.compare_lessthanorequalto b t ns m w h =
    elim (Bool-cases (eq_ℤ ns int64_max)) [
      | inl e ↦ rw e w
      | inr e ↦
          rw e (end_bound b t (ns +ℤ pos 1) w (next_le int64_max ns m e) (below_next ns t ns h))
    ]
push_time_bound-InBounds ExpressionType.compare_equal b t ns m w h =
    elim (Bool-cases (eq_ℤ ns int64_max)) [
      | inl e ↦ rw e w
      | inr e ↦ rw e (
          end_bound (add_start_bound b ns) t (ns +ℤ pos 1) (start_bound b t ns w (eq_le t ns h))
            (next_le int64_max ns m e) (below_next ns t ns (eq_le' t ns h)))
    ]
push_time_bound-InBounds ExpressionType.compare_notequal b t ns m w h = w
push_time_bound-InBounds ExpressionType.compare_in b t ns m w h = w
push_time_bound-InBounds ExpressionType.operator_not b t ns m w h = w
push_time_bound-InBounds ExpressionType.other_type b t ns m w h = w

-- The argument `start :=` (the default, where neither it nor a bound is given) lets `t` in.
abbrev pub StartAllows : LokiScanBindData → ℤ → Type 0
StartAllows b t =
    (b.start_ns ≤ℤ t) ⊎ ((b.has_param_start ≡ false) × (eq_ℤ b.pushed_start_ns int64_min ≡ false))

abbrev pub EndAllows : LokiScanBindData → ℤ → Type 0
EndAllows b t =
    (t <ℤ b.end_ns) ⊎ ((b.has_param_end ≡ false) × (eq_ℤ b.pushed_end_ns int64_max ≡ false))

max_le : (a b t : ℤ) → a ≤ℤ t → b ≤ℤ t → max_ℤ a b ≤ℤ t
max_le a b t h k = ground arith

lt_min : (a b t : ℤ) → t <ℤ a → t <ℤ b → t <ℤ min_ℤ a b
lt_min a b t h k = ground arith

effective_start_le :
    (b : LokiScanBindData) (t : ℤ)
    → b.pushdown_mode ≡ true
    → b.pushed_start_ns ≤ℤ t
    → StartAllows b t
    → effective_start b ≤ℤ t
unfolding effective_start
effective_start_le b t m w (inl h) = elim (Bool-cases (eq_ℤ b.pushed_start_ns int64_min)) [
  | inl e ↦ rw (m, e) h
  | inr e ↦ elim (Bool-cases b.has_param_start) [
    | inl p ↦ rw (m, e, p) (max_le b.start_ns b.pushed_start_ns t h w)
    | inr p ↦ rw (m, e, p) w
  ]
]
effective_start_le b t m w (inr (p, h)) = rw (m, p, h) w

eq_ℤ-refl : (a : ℤ) → eq_ℤ a a ≡ true
eq_ℤ-refl a = ground arith

before_end :
    (b : LokiScanBindData) (t : ℤ)
    → eq_ℤ b.pushed_end_ns int64_max ≡ false
    → (t <ℤ b.pushed_end_ns) ⊎ (b.pushed_end_ns ≡ int64_max)
    → t <ℤ b.pushed_end_ns
before_end b t h (inl w) = w
before_end b t h (inr e) = let h' : eq_ℤ int64_max int64_max ≡ false = rw e at h in cc

effective_end_lt :
    (b : LokiScanBindData) (t : ℤ)
    → b.pushdown_mode ≡ true
    → (t <ℤ b.pushed_end_ns) ⊎ (b.pushed_end_ns ≡ int64_max)
    → EndAllows b t
    → t <ℤ effective_end b
unfolding effective_end
effective_end_lt b t m w (inl h) = elim (Bool-cases (eq_ℤ b.pushed_end_ns int64_max)) [
  | inl e ↦ rw (m, e) h
  | inr e ↦
      let w' : t <ℤ b.pushed_end_ns = before_end b t e w in
      elim (Bool-cases b.has_param_end) [
        | inl p ↦ rw (m, e, p) (lt_min b.end_ns b.pushed_end_ns t h w')
        | inr p ↦ rw (m, e, p) w'
      ]
]
effective_end_lt b t m w (inr (p, h)) = rw (m, p, h) (before_end b t h w)

-- The window of the query has every instant that the pushed bounds and the arguments `start :=` and
-- `end :=`, or their defaults where nothing else bounds that side, let in.
pub effective_window-InBounds :
    (b : LokiScanBindData) (t : ℤ)
    → b.pushdown_mode ≡ true
    → InBounds b t
    → StartAllows b t
    → EndAllows b t
    → (effective_start b ≤ℤ t) × (t <ℤ effective_end b)
effective_window-InBounds b t m (from, to) s e =
    (effective_start_le b t m from s, effective_end_lt b t m to e)
