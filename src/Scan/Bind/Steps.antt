-- ===== src/Scan/Bind/Steps.antt =====
-- What each step of the binding of `loki_scan` and `loki` (src/loki/loki_scan.cpp) does to the data.
use duckdb_loki.Scan.Promote.{promote_labels, promote_labels-IsPromotable}
use duckdb_loki.Scan.ColumnNames.{IsPromotable, AreDistinct}
use duckdb_loki.Connection.TimeBound.{resolve_time_bound}
use mathlib.Core.Path.{subst}
use duckdb_loki.Base.{
  ◌≡◌, ◌⊎◌, true, Option, none, some, arith, Bytes, codes, ok, throw_if_ok, str_eq_iff, ◌∙◌, ap,
  sym, bind_ok, [], All, not, ◌++◌, ◌&&◌, str_eq,
}
use duckdb_loki.Base.Int.{ℤ, pos, ◌-ℤ◌, ◌≤ℤ◌}
use duckdb_loki.Scan.{LokiScanBindData, loki_nanos_per_hour}
use duckdb_loki.Scan.Bind.{
  DuckdbBind, bind_limit, invalid_limit, bind_direction, bind_start, bind_end, bind_labels,
  invalid_direction,
}

-- The data have a positive limit and a direction, and keep what the caller has set in `start`.
abbrev pub HasSettings : LokiScanBindData → LokiScanBindData → Type 0
HasSettings start b =
    (pos 1 ≤ℤ b.limit)
    × ((b.direction ≡ codes "backward") ⊎ (b.direction ≡ codes "forward"))
    × (b.query ≡ start.query)
    × (b.base_selector ≡ start.base_selector)
    × (b.pushdown_mode ≡ start.pushdown_mode)

-- A bound that no argument gives is an end of the last hour.
abbrev pub HasWindow : ℤ → LokiScanBindData → Type 0
HasWindow now_ns b =
    ((b.has_param_start ≡ true) ⊎ (b.start_ns ≡ now_ns -ℤ loki_nanos_per_hour))
    × ((b.has_param_end ≡ true) ⊎ (b.end_ns ≡ now_ns))

pub ok_injective {ℓ} : {A : Type ℓ} {a b : A} → ok a ≡ ok b → a ≡ b
ok_injective h = cc

module _ (api : DuckdbBind) where
  open api use {db}
  open db use {Value}

  module _ (start b t : LokiScanBindData) where
    pub bind_limit-HasSettings :
        (fn : Bytes) (o : Option Value)
        → HasSettings start b
        → bind_limit api fn o b ≡ ok t
        → HasSettings start t × (t.label_columns ≡ b.label_columns)
    unfolding bind_limit
    bind_limit-HasSettings fn none set h = ground arith
    bind_limit-HasSettings fn (some p) set h =
        let (test, h') =
          throw_if_ok _ (invalid_limit fn) (ok (record b { limit = api.get_bigint p })) t h in
        ground arith

    pub bind_direction-HasSettings :
        (fn : Bytes) (o : Option Value)
        → HasSettings start b
        → bind_direction api fn o b ≡ ok t
        → HasSettings start t × (t.label_columns ≡ b.label_columns)
    unfolding bind_direction
    bind_direction-HasSettings fn none set h = ground arith
    bind_direction-HasSettings fn (some p) set h =
        let direction = db.lower (db.to_string p) in
        let (test, h') =
          throw_if_ok
            (not (str_eq direction (codes "backward")) && not (str_eq direction (codes "forward")))
            (invalid_direction fn) (ok (record b { direction = direction })) t h in
        ground
          (arith, str_eq_iff direction (codes "backward"), str_eq_iff direction (codes "forward"))

    pub bind_start-HasSettings :
        (now_ns : ℤ) (o : Option Value)
        → HasSettings start b
        → b.start_ns ≡ now_ns -ℤ loki_nanos_per_hour
        → bind_start api now_ns o b ≡ ok t
        → HasSettings start t
          × ((t.has_param_start ≡ true) ⊎ (t.start_ns ≡ now_ns -ℤ loki_nanos_per_hour))
          × (t.end_ns ≡ b.end_ns)
          × (t.label_columns ≡ b.label_columns)
    unfolding bind_start
    bind_start-HasSettings now_ns none set w h = ground arith
    bind_start-HasSettings now_ns (some p) set w h =
        let (ns, _, h') = bind_ok (resolve_time_bound db p now_ns) _ t h in ground arith

    pub bind_end-HasSettings :
        (now_ns : ℤ) (o : Option Value)
        → HasSettings start b
        → (b.has_param_start ≡ true) ⊎ (b.start_ns ≡ now_ns -ℤ loki_nanos_per_hour)
        → b.end_ns ≡ now_ns
        → bind_end api now_ns o b ≡ ok t
        → HasSettings start t × HasWindow now_ns t × (t.label_columns ≡ b.label_columns)
    unfolding bind_end
    bind_end-HasSettings now_ns none set w e h = ground arith
    bind_end-HasSettings now_ns (some p) set w e h =
        let (ns, _, h') = bind_ok (resolve_time_bound db p now_ns) _ t h in ground arith

    pub bind_labels-HasSettings :
        (now_ns : ℤ) (fn : Bytes) (o : Option Value)
        → HasSettings start b
        → HasWindow now_ns b
        → b.label_columns ≡ []
        → bind_labels api fn o b ≡ ok t
        → HasSettings start t
          × HasWindow now_ns t
          × All (IsPromotable api.ci_equals) t.label_columns
          × AreDistinct api.ci_equals t.label_columns
    unfolding bind_labels
    bind_labels-HasSettings now_ns fn none set w e h =
        let same : b ≡ t = cc in
        subst
          (λ t.
            HasSettings start t
            × HasWindow now_ns t
            × All (IsPromotable api.ci_equals) t.label_columns
            × AreDistinct api.ci_equals t.label_columns)
          same
          (
            set,
            w,
            subst (All (IsPromotable api.ci_equals)) (sym e) tt,
            subst (AreDistinct api.ci_equals) (sym e) tt,
          )
    bind_labels-HasSettings now_ns fn (some p) set w e h =
        let (labels, read, h') =
          bind_ok
            (promote_labels Value db.is_null db.to_string api.ci_equals fn [] (api.get_children p))
            _ t h in
        let (good, distinct) =
          promote_labels-IsPromotable Value db.is_null db.to_string api.ci_equals fn labels
            (api.get_children p) read in
        let same : record b { label_columns = labels } ≡ t =
          ap (λ ls. record b { label_columns = ls ++ labels }) (sym e) ∙ ok_injective h' in
        subst
          (λ t.
            HasSettings start t
            × HasWindow now_ns t
            × All (IsPromotable api.ci_equals) t.label_columns
            × AreDistinct api.ci_equals t.label_columns)
          same (set, w, good, distinct)
