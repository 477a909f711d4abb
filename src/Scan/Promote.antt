-- ===== src/Scan/Promote.antt =====
-- The argument `labels :=` of the scan functions, in `LokiResolveCommon` of src/loki/loki_scan.cpp.
use mathlib.Core.Path.{subst}
use duckdb_loki.Base.{
  ◌≡◌, Bool, false, not, List, [], ◌∷◌, ◌++◌, arith, Bytes, codes, All, All-append, Exception,
  binder_exception, Result, ok, ◌>>◌, throw_if,
}
use duckdb_loki.Logql.{is_valid_label_name}
use duckdb_loki.Scan.ColumnNames.{
  is_reserved_column_name, has_seen, IsPromotable, AreDistinct, has_seen-All, AreDistinct-append,
}

abbrev pub null_label : Bytes → Exception
null_label fn = binder_exception (fn ++ codes " 'labels' must not contain NULL entries")

abbrev pub invalid_label : Bytes → Bytes → Exception
invalid_label fn label = binder_exception (
    fn
    ++ (codes ": invalid label name '"
        ++ (label ++ codes "' in 'labels'; label names must match [a-zA-Z_][a-zA-Z0-9_]*")))

abbrev pub reserved_label : Bytes → Bytes → Exception
reserved_label fn label = binder_exception (
    fn
    ++ (codes ": label '"
        ++ (label
            ++ (codes
                  "' cannot be promoted — that name is already one of the fixed output columns (timestamp, line, labels, structured_metadata); read it from the labels MAP instead, e.g. labels['"
                ++ (label ++ codes "']")))))

abbrev pub duplicate_label : Bytes → Bytes → Exception
duplicate_label fn label =
    binder_exception (fn ++ (codes ": duplicate label '" ++ (label ++ codes "' in 'labels'")))

-- The members of the list as DuckDB gives them, and its case-insensitive equality of names.
module _ (Value : Type 0) (is_null : Value → Bool) (to_string : Value → Bytes)
    (ci_equals : Bytes → Bytes → Bool) where
  -- The loop; `seen` holds the labels that have been promoted.
  unfoldable pub promote_labels : Bytes → List Bytes → List Value → Result (List Bytes)
  unfolding is_reserved_column_name has_seen
  promote_labels fn labels [] = ok labels
  promote_labels fn labels (child ∷ children) =
      let label = to_string child in
      throw_if (is_null child) (null_label fn)
      >> (throw_if (not (is_valid_label_name label)) (invalid_label fn label)
          >> (throw_if (is_reserved_column_name ci_equals label) (reserved_label fn label)
              >> (throw_if (has_seen ci_equals labels label) (duplicate_label fn label)
                  >> promote_labels fn (labels ++ label ∷ []) children)))

  promote_step :
      (fn : Bytes) (labels result : List Bytes) (child : Value) (children : List Value)
      → promote_labels fn labels (child ∷ children) ≡ ok result
      → IsPromotable ci_equals (to_string child)
        × (has_seen ci_equals labels (to_string child) ≡ false)
        × (promote_labels fn (labels ++ to_string child ∷ []) children ≡ ok result)
  unfolding promote_labels
  promote_step fn labels result child children h = ground arith

  promote_labels-invariant :
      (fn : Bytes) (labels result : List Bytes) (children : List Value)
      → All (IsPromotable ci_equals) labels
      → AreDistinct ci_equals labels
      → promote_labels fn labels children ≡ ok result
      → All (IsPromotable ci_equals) result × AreDistinct ci_equals result
  promote_labels-invariant fn labels result [] p d h =
      let h' : ok labels ≡ ok result = unfold promote_labels in h in
      let same : labels ≡ result = cc in
      subst (λ ls. All (IsPromotable ci_equals) ls × AreDistinct ci_equals ls) same (p, d)
  promote_labels-invariant fn labels result (child ∷ children) p d h =
      let (good, fresh, h') = promote_step fn labels result child children h in
      let label = to_string child in
      promote_labels-invariant fn (labels ++ label ∷ []) result children
        (All-append (IsPromotable ci_equals) labels (label ∷ []) p (good, tt))
        (AreDistinct-append ci_equals labels label d (has_seen-All ci_equals labels label fresh)) h'

  -- The promoted labels are valid names, so they can stand in a selector; none is a fixed column, and no
  -- two are the same in any case, so the schema has no column twice.
  pub promote_labels-IsPromotable :
      (fn : Bytes) (result : List Bytes) (children : List Value)
      → promote_labels fn [] children ≡ ok result
      → All (IsPromotable ci_equals) result × AreDistinct ci_equals result
  promote_labels-IsPromotable fn result children h =
      promote_labels-invariant fn [] result children tt tt h
