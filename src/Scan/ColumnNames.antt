-- ===== src/Scan/ColumnNames.antt =====
-- `LokiIsReservedColumnName` of src/loki/loki_scan.cpp and the set `seen` of the loops over labels: what
-- makes a name fit to be a column.
use duckdb_loki.Base.{
  ◌≡◌, Bool, true, false, ◌||◌, List, [], ◌∷◌, ◌++◌, arith, Bytes, codes, All, All-append,
}
use duckdb_loki.Logql.{is_valid_label_name}

-- DuckDB's case-insensitive equality of names.
module _ (ci_equals : Bytes → Bytes → Bool) where
  unfoldable pub is_reserved_column_name : Bytes → Bool
  is_reserved_column_name name =
      ci_equals name (codes "timestamp")
      || ci_equals name (codes "line")
      || ci_equals name (codes "labels")
      || ci_equals name (codes "structured_metadata")

  -- `seen` has the label, with any case.
  unfoldable pub has_seen : List Bytes → Bytes → Bool
  has_seen [] label = false
  has_seen (l ∷ ls) label = ci_equals l label || has_seen ls label

  abbrev pub IsPromotable : Bytes → Type 0
  IsPromotable label = (is_valid_label_name label ≡ true) × (is_reserved_column_name label ≡ false)

  abbrev pub AreDistinct : List Bytes → Type 0
  AreDistinct [] = Unit
  AreDistinct (l ∷ ls) = All (λ m. ci_equals l m ≡ false) ls × AreDistinct ls

  pub has_seen-All :
      (labels : List Bytes) (label : Bytes)
      → has_seen labels label ≡ false
      → All (λ l. ci_equals l label ≡ false) labels
  unfolding has_seen
  has_seen-All [] label h = tt
  has_seen-All (l ∷ ls) label h = (ground arith, has_seen-All ls label (ground arith))

  pub AreDistinct-append :
      (labels : List Bytes) (label : Bytes)
      → AreDistinct labels
      → All (λ l. ci_equals l label ≡ false) labels
      → AreDistinct (labels ++ label ∷ [])
  AreDistinct-append [] label d h = (tt, tt)
  AreDistinct-append (l ∷ ls) label (e, d) (k, h) =
      (All-append _ ls (label ∷ []) e (k, tt), AreDistinct-append ls label d h)
