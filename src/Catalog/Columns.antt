-- ===== src/Catalog/Columns.antt =====
-- The columns of the tables of the catalog: `BuildLokiLogsColumns` of src/loki/loki_scan.cpp and
-- `BuildLokiSeriesColumns` of src/loki/catalog.cpp.
use duckdb_loki.Base.{
  ◌≡◌, refl, ap, ◌∙◌, Bool, false, List, [], ◌∷◌, ◌++◌, map, arith, Bytes, codes, All, All-append,
}
use duckdb_loki.Scan.ColumnNames.{is_reserved_column_name, IsPromotable, AreDistinct}

-- The types of the columns.
pub data LogicalType : Type 0 where
  varchar timestamp_ns map_of_varchar : LogicalType

pub record ColumnDefinition : Type 0 where
  pub name : Bytes
  pub type_of : LogicalType

abbrev pub column : Bytes → LogicalType → ColumnDefinition
column name type_of = record { name = name; type_of = type_of }

abbrev pub label_column : Bytes → ColumnDefinition
label_column label = column label LogicalType.varchar

unfoldable pub build_loki_logs_columns : List Bytes → List ColumnDefinition
build_loki_logs_columns label_columns =
    column (codes "timestamp") LogicalType.timestamp_ns
    ∷ column (codes "line") LogicalType.varchar
    ∷ (map label_column label_columns
        ++ (column (codes "labels") LogicalType.map_of_varchar
            ∷ column (codes "structured_metadata") LogicalType.map_of_varchar
            ∷ []))

unfoldable pub build_loki_series_columns : List Bytes → List ColumnDefinition
build_loki_series_columns label_columns =
    map label_column label_columns ++ column (codes "labels") LogicalType.map_of_varchar ∷ []

abbrev pub names_of : List ColumnDefinition → List Bytes
names_of [] = []
names_of (c ∷ cs) = c.name ∷ names_of cs

names_of-append : (cs ds : List ColumnDefinition) → names_of (cs ++ ds) ≡ names_of cs ++ names_of ds
names_of-append [] ds = refl
names_of-append (c ∷ cs) ds = ap (λ t. c.name ∷ t) (names_of-append cs ds)

names_of-label_column : (labels : List Bytes) → names_of (map label_column labels) ≡ labels
names_of-label_column [] = refl
names_of-label_column (l ∷ ls) = ap (λ t. l ∷ t) (names_of-label_column ls)

-- What the code relies on in DuckDB's equality of names: it is symmetric, and tells the names of the
-- fixed columns apart.
pub record ComparesNames (ci_equals : Bytes → Bytes → Bool) : Type 0 where
  pub symmetric : (a b : Bytes) → ci_equals a b ≡ ci_equals b a
  pub fixed_apart :
      AreDistinct ci_equals
        (codes "timestamp" ∷ codes "line" ∷ codes "labels" ∷ codes "structured_metadata" ∷ [])

module _ (ci_equals : Bytes → Bytes → Bool) where
  -- No name of the second list is a name of the first.
  abbrev AreApart : List Bytes → List Bytes → Type 0
  AreApart xs ys = All (λ x. All (λ y. ci_equals x y ≡ false) ys) xs

  AreDistinct-append_apart :
      (xs ys : List Bytes)
      → AreDistinct ci_equals xs
      → AreDistinct ci_equals ys
      → AreApart xs ys
      → AreDistinct ci_equals (xs ++ ys)
  AreDistinct-append_apart [] ys dx dy h = dy
  AreDistinct-append_apart (x ∷ xs) ys (e, dx) dy (k, h) =
      (All-append _ xs ys e k, AreDistinct-append_apart xs ys dx dy h)

  module _ (compares : ComparesNames ci_equals) where
    open compares use {symmetric, fixed_apart}

    -- A label that is fit to be promoted has the name of no fixed column.
    IsPromotable-apart :
        (label : Bytes)
        → IsPromotable ci_equals label
        → (ci_equals (codes "timestamp") label ≡ false)
          × (ci_equals (codes "line") label ≡ false)
          × (ci_equals label (codes "labels") ≡ false)
          × (ci_equals label (codes "structured_metadata") ≡ false)
    unfolding is_reserved_column_name
    IsPromotable-apart label h = (
      symmetric (codes "timestamp") label ∙ ground arith,
      symmetric (codes "line") label ∙ ground arith,
      ground arith,
      ground arith,
    )

    labels_apart :
        (labels : List Bytes)
        → All (IsPromotable ci_equals) labels
        → All (λ l. ci_equals (codes "timestamp") l ≡ false) labels
          × All (λ l. ci_equals (codes "line") l ≡ false) labels
          × AreApart labels (codes "labels" ∷ codes "structured_metadata" ∷ [])
          × AreApart labels (codes "labels" ∷ [])
    labels_apart [] h = (tt, tt, tt, tt)
    labels_apart (l ∷ ls) (p, h) =
        let (a, b, c, d) = IsPromotable-apart l p in
        let (ts, ns, ms, ss) = labels_apart ls h in
        ((a, ts), (b, ns), ((c, (d, tt)), ms), ((c, tt), ss))

    logs_names :
        (labels : List Bytes)
        → names_of (build_loki_logs_columns labels)
          ≡ codes "timestamp"
            ∷ codes "line"
            ∷ (labels ++ (codes "labels" ∷ codes "structured_metadata" ∷ []))
    unfolding build_loki_logs_columns
    logs_names labels =
        ap (λ t. codes "timestamp" ∷ codes "line" ∷ t)
          (names_of-append (map label_column labels) _
            ∙ ap (λ t. t ++ (codes "labels" ∷ codes "structured_metadata" ∷ []))
                (names_of-label_column labels))

    series_names :
        (labels : List Bytes)
        → names_of (build_loki_series_columns labels) ≡ labels ++ (codes "labels" ∷ [])
    unfolding build_loki_series_columns
    series_names labels =
        names_of-append (map label_column labels) _
        ∙ ap (λ t. t ++ (codes "labels" ∷ [])) (names_of-label_column labels)

    -- If the labels are valid, not reserved and distinct, no two columns of `logs` have one name in any
    -- case, and none of `series`: DuckDB takes both lists of columns.
    pub build_loki_logs_columns-AreDistinct :
        (labels : List Bytes)
        → All (IsPromotable ci_equals) labels
        → AreDistinct ci_equals labels
        → AreDistinct ci_equals (names_of (build_loki_logs_columns labels))
          × AreDistinct ci_equals (names_of (build_loki_series_columns labels))
    build_loki_logs_columns-AreDistinct labels p d =
        let (ts, ns, ms, ss) = labels_apart labels p in
        let ((tl, (tm, (td, _))), ((lm, (ld, _)), ((md, _), _))) = fixed_apart in
        let inner =
          AreDistinct-append_apart labels (codes "labels" ∷ codes "structured_metadata" ∷ []) d
            ((md, tt), (tt, tt)) ms in
        (
          rw (logs_names labels) (
            (tl, All-append _ labels _ ts (tm, (td, tt))),
            (All-append _ labels _ ns (lm, (ld, tt)), inner),
          ),
          rw (series_names labels)
              (AreDistinct-append_apart labels (codes "labels" ∷ []) d (tt, tt) ss),
        )
