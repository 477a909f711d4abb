-- ===== src/Catalog/Attach/OptionChecks.antt =====
-- The options of ATTACH that `LokiAttach` of src/loki/catalog.cpp checks one by one: labels and the cap of `series`.
use mathlib.Core.Path.{subst}
use duckdb_loki.Base.{
  append-nil, append_assoc, ℕ, ◌<◌, ◌≡◌, sym, inl, inr, false, Option, none, some, List, [], ◌∷◌,
  ◌++◌, arith, Bytes, Result, ok, throw, All-append, Bool-cases,
}
use duckdb_loki.Base.Int.{ℤ}
use duckdb_loki.Scan.ColumnNames.{has_seen, IsPromotable, has_seen-All, AreDistinct-append}
use duckdb_loki.Catalog.{DuckdbCatalog}
use duckdb_loki.Catalog.Options.{check_attach_labels, series_cap_of, series_cap_of_option}
use duckdb_loki.Catalog.FetchLabels.{AreColumns}

module _ (api : DuckdbCatalog) where
  open api use {db}
  open db use {Value}

  check_step :
      (seen labels : List Bytes) (label : Bytes)
      → check_attach_labels api seen (label ∷ labels) ≡ ok tt
      → IsPromotable api.ci_equals label
        × (has_seen api.ci_equals seen label ≡ false)
        × (check_attach_labels api (seen ++ label ∷ []) labels ≡ ok tt)
  unfolding check_attach_labels
  check_step seen labels label h = ground arith

  -- The labels that pass the check are fit to be columns.
  pub check_attach_labels-AreColumns :
      (seen labels : List Bytes)
      → AreColumns api.ci_equals seen
      → check_attach_labels api seen labels ≡ ok tt
      → AreColumns api.ci_equals (seen ++ labels)
  check_attach_labels-AreColumns seen [] c h =
      subst (AreColumns api.ci_equals) (sym (append-nil seen)) c
  check_attach_labels-AreColumns seen (label ∷ labels) (p, d) h =
      let (fit, fresh, h') = check_step seen labels label h in
      subst (AreColumns api.ci_equals) (append_assoc seen (label ∷ []) labels) (
        check_attach_labels-AreColumns (seen ++ label ∷ []) labels
          (
            All-append (IsPromotable api.ci_equals) seen (label ∷ []) p (fit, tt),
            AreDistinct-append api.ci_equals seen label d
                (has_seen-All api.ci_equals seen label fresh),
          )
          h')

  series_cap_of-pos :
      (text : Bytes) (rows : Option (Result ℤ)) (cap : ℕ)
      → series_cap_of api text rows ≡ ok cap
      → 0 < cap
  unfolding series_cap_of
  series_cap_of-pos text none cap h = cc
  series_cap_of-pos text (some (throw e)) cap h = cc
  series_cap_of-pos text (some (ok n)) cap h = ground arith

  pub series_cap_of_option-pos :
      (option : Option Value) (cap : ℕ) → series_cap_of_option api option ≡ ok cap → 0 < cap
  unfolding series_cap_of_option
  series_cap_of_option-pos none cap h = ground arith
  series_cap_of_option-pos (some v) cap h = elim (Bool-cases (db.is_null v)) [
    | inl e ↦ ground arith
    | inr e ↦ series_cap_of-pos (db.to_string v) (api.get_integral v) cap (ground arith)
  ]
