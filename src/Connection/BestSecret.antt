-- ===== src/Connection/BestSecret.antt =====
-- `LookupBestLokiSecret` of src/loki/connection.cpp: when the default secret is preferred to DuckDB's match.
use duckdb_loki.Base.{◌≡◌, List, ◌++◌, ◌∷◌, Bytes, codes, All}
use duckdb_loki.Connection.{Duckdb}

module _ (db : Duckdb) where
  open db use {Secret}

  -- A secret of type loki named `__default_loki`, whose scope fits the endpoint as well as that of the match.
  abbrev pub IsTyingDefault : Bytes → Secret → Secret → Type 0
  IsTyingDefault path matched secret =
      (db.secret_type secret ≡ codes "loki")
      × (db.secret_name secret ≡ codes "__default_loki")
      × (db.match_score secret path ≡ db.match_score matched path)

  -- The first such secret of a list.
  abbrev pub IsFirstTying : Bytes → Secret → List Secret → Secret → Type 0
  IsFirstTying path matched secrets secret =
      (before : List Secret) × (after : List Secret) × (secrets ≡ before ++ secret ∷ after)
      × All (λ (s : Secret). ¬ IsTyingDefault path matched s) before
      × IsTyingDefault path matched secret
