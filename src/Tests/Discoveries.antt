-- ===== src/Tests/Discoveries.antt =====
-- The theorem on src/loki/loki_discovery.cpp at a concrete input.
use duckdb_loki.Base.{ℕ, ◌≡◌, refl, true, none, some, [], ◌∷◌, arith, codes, ok}
use duckdb_loki.Base.Int.{pos}
use duckdb_loki.HttpClient.{Call, Outcome, answered}
use duckdb_loki.Parse.{Yyjson}
use duckdb_loki.Discovery.{DiscoveryKind, LokiDiscoveryGlobalState, text_row}
use duckdb_loki.Discovery.Drain.{calls, calls-rows_left}

abbrev answer : Call → Outcome
answer call = answered (pos 200) []

abbrev no_json : Yyjson
no_json = record {
  Val = ℕ;
  read = λ text. none;
  obj_get = λ v key. none;
  arr_items = λ v. none;
  get_str = λ v. none;
  obj_entries = λ v. [];
}

abbrev three_labels : LokiDiscoveryGlobalState
three_labels = record {
  endpoint = [];
  headers = [];
  request = record { path = []; params = [] };
  fetched = true;
  string_rows = codes "app" ∷ codes "env" ∷ codes "job" ∷ [];
  series_rows = [];
  offset = 0;
}

calls-rows_left_example :
    calls answer no_json 3 2 DiscoveryKind.kind_labels three_labels
    ≡ some (ok (text_row (codes "app") ∷ text_row (codes "env") ∷ text_row (codes "job") ∷ []))
calls-rows_left_example =
    calls-rows_left answer no_json 3 1 DiscoveryKind.kind_labels three_labels refl (omega arith)
