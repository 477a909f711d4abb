-- ===== src/Types.antt =====
-- src/include/loki/loki_types.hpp. A `std::map` from strings to strings is its list of entries, in the
-- order of the keys.
use duckdb_loki.Base.{
  Bool, true, false, Option, none, some, List, [], ◌∷◌, ltb, if◌then◌else◌, Bytes, str_eq,
}
use duckdb_loki.Base.Int.{ℤ}

abbrev pub StringMap : Type 0
StringMap = List (Bytes × Bytes)

-- `<` on strings, by their bytes
unfoldable pub str_lt : Bytes → Bytes → Bool
str_lt s [] = false
str_lt [] (d ∷ t) = true
str_lt (c ∷ s) (d ∷ t) =
    let rest = str_lt s t in if ltb c d then true else if ltb d c then false else rest

-- `map.emplace(k, v)`: an entry that is there stays.
unfoldable pub emplace : Bytes → Bytes → StringMap → StringMap
unfolding str_lt
emplace k v [] = (k, v) ∷ []
emplace k v ((j, w) ∷ m) =
    let rest = emplace k v m in
    if str_lt k j then (k, v) ∷ (j, w) ∷ m else if str_lt j k then (j, w) ∷ rest else (j, w) ∷ m

-- `map.find(k)`
unfoldable pub find : Bytes → StringMap → Option Bytes
find k [] = none
find k ((j, w) ∷ m) = if str_eq j k then some w else find k m

pub record StreamEntry : Type 0 where
  pub ts_ns : ℤ
  pub line : Bytes
  pub structured_metadata : StringMap

pub record StreamChunk : Type 0 where
  pub labels : StringMap
  pub values : List StreamEntry

pub record LokiRow : Type 0 where
  pub ts_ns : ℤ
  pub line : Bytes
  pub labels : StringMap
  pub structured_metadata : StringMap

pub record QueryRangeRequest : Type 0 where
  pub path : Bytes
  pub params : List (Bytes × Bytes)
