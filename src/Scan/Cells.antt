-- ===== src/Scan/Cells.antt =====
-- What src/loki/loki_scan.cpp and src/loki/catalog.cpp write into the columns of a row.
use duckdb_loki.Base.{
  ℕ, zero, suc, Bool, ◌==◌, Option, none, some, List, map, Bytes, length, get_elem?, if◌then◌else◌,
}
use duckdb_loki.Base.Int.{ℤ}
use duckdb_loki.Types.{StringMap, LokiRow, find}

-- A cell of an output row: NULL, a time in nanoseconds, a text, or a map of texts.
pub data Cell : Type 0 where
  null_cell : Cell
  timestamp_cell : ℤ → Cell
  text_cell : Bytes → Cell
  map_cell : StringMap → Cell

unfoldable pub text_or_null : Option Bytes → Cell
text_or_null none = null_cell
text_or_null (some v) = text_cell v

-- The columns behind the promoted labels: the map of labels, then that of structured metadata.
unfoldable pub map_column : List Bytes → LokiRow → ℕ → Cell
map_column label_columns row i =
    if i == length label_columns then map_cell row.labels else map_cell row.structured_metadata

unfoldable pub label_cell : List Bytes → LokiRow → ℕ → Option Bytes → Cell
unfolding text_or_null map_column
label_cell label_columns row i none = map_column label_columns row i
label_cell label_columns row i (some name) = text_or_null (find name row.labels)

unfoldable pub source_cell : List Bytes → LokiRow → ℕ → Cell
unfolding label_cell
source_cell label_columns row zero = timestamp_cell row.ts_ns
source_cell label_columns row (suc zero) = text_cell row.line
source_cell label_columns row (suc (suc i)) =
    label_cell label_columns row i (get_elem? label_columns i)

-- `src == COLUMN_IDENTIFIER_ROW_ID || IsVirtualColumn(src)`, of DuckDB, is the test `is_virtual`.
module _ (is_virtual : ℕ → Bool) where
  unfoldable pub output_cell : List Bytes → LokiRow → ℕ → Cell
  unfolding source_cell
  output_cell label_columns row src =
      if is_virtual src then null_cell else source_cell label_columns row src

  unfoldable pub output_row : List Bytes → List ℕ → LokiRow → List Cell
  unfolding output_cell
  output_row label_columns column_ids row = map (output_cell label_columns row) column_ids
