-- ===== src/Scan/Bind.antt =====
-- `LokiResolveCommon`, `LokiScanBind` and `LokiBind` of src/loki/loki_scan.cpp: what the two table functions
-- make of their arguments.
pub mod Steps
pub mod Bound
use duckdb_loki.Base.{
  Bool, true, not, ◌&&◌, Option, none, some, List, [], ◌∷◌, ◌++◌, map, Bytes, codes, str_eq,
  is_empty, if◌then◌else◌, Exception, binder_exception, Result, ok, throw, ◌>>=◌, ◌>>◌, throw_if,
}
use duckdb_loki.Base.Int.{ℤ, pos, ◌-ℤ◌, leb_ℤ}
use duckdb_loki.Logql.{build_logql, selector_prefix_before_brace}
use duckdb_loki.Connection.{Duckdb}
use duckdb_loki.Connection.Resolve.{find_named_param, resolve_loki_connection}
use duckdb_loki.Connection.TimeBound.{resolve_time_bound}
use duckdb_loki.Scan.{LokiScanBindData, new_bind_data, loki_nanos_per_hour}
use duckdb_loki.Scan.Promote.{promote_labels}
use duckdb_loki.Catalog.Columns.{ColumnDefinition, LogicalType, column, label_column}

-- DuckDB's values beyond those of a connection: the two that the named parameters are declared with, BIGINT and
-- LIST, and the equality of `case_insensitive_set_t`.
pub record DuckdbBind : Type 1 where
  pub db : Duckdb
  pub get_bigint : db.Value → ℤ
  pub get_children : db.Value → List db.Value
  pub ci_equals : Bytes → Bytes → Bool

abbrev pub invalid_limit : Bytes → Exception
invalid_limit fn = binder_exception (fn ++ codes " 'limit' must be a positive integer")

abbrev pub invalid_direction : Bytes → Exception
invalid_direction fn = binder_exception (fn ++ codes " 'direction' must be 'backward' or 'forward'")

abbrev pub query_required : Exception
query_required =
    binder_exception (codes "loki_scan requires a LogQL query string as its first argument")

abbrev pub unexpected_prefix : Bytes → Exception
unexpected_prefix prefix = binder_exception (
    codes "loki: unexpected text '"
    ++ (prefix
        ++ codes
            "' before the stream selector's '{' — pass the selector on its own, e.g. selector := '{job=\"api\"}'"))

-- The output schema.
unfoldable pub output_columns : List Bytes → List ColumnDefinition
output_columns label_columns =
    column (codes "timestamp") LogicalType.timestamp_ns
    ∷ column (codes "line") LogicalType.varchar
    ∷ (map label_column label_columns
        ++ (column (codes "labels") LogicalType.map_of_varchar
            ∷ column (codes "structured_metadata") LogicalType.map_of_varchar
            ∷ []))

-- The last hour, as the clock tells it, which is far from the ends of int64.
unfoldable pub default_window : ℤ → LokiScanBindData → LokiScanBindData
default_window now_ns b = record b { end_ns = now_ns; start_ns = now_ns -ℤ loki_nanos_per_hour }

module _ (api : DuckdbBind) where
  open api use {db}
  open db use {Value}

  unfoldable pub bind_limit : Bytes → Option Value → LokiScanBindData → Result LokiScanBindData
  bind_limit fn none b = ok b
  bind_limit fn (some p) b = do
    throw_if (leb_ℤ (api.get_bigint p) (pos 0)) (invalid_limit fn)
    ok (record b { limit = api.get_bigint p })

  unfoldable pub bind_direction : Bytes → Option Value → LokiScanBindData → Result LokiScanBindData
  bind_direction fn none b = ok b
  bind_direction fn (some p) b = do
    let direction = db.lower (db.to_string p)
    throw_if (not (str_eq direction (codes "backward")) && not (str_eq direction (codes "forward")))
        (invalid_direction fn)
    ok (record b { direction = direction })

  unfoldable pub bind_start : ℤ → Option Value → LokiScanBindData → Result LokiScanBindData
  bind_start now_ns none b = ok b
  bind_start now_ns (some p) b = do
    start_ns ← resolve_time_bound db p now_ns
    ok (record b { start_ns = start_ns; has_param_start = true })

  unfoldable pub bind_end : ℤ → Option Value → LokiScanBindData → Result LokiScanBindData
  bind_end now_ns none b = ok b
  bind_end now_ns (some p) b = do
    end_ns ← resolve_time_bound db p now_ns
    ok (record b { end_ns = end_ns; has_param_end = true })

  unfoldable pub bind_labels : Bytes → Option Value → LokiScanBindData → Result LokiScanBindData
  bind_labels fn none b = ok b
  bind_labels fn (some p) b = do
    labels ← promote_labels Value db.is_null db.to_string api.ci_equals fn [] (api.get_children p)
    ok (record b { label_columns = b.label_columns ++ labels })

  -- The work that the two functions share, with the bind data and the schema it ends with.
  unfoldable pub loki_resolve_common :
      (Bytes → Option Value)
      → ℤ
      → Bytes
      → LokiScanBindData
      → Result (LokiScanBindData × List ColumnDefinition)
  unfolding output_columns default_window bind_limit bind_direction bind_start bind_end bind_labels
  loki_resolve_common params now_ns fn b = do
    c ← resolve_loki_connection db params b.endpoint b.auth fn
    with_limit ←
        bind_limit fn (find_named_param db params (codes "limit"))
          (record b { fn_name = fn; endpoint = c.endpoint; auth = c.auth })
    with_direction ← bind_direction fn (find_named_param db params (codes "direction")) with_limit
    with_start ←
        bind_start now_ns (find_named_param db params (codes "start"))
          (default_window now_ns with_direction)
    with_end ← bind_end now_ns (find_named_param db params (codes "end")) with_start
    bound ← bind_labels fn (find_named_param db params (codes "labels")) with_end
    ok (bound, output_columns bound.label_columns)

  -- The first positional argument.
  unfoldable pub query_of : List Value → Result Bytes
  query_of [] = throw query_required
  query_of (input ∷ inputs) =
      if db.is_null input then throw query_required else ok (build_logql (db.to_string input))

  unfoldable pub loki_scan_bind :
      List Value → (Bytes → Option Value) → ℤ → Result (LokiScanBindData × List ColumnDefinition)
  unfolding query_of loki_resolve_common
  loki_scan_bind inputs params now_ns = do
    query ← query_of inputs
    loki_resolve_common params now_ns (codes "loki_scan") (record new_bind_data { query = query })

  unfoldable pub bind_selector : Option Value → LokiScanBindData → Result LokiScanBindData
  bind_selector none b = ok b
  bind_selector (some p) b = do
    let prefix = selector_prefix_before_brace (db.to_string p)
    throw_if (not (is_empty prefix)) (unexpected_prefix prefix)
    ok (record b { base_selector = db.to_string p })

  unfoldable pub loki_bind :
      (Bytes → Option Value) → ℤ → Result (LokiScanBindData × List ColumnDefinition)
  unfolding bind_selector loki_resolve_common
  loki_bind params now_ns = do
    b ←
        bind_selector (find_named_param db params (codes "selector"))
          (record new_bind_data { pushdown_mode = true })
    loki_resolve_common params now_ns (codes "loki") b
