-- ===== src/Scan/Bind/Bound.antt =====
-- What the binding of `loki_scan` and `loki` (src/loki/loki_scan.cpp) ensures of the data that a scan starts from.
use duckdb_loki.Auth.{build_auth_headers}
use duckdb_loki.Catalog.Columns.{ColumnDefinition}
use duckdb_loki.Pager.{new_pager, default_per_request_cap}
use duckdb_loki.Scan.ColumnNames.{IsPromotable, AreDistinct}
use duckdb_loki.Logql.{selector_prefix_before_brace}
use duckdb_loki.Connection.Resolve.{find_named_param, resolve_loki_connection}
use duckdb_loki.Scan.Init.{
  LokiScanGlobalState, loki_scan_init_global, effective_query, effective_start, effective_end,
}
use mathlib.Core.Path.{subst}
use duckdb_loki.Base.{
  ◌≡◌, true, Option, none, some, arith, Bytes, codes, ok, ◌∙◌, ap, bind_ok, List, [], ℕ, All, false,
  ◌++◌, ◌∷◌, refl, inl, ◌>>=◌, Result,
}
use duckdb_loki.Base.Int.{ℤ, pos, ◌≤ℤ◌}
use duckdb_loki.Scan.{LokiScanBindData, new_bind_data}
use duckdb_loki.Scan.Bind.{
  DuckdbBind, bind_limit, bind_direction, bind_start, bind_end, bind_labels, default_window,
  output_columns, loki_resolve_common, query_of, loki_scan_bind,
}
use duckdb_loki.Scan.Bind.Steps.{
  HasSettings, HasWindow, ok_injective, bind_limit-HasSettings, bind_direction-HasSettings,
  bind_start-HasSettings, bind_end-HasSettings, bind_labels-HasSettings,
}

-- What the common work of `loki` starts from.
abbrev IsUnprefixed : LokiScanBindData → Type 0
IsUnprefixed b =
    (pos 1 ≤ℤ b.limit)
    × (b.direction ≡ codes "backward")
    × (b.label_columns ≡ [])
    × (b.query ≡ [])
    × (b.pushdown_mode ≡ true)
    × (selector_prefix_before_brace b.base_selector ≡ [])

-- The end of the common work.
abbrev with_schema : LokiScanBindData → Result (LokiScanBindData × List ColumnDefinition)
with_schema b = ok (b, output_columns b.label_columns)

module _ (api : DuckdbBind) where
  open api use {db}
  open db use {Value}

  raw_scan :
      (b : LokiScanBindData) (column_ids : List ℕ)
      → b.pushdown_mode ≡ false
      → (s : LokiScanGlobalState) × (loki_scan_init_global b column_ids ≡ ok s)
        × (s.pager
            ≡ new_pager b.query b.start_ns b.end_ns b.direction b.limit default_per_request_cap)
        × (s.buffer ≡ [])
        × (s.column_ids ≡ column_ids)
  unfolding loki_scan_init_global
  raw_scan b column_ids mode =
      let q : effective_query b ≡ ok b.query = unfold effective_query in ground arith in
      let s : effective_start b ≡ b.start_ns = unfold effective_start in ground arith in
      let e : effective_end b ≡ b.end_ns = unfold effective_end in ground arith in
      (
        record {
          endpoint = b.endpoint;
          headers =
              build_auth_headers b.auth
              ++ (codes "X-Loki-Response-Encoding-Flags", codes "categorize-labels") ∷ [];
          pager = new_pager b.query b.start_ns b.end_ns b.direction b.limit default_per_request_cap;
          buffer = [];
          buf_offset = 0;
          column_ids = column_ids;
        },
        rw (q, s, e, loki_scan_init_global) refl,
        refl,
        refl,
        refl,
      )

  -- The text of the argument `selector :=`, and the empty one where it is not given.
  abbrev pub given_selector : Option Value → Bytes
  given_selector none = []
  given_selector (some p) = db.to_string p

  -- Both functions bind so: a positive limit, one of the two directions, the default for each bound that no
  -- argument gives, and labels fit to be columns.
  abbrev pub IsBound : ℤ → LokiScanBindData → LokiScanBindData → List ColumnDefinition → Type 0
  IsBound now_ns start b columns =
      HasSettings start b
      × HasWindow now_ns b
      × All (IsPromotable api.ci_equals) b.label_columns
      × AreDistinct api.ci_equals b.label_columns
      × (columns ≡ output_columns b.label_columns)

  schema_step :
      (now_ns : ℤ) (fn : Bytes) (start before b : LokiScanBindData) (o : Option Value)
      (columns : List ColumnDefinition)
      → HasSettings start before
      → HasWindow now_ns before
      → before.label_columns ≡ []
      → (bind_labels api fn o before >>= with_schema) ≡ ok (b, columns)
      → IsBound now_ns start b columns
  schema_step now_ns fn start before b o columns set w none_yet h =
      let (t, e, h') = bind_ok (bind_labels api fn o before) _ _ h in
      let (set', w', good, distinct) =
        bind_labels-HasSettings api start before t now_ns fn o set w none_yet e in
      let same : (t, output_columns t.label_columns) ≡ (b, columns) = ok_injective h' in
      subst (λ (r : LokiScanBindData × List ColumnDefinition). IsBound now_ns start r.0 r.1) same
        (set', w', good, distinct, refl)

  loki_resolve_common-IsBound :
      (params : Bytes → Option Value) (now_ns : ℤ) (fn : Bytes) (start b : LokiScanBindData)
      (columns : List ColumnDefinition)
      → pos 1 ≤ℤ start.limit
      → start.direction ≡ codes "backward"
      → start.label_columns ≡ []
      → loki_resolve_common api params now_ns fn start ≡ ok (b, columns)
      → IsBound now_ns start b columns
  unfolding loki_resolve_common default_window
  loki_resolve_common-IsBound params now_ns fn start b columns limit direction labels h =
      let (c, _, h1) =
        bind_ok (resolve_loki_connection db params start.endpoint start.auth fn) _ _ h in
      let s0 : LokiScanBindData = record start {
        fn_name = fn;
        endpoint = c.endpoint;
        auth = c.auth;
      } in
      let (b1, e1, h2) =
        bind_ok (bind_limit api fn (find_named_param db params (codes "limit")) s0) _ _ h1 in
      let (b2, e2, h3) =
        bind_ok (bind_direction api fn (find_named_param db params (codes "direction")) b1) _ _
          h2 in
      let (b3, e3, h4) =
        bind_ok
          (bind_start api now_ns (find_named_param db params (codes "start"))
            (default_window now_ns b2))
          _ _ h3 in
      let (b4, e4, h5) =
        bind_ok (bind_end api now_ns (find_named_param db params (codes "end")) b3) _ _ h4 in
      let (set1, l1) =
        bind_limit-HasSettings api start s0 b1 fn _ (limit, inl direction, refl, refl, refl) e1 in
      let (set2, l2) = bind_direction-HasSettings api start b1 b2 fn _ set1 e2 in
      let (set3, w3, n3, l3) =
        bind_start-HasSettings api start (default_window now_ns b2) b3 now_ns _ set2 refl e3 in
      let (set4, w4, l4) = bind_end-HasSettings api start b3 b4 now_ns _ set3 w3 n3 e4 in
      schema_step now_ns fn start b4 b _ columns set4 w4 (l4 ∙ l3 ∙ l2 ∙ l1 ∙ labels) h5

  -- If `loki_scan` binds, its limit is positive, its direction one of the two, each bound that no argument gives
  -- that of the last hour, and its labels valid, not reserved and distinct; and the scan starts, with a pager on
  -- the query as it was given, in the window, direction and limit that were bound, an empty buffer and the columns
  -- that are asked for.
  pub loki_scan_bind-loki_scan_init_global :
      (inputs : List Value) (params : Bytes → Option Value) (now_ns : ℤ) (b : LokiScanBindData)
      (columns : List ColumnDefinition) (column_ids : List ℕ)
      → loki_scan_bind api inputs params now_ns ≡ ok (b, columns)
      → (query : Bytes) × (s : LokiScanGlobalState) × (query_of api inputs ≡ ok query)
        × IsBound now_ns (record new_bind_data { query = query }) b columns
        × (loki_scan_init_global b column_ids ≡ ok s)
        × (s.pager
            ≡ new_pager query b.start_ns b.end_ns b.direction b.limit default_per_request_cap)
        × (s.buffer ≡ [])
        × (s.column_ids ≡ column_ids)
  unfolding loki_scan_bind
  loki_scan_bind-loki_scan_init_global inputs params now_ns b columns column_ids h =
      let (query, e, h1) = bind_ok (query_of api inputs) _ _ h in
      let bound =
        loki_resolve_common-IsBound params now_ns (codes "loki_scan")
          (record new_bind_data { query = query }) b columns (omega arith) refl refl h1 in
      let ((_, _, same, _, mode), _, _, _, _) = bound in
      let (s, starts, p, empty, ids) = raw_scan b column_ids mode in
      (
        query,
        s,
        e,
        bound,
        starts,
        p
            ∙ ap (λ q. new_pager q b.start_ns b.end_ns b.direction b.limit default_per_request_cap)
                same,
        empty,
        ids,
      )
