-- ===== src/Catalog/SeriesRows.antt =====
-- `LokiSeriesScanFunction` of src/loki/catalog.cpp: the cap, and the calls of it that give every row once.
use duckdb_loki.Base.Int.{pos, ltb_ℤ, leb_ℤ}
use mathlib.Core.Path.{subst}
use duckdb_loki.Base.{
  ℕ, zero, suc, ◌≤◌, ◌≡◌, refl, ap, sym, ◌∙◌, inl, inr, Bool, true, none, some, List, [], ◌++◌, map,
  arith, ok, length, length-append, drop, Crashing, throw_if_ok, bind_ok, else_branch, Option, not,
  is_empty, ◌||◌, ltb, ◌>>=◌, false, and_then, map-append,
}
use duckdb_loki.Types.{StringMap}
use duckdb_loki.HttpClient.{Call, Outcome, HttpResponse}
use duckdb_loki.Parse.{Yyjson, parse_series_response}
use duckdb_loki.Scan.{LokiScanBindData}
use duckdb_loki.Scan.Cells.{Cell}
use duckdb_loki.Discovery.{emit_rows, as_io}
use duckdb_loki.Discovery.Drain.{emit_rows-drop, emit_rows-progress, none_left}
use duckdb_loki.Catalog.Series.{
  LokiSeriesScanGlobalState, series_output_row, fetch_series, loki_series_scan_function,
  series_of_response, series_of_answer, too_many_series,
}

-- The rows of so many rounds of the loop, one behind the other.
rounds : ℕ → ℕ → List StringMap → ℕ → List StringMap
rounds zero v rows offset = []
rounds (suc n) v rows offset =
    (emit_rows v rows offset).0 ++ rounds n v rows (emit_rows v rows offset).1

rounds-drop :
    (n v : ℕ) (rows : List StringMap) (offset : ℕ)
    → length (drop offset rows) ≤ n
    → rounds n (suc v) rows offset ≡ drop offset rows
unfolding rounds
rounds-drop zero v rows offset h = sym (none_left (drop offset rows) h)
rounds-drop (suc n) v rows offset h =
    let out = (emit_rows (suc v) rows offset).0 in
    let end = (emit_rows (suc v) rows offset).1 in
    ap (λ t. out ++ t)
      (rounds-drop n v rows end (elim (emit_rows-progress v rows offset) [
        | inl e ↦ omega (
          arith,
          ap length (emit_rows-drop (suc v) rows offset),
          length-append out (drop end rows),
          ap length e,
        )
        | inr l ↦ omega arith
      ]))
    ∙ emit_rows-drop (suc v) rows offset

module _ (get : Call → Outcome) (y : Yyjson) (is_virtual : ℕ → Bool) (b : LokiScanBindData) where
  abbrev with_cells :
      Crashing (List (List Cell) × LokiSeriesScanGlobalState)
      → (LokiSeriesScanGlobalState → Crashing (List (List Cell)))
      → Crashing (List (List Cell))
  with_cells call next = and_then call λ r. and_then (next r.1) λ more. some (ok (r.0 ++ more))

  -- The rows of so many calls, one behind the other.
  unfoldable pub series_calls : ℕ → ℕ → LokiSeriesScanGlobalState → Crashing (List (List Cell))
  series_calls zero v s = some (ok [])
  series_calls (suc n) v s =
      with_cells (loki_series_scan_function get y is_virtual v b s) (series_calls n v)

  scan_fetched :
      (v : ℕ) (s : LokiSeriesScanGlobalState)
      → s.fetched ≡ true
      → loki_series_scan_function get y is_virtual v b s
        ≡ some (
            ok (
              map
                  (series_output_row is_virtual b.label_columns s.column_ids)
                  (emit_rows v s.rows s.offset).0,
              record s { offset = (emit_rows v s.rows s.offset).1 },
            ))
  unfolding loki_series_scan_function fetch_series
  scan_fetched v s h = rw h refl

  calls_fetched :
      (n v : ℕ) (s : LokiSeriesScanGlobalState)
      → s.fetched ≡ true
      → series_calls n v s
        ≡ some (
            ok (
              map
                (series_output_row is_virtual b.label_columns s.column_ids)
                (rounds n v s.rows s.offset)))
  unfolding series_calls rounds
  calls_fetched zero v s h = refl
  calls_fetched (suc n) v s h =
      let row = series_output_row is_virtual b.label_columns s.column_ids in
      let (out, end) = emit_rows v s.rows s.offset in
      ap (λ call. with_cells call (series_calls n v)) (scan_fetched v s h)
      ∙ ap (λ rest. and_then rest λ more. some (ok (map row out ++ more)))
          (calls_fetched n v (record s { offset = end }) h)
      ∙ ap (λ t. some (ok t)) (sym (map-append row out (rounds n v s.rows end)))

  capped :
      (response : HttpResponse) (rows : List StringMap)
      → series_of_response get y b response ≡ ok rows
      → length rows ≤ b.series_max_rows
  unfolding series_of_response
  capped response rows h =
      let (_, h1) = throw_if_ok (not (is_empty response.error)) _ _ rows h in
      let (_, h2) =
        throw_if_ok (ltb_ℤ response.status (pos 200) || leb_ℤ (pos 300) response.status) _ _ rows
          h1 in
      let (read, _, h3) =
        bind_ok (as_io get y b.fn_name (parse_series_response y response.body)) _ rows h2 in
      let (small, h4) =
        throw_if_ok (ltb b.series_max_rows (length read))
          (too_many_series b.fn_name (length read) b.series_max_rows) (ok read) rows h3 in
      let same : read ≡ rows = cc in
      subst (λ (r : List StringMap). length r ≤ b.series_max_rows) same (ground arith)

  answered-capped :
      (s t : LokiSeriesScanGlobalState) (answer : Option HttpResponse)
      → series_of_answer get y b s answer ≡ some (ok t)
      → (length t.rows ≤ b.series_max_rows)
        × (t.fetched ≡ true)
        × (t.offset ≡ s.offset)
        × (t.column_ids ≡ s.column_ids)
  unfolding series_of_answer
  answered-capped s t none h = cc
  answered-capped s t (some response) h =
      let h' : (series_of_response get y b response >>= λ rows.
      ok (record s { rows = rows; fetched = true }))
          ≡ ok t =
        cc in
      let (rows, e, k) = bind_ok (series_of_response get y b response) _ t h' in
      let small = capped response rows e in (ground arith, ground arith, ground arith, ground arith)

  fetch_series-capped :
      (s t : LokiSeriesScanGlobalState)
      → s.fetched ≡ false
      → fetch_series get y b s ≡ some (ok t)
      → (length t.rows ≤ b.series_max_rows)
        × (t.fetched ≡ true)
        × (t.offset ≡ s.offset)
        × (t.column_ids ≡ s.column_ids)
  unfolding fetch_series
  fetch_series-capped s t h e = answered-capped s t _ (else_branch s.fetched (some (ok s)) h e)

  scan_after_fetch :
      (v : ℕ) (s t : LokiSeriesScanGlobalState)
      → fetch_series get y b s ≡ some (ok t)
      → t.fetched ≡ true
      → loki_series_scan_function get y is_virtual v b s
        ≡ loki_series_scan_function get y is_virtual v b t
  scan_after_fetch v s t e h =
      let again : fetch_series get y b t ≡ some (ok t) = unfold fetch_series in rw h refl in
      unfold loki_series_scan_function in rw (e, again) refl

  -- From the start of a scan of `series` whose request succeeds: the rows that were fetched are no more than
  -- the cap, and as many calls as there are rows give each of them once, in the order of the response, if an
  -- output vector has a place; one call at least fetches them.
  pub series_calls-rows :
      (n v : ℕ) (s t : LokiSeriesScanGlobalState)
      → s.fetched ≡ false
      → s.offset ≡ 0
      → fetch_series get y b s ≡ some (ok t)
      → length t.rows ≤ suc n
      → (length t.rows ≤ b.series_max_rows)
        × (series_calls (suc n) (suc v) s
            ≡ some (ok (map (series_output_row is_virtual b.label_columns s.column_ids) t.rows)))
  series_calls-rows n v s t h start e many =
      let (small, now, at, ids) = fetch_series-capped s t h e in
      let zero_offset : t.offset ≡ 0 = at ∙ start in
      let same : series_calls (suc n) (suc v) s ≡ series_calls (suc n) (suc v) t =
        unfold series_calls in
        ap (λ call. with_cells call (series_calls n (suc v)))
          (scan_after_fetch (suc v) s t e now) in
      let all : rounds (suc n) (suc v) t.rows t.offset ≡ t.rows =
        subst (λ i. rounds (suc n) (suc v) t.rows i ≡ t.rows) (sym zero_offset)
          (rounds-drop (suc n) v t.rows 0 many) in
      (
        small,
        same
            ∙ calls_fetched (suc n) (suc v) t now
            ∙ ap
                (λ rows.
                  some (ok (map (series_output_row is_virtual b.label_columns t.column_ids) rows)))
                all
            ∙ ap
                (λ cols. some (ok (map (series_output_row is_virtual b.label_columns cols) t.rows)))
                ids,
      )
