-- ===== src/Scan/Output/AllRows.antt =====
-- The calls of `LokiScanFunction` (src/loki/loki_scan.cpp) in a row, against the pages of the pager
-- (src/loki/pager.cpp): every row of every page comes out once, in order.
use mathlib.Core.Path.{subst}
use duckdb_loki.Base.{
  ℕ, zero, suc, ◌+◌, ◌≤◌, ◌<◌, ◌≡◌, refl, sym, ap, ◌∙◌, Bool, true, Option, none, some, List, [],
  ◌++◌, map, arith, ok, throw, inr, Crashing, length, take, drop, take-append-drop, length-drop_le,
  map-append,
}
use duckdb_loki.Base.Int.{pos, ◌≤ℤ◌}
use duckdb_loki.Types.{LokiRow}
use duckdb_loki.HttpClient.{Call, Outcome}
use duckdb_loki.Parse.{Yyjson}
use duckdb_loki.Discovery.Drain.{none_left}
use duckdb_loki.Pager.{StreamPager}
use duckdb_loki.Pager.Rows.{room}
use duckdb_loki.Pager.Progress.{Server, HonoursWindow, remaining}
use duckdb_loki.Pager.Total.{pages, pages_complete}
use duckdb_loki.Scan.{LokiScanBindData}
use duckdb_loki.Scan.Cells.{Cell, output_row}
use duckdb_loki.Scan.Init.{LokiScanGlobalState}
use duckdb_loki.Scan.Output.{filled, fill, loki_scan_function}
use duckdb_loki.Scan.Output.Rounds.{Answers, Pending, fill-Gives}

abbrev no_rows : List LokiRow
no_rows = []

drop-empty : (n : ℕ) → drop n [] ≡ no_rows
drop-empty zero = refl
drop-empty (suc n) = refl

-- The cells of several calls: no result where the fuel of one runs out, `some none` where one crashes.
abbrev pub Cells : Type 0
Cells = Option (Crashing (List (List Cell)))

abbrev cells_before : List (List Cell) → Cells → Cells
cells_before cells none = none
cells_before cells (some none) = some none
cells_before cells (some (some (throw e))) = some (some (throw e))
cells_before cells (some (some (ok more))) = some (some (ok (cells ++ more)))

abbrev after_call :
    Option (Crashing (List (List Cell) × LokiScanGlobalState))
    → (LokiScanGlobalState → Cells)
    → Cells
after_call none next = none
after_call (some none) next = some none
after_call (some (some (throw e))) next = some (some (throw e))
after_call (some (some (ok (cells, t)))) next = cells_before cells (next t)

module _ (get : Call → Outcome) (y : Yyjson) (is_virtual : ℕ → Bool) (b : LokiScanBindData) where
  -- So many calls, as DuckDB makes them, with the fuel and the places of each.
  unfoldable pub scan_calls : ℕ → ℕ → ℕ → LokiScanGlobalState → Cells
  scan_calls zero fuel places s = some (some (ok []))
  scan_calls (suc n) fuel places s =
      after_call (loki_scan_function get y is_virtual fuel places b s) (scan_calls n fuel places)

  abbrev pub row_cells : List ℕ → List LokiRow → List (List Cell)
  row_cells column_ids rows = map (output_row is_virtual b.label_columns column_ids) rows

  scan-filled :
      (fuel places : ℕ) (s t : LokiScanGlobalState) (rows : List LokiRow)
      → fill get y b.fn_name fuel places s ≡ filled rows t
      → loki_scan_function get y is_virtual fuel places b s
        ≡ some (some (ok (row_cells s.column_ids rows, t)))
  unfolding loki_scan_function
  scan-filled fuel places s t rows e = rw (e, loki_scan_function) refl

  module _ (server : Server) (v fuel : ℕ) where
    scan_calls-row_cells :
        (n left : ℕ) (s : LokiScanGlobalState) (total : List LokiRow)
        → Answers get y b.fn_name server s.endpoint s.headers
        → Pending get y b.fn_name server left s total
        → left + suc v < fuel
        → length total ≤ n
        → scan_calls n fuel (suc v) s ≡ some (some (ok (row_cells s.column_ids total)))
    unfolding scan_calls
    scan_calls-row_cells zero left s total answers pending enough many =
        ap (λ rows. some (some (ok (row_cells s.column_ids rows)))) (sym (none_left total many))
    scan_calls-row_cells (suc n) left s total answers pending enough many =
        let (t, e, (left', le, pending'), same_endpoint, same_headers, same_columns) =
          fill-Gives get y b.fn_name server fuel (suc v) left s total answers pending enough in
        let answers' : Answers get y b.fn_name server t.endpoint t.headers =
          subst (λ h. Answers get y b.fn_name server t.endpoint h) (sym same_headers)
            (subst (λ a. Answers get y b.fn_name server a s.headers) (sym same_endpoint) answers) in
        let rest =
          scan_calls-row_cells n left' t (drop (suc v) total) answers' pending' (omega arith)
            (length-drop_le v n total many) in
        ap (λ call. after_call call (scan_calls n fuel (suc v)))
          (scan-filled fuel (suc v) s t (take (suc v) total) e)
        ∙ ap (cells_before (row_cells s.column_ids (take (suc v) total))) rest
        ∙ ap
            (λ ids. some (
              some (
                ok (
                  row_cells s.column_ids (take (suc v) total)
                  ++ row_cells ids (drop (suc v) total)))))
            same_columns
        ∙ ap (λ cells. some (some (ok cells)))
            (sym (
              map-append (output_row is_virtual b.label_columns s.column_ids) (take (suc v) total)
                (drop (suc v) total)))
        ∙ ap (λ rows. some (some (ok (row_cells s.column_ids rows))))
            (take-append-drop (suc v) total)

  -- A scan that starts with an empty buffer, of which the server answers every request with entries of the window
  -- that the request names: as many calls as the limit has rows left, on output vectors with a place at least,
  -- neither fail nor run out of fuel (a round for each page the window can have and for each place), and give
  -- the rows of all the pages, each once and in order, whose number is within the limit.
  pub scan_calls-pages :
      (server : Server) (n v fuel left : ℕ) (s : LokiScanGlobalState)
      → s.buffer ≡ []
      → Answers get y b.fn_name server s.endpoint s.headers
      → HonoursWindow server
      → pos 1 ≤ℤ s.pager.per_request_cap
      → remaining s.pager < left
      → left + suc v < fuel
      → room s.pager.user_limit s.pager.emitted ≤ n
      → (rows : List LokiRow) × (q : StreamPager) × (pages left server s.pager ≡ some (rows, q))
        × (q.done ≡ true)
        × (length rows ≤ room s.pager.user_limit s.pager.emitted)
        × (scan_calls n fuel (suc v) s ≡ some (some (ok (row_cells s.column_ids rows))))
  scan_calls-pages server n v fuel left s empty answers honours cap window enough many =
      let (rows, q, e, finished, bound, count) =
        pages_complete left server s.pager honours cap (inr window) in
      let whole : drop s.buf_offset s.buffer ++ rows ≡ rows =
        rw empty (ap (λ d. d ++ rows) (drop-empty s.buf_offset)) in
      (
        rows,
        q,
        e,
        finished,
        bound,
        scan_calls-row_cells server v fuel n left s rows answers (rows, q, e, whole) enough
            (omega arith),
      )
