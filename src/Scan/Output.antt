-- ===== src/Scan/Output.antt =====
-- `LokiScanFunction` of src/loki/loki_scan.cpp: the loop that fetches pages and fills an output vector. Its
-- fuel counts the rounds: a round emits a row or fetches a page.
pub mod Rounds
pub mod AllRows
use duckdb_loki.Base.{
  ℕ, zero, suc, ◌+◌, Bool, true, false, not, ◌||◌, Option, none, some, List, [], ◌∷◌, ◌++◌, map,
  Bytes, codes, is_empty, get_elem?, if◌then◌else◌, Exception, io_exception, Result, ok, throw,
  ◌>>=◌, ◌>>◌, throw_if, Crashing, and_then,
}
use duckdb_loki.Base.Int.{ℤ, pos, ltb_ℤ, leb_ℤ, int_to_string}
use duckdb_loki.Types.{LokiRow, StreamChunk, QueryRangeRequest}
use duckdb_loki.HttpRequest.{build_query_string}
use duckdb_loki.HttpClient.{Call, Outcome, HttpResponse, http_get}
use duckdb_loki.Parse.{Yyjson, response_snippet, parse_streams_response}
use duckdb_loki.Pager.{StreamPager, next_request, accept}
use duckdb_loki.Scan.{LokiScanBindData}
use duckdb_loki.Scan.Init.{LokiScanGlobalState}
use duckdb_loki.Scan.Cells.{Cell, output_row}

-- How a loop ends: with the rows of a vector and the state, by an exception, by a crash of the process, or, in
-- the model alone, for want of fuel.
pub data Filled : Type 0 where
  out_of_fuel : Filled
  crash : Filled
  exception : Exception → Filled
  filled : List LokiRow → LokiScanGlobalState → Filled

abbrev pub emit : LokiRow → Filled → Filled
emit row (filled rows s) = filled (row ∷ rows) s
emit row out_of_fuel = out_of_fuel
emit row crash = crash
emit row (exception e) = exception e

module _ (get : Call → Outcome) (y : Yyjson) (fn_name : Bytes) where
  unfoldable pub chunks_of_response : HttpResponse → Result (List StreamChunk)
  chunks_of_response response = do
    throw_if (not (is_empty response.error))
        (io_exception (fn_name ++ (codes ": request to Loki failed: " ++ response.error)))
    throw_if (ltb_ℤ response.status (pos 200) || leb_ℤ (pos 300) response.status) (
        io_exception (
          fn_name
          ++ (codes ": Loki returned HTTP "
              ++ (int_to_string response.status
                  ++ (codes ": " ++ response_snippet response.body 1000)))))
    parse_streams_response y response.body

  unfoldable pub chunks_of_answer : Option HttpResponse → Crashing (List StreamChunk)
  unfolding chunks_of_response
  chunks_of_answer none = none
  chunks_of_answer (some response) = some (chunks_of_response response)

  -- What Loki answers to a request; `none` where the process crashes.
  unfoldable pub ask :
      Bytes → List (Bytes × Bytes) → QueryRangeRequest → Crashing (List StreamChunk)
  unfolding chunks_of_answer
  ask endpoint headers request =
      chunks_of_answer
        (http_get get endpoint request.path (build_query_string request) headers 10 60)

  unfoldable pub accepted :
      LokiScanGlobalState → StreamPager → List StreamChunk → LokiScanGlobalState
  accepted s pager chunks = record s {
    pager = (accept pager chunks).1;
    buffer = (accept pager chunks).0;
    buf_offset = 0;
  }

  -- The next page takes the place of the buffer.
  unfoldable pub fetch_page : LokiScanGlobalState → Crashing LokiScanGlobalState
  unfolding ask accepted
  fetch_page s =
      and_then (ask s.endpoint s.headers (next_request s.pager).0)
        λ chunks. some (ok (accepted s (next_request s.pager).1 chunks))

  -- The loop, with the places that are left in the output vector.
  unfoldable pub fill : ℕ → ℕ → LokiScanGlobalState → Filled
  unfolding fetch_page
  fill zero places s = out_of_fuel
  fill (suc fuel) zero s = filled [] s
  fill (suc fuel) (suc places) s = elim (get_elem? s.buffer s.buf_offset) [
    | some row ↦ emit row (fill fuel places (record s { buf_offset = s.buf_offset + 1 }))
    | none ↦ elim s.pager.done [
      | true ↦ filled [] s
      | false ↦ elim (fetch_page s) [
        | none ↦ crash
        | some (throw e) ↦ exception e
        | some (ok t) ↦ fill fuel (suc places) t
      ]
    ]
  ]

module _ (get : Call → Outcome) (y : Yyjson) where
  -- A call: the loop over the vector, and the columns that are asked for.
  unfoldable pub loki_scan_function :
      (ℕ → Bool)
      → ℕ
      → ℕ
      → LokiScanBindData
      → LokiScanGlobalState
      → Option (Crashing (List (List Cell) × LokiScanGlobalState))
  unfolding fill
  loki_scan_function is_virtual fuel vector_size b s =
      elim (fill get y b.fn_name fuel vector_size s) [
        | out_of_fuel ↦ none
        | crash ↦ some none
        | exception e ↦ some (some (throw e))
        | filled rows t ↦
            some (some (ok (map (output_row is_virtual b.label_columns s.column_ids) rows, t)))
      ]
