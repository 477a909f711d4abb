-- ===== src/Scan/Output/Rounds.antt =====
-- The loop of `LokiScanFunction` (src/loki/loki_scan.cpp) against the pages of its pager: where every request is
-- answered, a call gives the next rows, and leaves the others for the next call.
use mathlib.Core.Path.{subst}
use duckdb_loki.Base.{
  ℕ, suc, ◌+◌, ◌≡◌, refl, true, false, none, some, List, [], ◌++◌, arith, Bytes, take, drop,
  get_elem?, ok, zero, ap, inl, inr, Option-cases, Crashing, and_then, drop-next, drop-none, ◌≤◌,
  ◌∙◌, sym, ◌<◌, Bool-cases,
}
use duckdb_loki.Types.{LokiRow, QueryRangeRequest, StreamChunk}
use duckdb_loki.HttpClient.{Call, Outcome}
use duckdb_loki.Parse.{Yyjson}
use duckdb_loki.Pager.{StreamPager, next_request}
use duckdb_loki.Pager.Progress.{Server, page_of}
use duckdb_loki.Pager.Total.{pages}
use duckdb_loki.Scan.Init.{LokiScanGlobalState}
use duckdb_loki.Scan.Output.{Filled, filled, emit, ask, fetch_page, fill, accepted}

module _ (get : Call → Outcome) (y : Yyjson) (fn_name : Bytes) (server : Server) where
  -- Loki answers each request of the scan, and its answers are those of the server.
  abbrev pub Answers : Bytes → List (Bytes × Bytes) → Type 0
  Answers endpoint headers =
      (request : QueryRangeRequest)
      → ask get y fn_name endpoint headers request ≡ some (ok (server request))

  -- The rows that a state has still to give: those of its buffer, then those of the pages behind.
  abbrev pub Pending : ℕ → LokiScanGlobalState → List LokiRow → Type 0
  Pending fuel s total =
      (rest : List LokiRow) × (q : StreamPager) × (pages fuel server s.pager ≡ some (rest, q))
      × (drop s.buf_offset s.buffer ++ rest ≡ total)

  -- A call gave so many rows of these, and the others are pending.
  abbrev pub Gives : ℕ → ℕ → LokiScanGlobalState → List LokiRow → Filled → Type 0
  Gives fuel n s total result =
      (t : LokiScanGlobalState) × (result ≡ filled (take n total) t)
      × ((left : ℕ) × (left ≤ fuel) × Pending left t (drop n total))
      × (t.endpoint ≡ s.endpoint)
      × (t.headers ≡ s.headers)
      × (t.column_ids ≡ s.column_ids)

  module _ (s : LokiScanGlobalState) where
    fill-some :
        (fuel places : ℕ) (row : LokiRow)
        → get_elem? s.buffer s.buf_offset ≡ some row
        → fill get y fn_name (suc fuel) (suc places) s
          ≡ emit row (fill get y fn_name fuel places (record s { buf_offset = s.buf_offset + 1 }))
    unfolding fill
    fill-some fuel places row e = rw (e, fill) refl

    fill-done :
        (fuel places : ℕ)
        → get_elem? s.buffer s.buf_offset ≡ none
        → s.pager.done ≡ true
        → fill get y fn_name (suc fuel) (suc places) s ≡ filled [] s
    unfolding fill
    fill-done fuel places e d = ground (arith)

    fill-fetch :
        (fuel places : ℕ) (t : LokiScanGlobalState)
        → get_elem? s.buffer s.buf_offset ≡ none
        → s.pager.done ≡ false
        → fetch_page get y fn_name s ≡ some (ok t)
        → fill get y fn_name (suc fuel) (suc places) s ≡ fill get y fn_name fuel (suc places) t
    unfolding fill
    fill-fetch fuel places t e d f = ground (arith)

    fetched_state :
        Answers s.endpoint s.headers
        → fetch_page get y fn_name s
          ≡ some (
              ok (
                accepted get y fn_name s
                  (next_request s.pager).1
                  (server (next_request s.pager).0)))
    unfolding fetch_page
    fetched_state answers =
        ap
          (λ (r : Crashing (List StreamChunk)).
            and_then r
              λ chunks. some (ok (accepted get y fn_name s (next_request s.pager).1 chunks)))
          (answers (next_request s.pager).0)

  before_rest :
      (fuel : ℕ) (p q : StreamPager) (rest : List LokiRow)
      → p.done ≡ false
      → pages fuel server p ≡ some (rest, q)
      → (f : ℕ) × (more : List LokiRow) × (fuel ≡ suc f)
        × (pages f server (page_of server p).1 ≡ some (more, q))
        × (rest ≡ (page_of server p).0 ++ more)
  unfolding pages
  before_rest zero p q rest d h = absurd (ground arith)
  before_rest (suc f) p q rest d h = elim (Option-cases (pages f server (page_of server p).1)) [
    | inl e ↦ absurd (ground arith)
    | inr ((more, r), e) ↦ (f, more, refl, ground arith, ground arith)
  ]

  done_rest :
      (fuel : ℕ) (p q : StreamPager) (rest : List LokiRow)
      → p.done ≡ true
      → pages fuel server p ≡ some (rest, q)
      → rest ≡ []
  unfolding pages
  done_rest zero p q rest d h = ground arith
  done_rest (suc f) p q rest d h = ground arith

  emits :
      (fuel places left : ℕ) (s : LokiScanGlobalState) (row : LokiRow) (rest : List LokiRow)
      → get_elem? s.buffer s.buf_offset ≡ some row
      → Gives left places
          (record s { buf_offset = s.buf_offset + 1 })
          (drop (s.buf_offset + 1) s.buffer ++ rest)
          (fill get y fn_name fuel places (record s { buf_offset = s.buf_offset + 1 }))
      → Gives left
          (suc places)
          s
          (drop s.buf_offset s.buffer ++ rest)
          (fill get y fn_name (suc fuel) (suc places) s)
  emits fuel places left s row rest g (t, r, pending, a, b, c) =
      subst
        (λ total. Gives left (suc places) s total (fill get y fn_name (suc fuel) (suc places) s))
        (sym (ap (λ d. d ++ rest) (drop-next s.buffer s.buf_offset row g)))
        (t, fill-some s fuel places row g ∙ ap (emit row) r, pending, a, b, c)

  fetches :
      (fuel places left : ℕ) (s t : LokiScanGlobalState) (total total' : List LokiRow)
      → total ≡ total'
      → get_elem? s.buffer s.buf_offset ≡ none
      → s.pager.done ≡ false
      → fetch_page get y fn_name s ≡ some (ok t)
      → (t.endpoint ≡ s.endpoint) × (t.headers ≡ s.headers) × (t.column_ids ≡ s.column_ids)
      → Gives left (suc places) t total (fill get y fn_name fuel (suc places) t)
      → Gives (suc left) (suc places) s total' (fill get y fn_name (suc fuel) (suc places) s)
  fetches fuel places left s t total total' same g d f (i, j, k) (u, r, (l, le, pending), a, b, c) =
      subst
        (λ total.
          Gives (suc left) (suc places) s total (fill get y fn_name (suc fuel) (suc places) s))
        same
        (u, fill-fetch s fuel places t g d f ∙ r, (l, omega arith, pending), a ∙ i, b ∙ j, c ∙ k)

  at_end :
      (fuel places left : ℕ) (s : LokiScanGlobalState) (rest : List LokiRow) (q : StreamPager)
      → get_elem? s.buffer s.buf_offset ≡ none
      → s.pager.done ≡ true
      → pages left server s.pager ≡ some (rest, q)
      → Gives left
          (suc places)
          s
          (drop s.buf_offset s.buffer ++ rest)
          (fill get y fn_name (suc fuel) (suc places) s)
  at_end fuel places left s rest q g d e =
      let nothing : drop s.buf_offset s.buffer ++ rest ≡ [] =
        ap (λ b. b ++ rest) (drop-none s.buffer s.buf_offset g)
        ∙ done_rest left s.pager q rest d e in
      subst
        (λ total. Gives left (suc places) s total (fill get y fn_name (suc fuel) (suc places) s))
        (sym nothing)
        (
          s,
          fill-done s fuel places g d,
          (left, omega arith, (rest, q, e, nothing)),
          refl,
          refl,
          refl,
        )

  next_page :
      (fuel places left : ℕ) (s : LokiScanGlobalState) (rest : List LokiRow) (q : StreamPager)
      → get_elem? s.buffer s.buf_offset ≡ none
      → s.pager.done ≡ false
      → Answers s.endpoint s.headers
      → (f : ℕ) × (more : List LokiRow) × (left ≡ suc f)
        × (pages f server (page_of server s.pager).1 ≡ some (more, q))
        × (rest ≡ (page_of server s.pager).0 ++ more)
      → ((f : ℕ) (t : LokiScanGlobalState) (total : List LokiRow)
          → Answers t.endpoint t.headers
          → Pending f t total
          → f + suc places < fuel
          → Gives f (suc places) t total (fill get y fn_name fuel (suc places) t))
      → left + suc places < suc fuel
      → Gives left
          (suc places)
          s
          (drop s.buf_offset s.buffer ++ rest)
          (fill get y fn_name (suc fuel) (suc places) s)
  next_page fuel places left s rest q g d answers (f, more, l, e, same) next enough =
      let t = accepted get y fn_name s (next_request s.pager).1 (server (next_request s.pager).0) in
      let e' : pages f server t.pager ≡ some (more, q) = unfold page_of accepted in e in
      let same' : rest ≡ drop t.buf_offset t.buffer ++ more = unfold page_of accepted in same in
      let whole : drop t.buf_offset t.buffer ++ more ≡ drop s.buf_offset s.buffer ++ rest =
        sym same' ∙ sym (ap (λ b. b ++ rest) (drop-none s.buffer s.buf_offset g)) in
      subst
        (λ n.
          Gives n (suc places) s (drop s.buf_offset s.buffer ++ rest)
            (fill get y fn_name (suc fuel) (suc places) s))
        (sym l)
        (fetches fuel places f s t (drop t.buf_offset t.buffer ++ more)
          (drop s.buf_offset s.buffer ++ rest) whole g d (fetched_state s answers)
          (unfold accepted in refl, unfold accepted in refl, unfold accepted in refl)
          (next f t (drop t.buf_offset t.buffer ++ more) (unfold accepted in answers)
            (more, q, e', refl) (omega arith)))

  -- Where every request is answered, a call gives the first rows that are pending, as many as it has places.
  pub fill-Gives :
      (fuel places left : ℕ) (s : LokiScanGlobalState) (total : List LokiRow)
      → Answers s.endpoint s.headers
      → Pending left s total
      → left + places < fuel
      → Gives left places s total (fill get y fn_name fuel places s)
  fill-Gives zero places left s total answers pending l = absurd (omega arith)
  fill-Gives (suc fuel) zero left s total answers pending l =
      unfold fill in (s, refl, (left, omega arith, pending), refl, refl, refl)
  fill-Gives (suc fuel) (suc places) left s total answers (rest, q, e, whole) l =
      subst
        (λ total. Gives left (suc places) s total (fill get y fn_name (suc fuel) (suc places) s))
        whole
        (elim (Option-cases (get_elem? s.buffer s.buf_offset)) [
          | inr (row, g) ↦ emits fuel places left s row rest g (
              fill-Gives fuel places left (record s { buf_offset = s.buf_offset + 1 })
                (drop (s.buf_offset + 1) s.buffer ++ rest) answers (rest, q, e, refl) (omega arith))
          | inl g ↦ elim (Bool-cases s.pager.done) [
            | inl d ↦ at_end fuel places left s rest q g d e
            | inr d ↦
                next_page fuel places left s rest q g d answers
                  (before_rest left s.pager q rest d e)
                  (λ f t total answers' p l'. fill-Gives fuel (suc places) f t total answers' p l')
                  l
          ]
        ])
