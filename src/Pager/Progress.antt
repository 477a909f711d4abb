-- ===== src/Pager/Progress.antt =====
-- The paging loop over `StreamPager` (src/loki/pager.cpp, driven by `LokiScanFunction` of
-- src/loki/loki_scan.cpp): each page moves the cursor or is the last, so the loop ends.
use mathlib.Core.Path.{subst}
use duckdb_loki.Base.{
  ℕ, ◌⊎◌, ◌<◌, ◌≡◌, refl, sym, ◌∙◌, Bool, true, false, Option, none, some, List, [], ◌∷◌, arith,
  Bytes, codes, length, if◌then◌else◌, Bool-cases, inl, inr, All, Option-cases,
}
use duckdb_loki.Base.Int.{
  ℤ, pos, ◌+ℤ◌, ◌-ℤ◌, ◌≤ℤ◌, ◌<ℤ◌, leb_ℤ, min_ℤ, pos_part, int_laws, -ℤ_pos_part,
}
use duckdb_loki.Types.{StringMap, StreamEntry, StreamChunk, LokiRow, QueryRangeRequest}
use duckdb_loki.HttpRequest.{build_query_range_request}
use duckdb_loki.Pager.{
  StreamPager, Scan, next_request, next_extreme, accept_entry, accept_chunks, scan_start, advance,
  accept,
}
use duckdb_loki.Pager.Rows.{entries_of, accept_all, accept_chunks-all, accept-rows, advance-emitted}

-- What answers a request: in the program, Loki behind the HTTP client and the reader of its answers.
abbrev pub Server : Type 0
Server = QueryRangeRequest → List StreamChunk

-- One page: the request, the answer, and `Accept`.
unfoldable pub page_of : Server → StreamPager → List LokiRow × StreamPager
page_of server p = let (request, q) = next_request p in accept q (server request)

-- Every entry lies in the window that its request names: from its start, to before its end.
abbrev pub InWindow : ℤ → ℤ → List (StringMap × StreamEntry) → Type 0
InWindow start end = All (λ (labels, entry). (start ≤ℤ entry.ts_ns) × (entry.ts_ns <ℤ end))

abbrev pub HonoursWindow : Server → Type 0
HonoursWindow server =
    (logql : Bytes) (start end limit : ℤ) (direction : Bytes)
    → InWindow start end
        (entries_of (server (build_query_range_request logql start end limit direction)))

-- The part of the window that no page has covered.
unfoldable pub remaining : StreamPager → ℕ
remaining p = pos_part (if p.backward then p.cursor_ns -ℤ p.start_ns else p.end_ns -ℤ p.cursor_ns)

-- The extreme of a page is one of its timestamps, and a page without one has no entry.
abbrev Spans : ℤ → ℤ → Option ℤ → ℕ → Type 0
Spans start end none count = count ≡ 0
Spans start end (some e) count = (start ≤ℤ e) × (e <ℤ end)

next_extreme-Spans :
    (b : Bool) (start end ts : ℤ) (o : Option ℤ) (m n : ℕ)
    → Spans start end o m
    → start ≤ℤ ts
    → ts <ℤ end
    → Spans start end (some (next_extreme b o ts)) n
unfolding next_extreme
next_extreme-Spans b start end ts none m n w h k = (h, k)
next_extreme-Spans b start end ts (some e) m n w h k = ground arith

accept_entry-extreme :
    (p : StreamPager) (labels : StringMap) (s : Scan) (entry : StreamEntry)
    → (accept_entry p labels s entry).extreme ≡ some (next_extreme p.backward s.extreme entry.ts_ns)
unfolding accept_entry
accept_entry-extreme p labels s entry = ground arith

accept_all-Spans :
    (p : StreamPager) (start end : ℤ) (s : Scan) (es : List (StringMap × StreamEntry))
    → Spans start end s.extreme s.page_count
    → InWindow start end es
    → Spans start end (accept_all p s es).extreme (accept_all p s es).page_count
unfolding accept_all
accept_all-Spans p start end s [] w h = w
accept_all-Spans p start end s ((labels, entry) ∷ es) w ((from, to), h) =
    let s' = accept_entry p labels s entry in
    accept_all-Spans p start end s' es
      (subst (λ o. Spans start end o s'.page_count) (sym (accept_entry-extreme p labels s entry))
        (next_extreme-Spans p.backward start end entry.ts_ns s.extreme s.page_count s'.page_count w
          from to))
      h

module _ (start cursor end e : ℤ) where
  falls_backward :
      start ≤ℤ e
      → (e +ℤ pos 1) <ℤ cursor
      → pos_part (e +ℤ pos 1 -ℤ start) < pos_part (cursor -ℤ start)
  falls_backward h k = omega (int_laws, -ℤ_pos_part)

  falls_forward : e <ℤ end → cursor <ℤ e → pos_part (end -ℤ e) < pos_part (end -ℤ cursor)
  falls_forward h k = omega (int_laws, -ℤ_pos_part)

-- A page is the last one, or the part of the window that is left has shrunk.
abbrev pub Progresses : StreamPager → StreamPager → Type 0
Progresses p q = (q.done ≡ true) ⊎ (remaining q < remaining p)

advance_backward :
    (p : StreamPager) (s : Scan) (page : List StreamChunk)
    → p.backward ≡ true
    → pos 1 ≤ℤ p.requested_this_page
    → Spans p.start_ns p.cursor_ns s.extreme s.page_count
    → Progresses p (advance p s page)
unfolding advance remaining
advance_backward p s page b r w = elim (Option-cases s.extreme) [
  | inl empty ↦ let w' : s.page_count ≡ 0 = rw empty at w in inl (ground arith)
  | inr (e, h) ↦
      let w' : (p.start_ns ≤ℤ e) × (e <ℤ p.cursor_ns) = rw h at w in
      ground (arith, falls_backward p.start_ns p.cursor_ns p.end_ns e)
]

advance_forward :
    (p : StreamPager) (s : Scan) (page : List StreamChunk)
    → p.backward ≡ false
    → pos 1 ≤ℤ p.requested_this_page
    → Spans p.cursor_ns p.end_ns s.extreme s.page_count
    → Progresses p (advance p s page)
unfolding advance remaining
advance_forward p s page b r w = elim (Option-cases s.extreme) [
  | inl empty ↦ let w' : s.page_count ≡ 0 = rw empty at w in inl (ground arith)
  | inr (e, h) ↦
      let w' : (p.cursor_ns ≤ℤ e) × (e <ℤ p.end_ns) = rw h at w in
      ground (arith, falls_forward p.start_ns p.cursor_ns p.end_ns e)
]

request_size :
    (p : StreamPager)
    → pos 1 ≤ℤ p.per_request_cap
    → leb_ℤ p.user_limit p.emitted ≡ false
    → pos 1 ≤ℤ (next_request p).1.requested_this_page
unfolding next_request ◌+ℤ◌ ◌-ℤ◌
request_size p cap more = ground arith

advance_full :
    (p : StreamPager) (s : Scan) (page : List StreamChunk)
    → leb_ℤ p.user_limit s.emitted ≡ true
    → (advance p s page).done ≡ true
unfolding advance
advance_full p s page h = ground arith

still_full :
    (limit emitted emitted' : ℤ) (n : ℕ)
    → leb_ℤ limit emitted ≡ true
    → emitted' ≡ emitted +ℤ pos n
    → leb_ℤ limit emitted' ≡ true
unfolding ◌+ℤ◌
still_full limit emitted emitted' n h e = ground arith

-- The scan of a page, from its entries.
page_scan-Spans :
    (p : StreamPager) (start end : ℤ) (page : List StreamChunk)
    → InWindow start end (entries_of page)
    → Spans start end
        (accept_chunks p (scan_start p) page).extreme
        (accept_chunks p (scan_start p) page).page_count
page_scan-Spans p start end page h =
    rw (accept_chunks-all p (scan_start p) page)
      (accept_all-Spans p start end (scan_start p) (entries_of page) refl h)

-- The page of a window that the server honours, up to the branch on the direction.
module _ (p : StreamPager) (page : List StreamChunk) where
  accept_done : leb_ℤ p.user_limit p.emitted ≡ true → (accept p page).1.done ≡ true
  unfolding accept
  accept_done h =
      let s = accept_chunks p (scan_start p) page in
      advance_full p s page (
        still_full p.user_limit p.emitted s.emitted (length (accept p page).0) h
          (sym (advance-emitted p s page) ∙ (accept-rows p page).1))

  accept_backward :
      p.backward ≡ true
      → pos 1 ≤ℤ p.requested_this_page
      → InWindow p.start_ns p.cursor_ns (entries_of page)
      → Progresses p (accept p page).1
  unfolding accept
  accept_backward b r h =
      advance_backward p (accept_chunks p (scan_start p) page) page b r
        (page_scan-Spans p p.start_ns p.cursor_ns page h)

  accept_forward :
      p.backward ≡ false
      → pos 1 ≤ℤ p.requested_this_page
      → InWindow p.cursor_ns p.end_ns (entries_of page)
      → Progresses p (accept p page).1
  unfolding accept
  accept_forward b r h =
      advance_forward p (accept_chunks p (scan_start p) page) page b r
        (page_scan-Spans p p.cursor_ns p.end_ns page h)

if_true {ℓ} : {A : Type ℓ} (b : Bool) (x y : A) → b ≡ true → (if b then x else y) ≡ x
if_true b x y h = rw h refl

if_false {ℓ} : {A : Type ℓ} (b : Bool) (x y : A) → b ≡ false → (if b then x else y) ≡ y
if_false b x y h = rw h refl

page_window :
    (server : Server) (p : StreamPager) (start end : ℤ)
    → HonoursWindow server
    → (if p.backward then p.start_ns else p.cursor_ns) ≡ start
    → (if p.backward then p.cursor_ns else p.end_ns) ≡ end
    → InWindow start end (entries_of (server (next_request p).0))
unfolding next_request
page_window server p start end honours from to =
    let request =
      build_query_range_request p.logql (if p.backward then p.start_ns else p.cursor_ns)
        (if p.backward then p.cursor_ns else p.end_ns)
        (min_ℤ (p.user_limit -ℤ p.emitted +ℤ pos (length p.boundary_keys)) p.per_request_cap)
        (if p.backward then codes "backward" else codes "forward") in
    subst (λ e. InWindow start e (entries_of (server request))) to
      (subst
        (λ s.
          InWindow s (if p.backward then p.cursor_ns else p.end_ns) (entries_of (server request)))
        from (honours p.logql _ _ _ _))

pub page_step :
    (server : Server) (p : StreamPager)
    → HonoursWindow server
    → pos 1 ≤ℤ p.per_request_cap
    → Progresses p (page_of server p).1
unfolding page_of next_request remaining
page_step server p honours cap1 =
    let q = (next_request p).1 in
    let page = server (next_request p).0 in
    elim (Bool-cases (leb_ℤ p.user_limit p.emitted)) [
      | inl full ↦ inl (accept_done q page full)
      | inr more ↦ elim (Bool-cases p.backward) [
        | inl b ↦ accept_backward q page b (request_size p cap1 more) (
            page_window server p p.start_ns p.cursor_ns honours (if_true _ _ _ b) (if_true _ _ _ b))
        | inr b ↦ accept_forward q page b (request_size p cap1 more) (
            page_window server p p.cursor_ns p.end_ns honours (if_false _ _ _ b) (if_false _ _ _ b))
      ]
    ]
