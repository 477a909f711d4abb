-- ===== src/Pager/Total.antt =====
-- The loop of `LokiScanFunction` (src/loki/loki_scan.cpp) over `StreamPager` (src/loki/pager.cpp): it
-- ends, and what it has emitted is within the limit.
use mathlib.Core.Path.{subst}
use duckdb_loki.Base.{
  ℕ, zero, suc, ◌⊎◌, ◌+◌, ◌≤◌, ◌<◌, ◌≡◌, refl, sym, ap, ◌∙◌, Bool, true, false, Option, none, some,
  List, [], ◌++◌, arith, length, if◌then◌else◌, Bool-cases, inl, inr, length-append, length-take,
  take,
}
use duckdb_loki.Base.Int.{ℤ, pos, ◌+ℤ◌, ◌-ℤ◌, ◌≤ℤ◌, int_laws}
use duckdb_loki.Types.{StreamChunk, LokiRow}
use duckdb_loki.Pager.{StreamPager, Scan, accept_chunks, scan_start, next_request, advance, accept}
use duckdb_loki.Pager.Rows.{room, accept-rows, fresh_rows, entries_of}
use duckdb_loki.Pager.Progress.{Server, page_of, HonoursWindow, remaining, page_step}

-- The rows of a page before those of the pages behind it.
abbrev before :
    List LokiRow → Option (List LokiRow × StreamPager) → Option (List LokiRow × StreamPager)
before rows none = none
before rows (some (rest, r)) = some (rows ++ rest, r)

-- The pages until `Done`, where every request is answered (an error of the server or of the reader ends
-- the scan with an exception); `none` where the fuel runs out.
unfoldable pub pages : ℕ → Server → StreamPager → Option (List LokiRow × StreamPager)
unfolding page_of
pages zero server p = if p.done then some ([], p) else none
pages (suc fuel) server p =
    let (rows, q) = page_of server p in
    let more = before rows (pages fuel server q) in if p.done then some ([], p) else more

module _ (p : StreamPager) (s : Scan) (page : List StreamChunk) where
  advance_keeps :
      ((advance p s page).per_request_cap ≡ p.per_request_cap)
      × ((advance p s page).user_limit ≡ p.user_limit)
  unfolding advance
  advance_keeps = ground arith

-- What a page does to the settings and the count.
page_keeps :
    (server : Server) (p : StreamPager)
    → ((page_of server p).1.per_request_cap ≡ p.per_request_cap)
      × ((page_of server p).1.user_limit ≡ p.user_limit)
unfolding page_of accept next_request
page_keeps server p =
    let q = (next_request p).1 in
    let page = server (next_request p).0 in
    advance_keeps q (accept_chunks q (scan_start q) page) page

length-take_le {ℓ} : {A : Type ℓ} (n : ℕ) (xs : List A) → length (take n xs) ≤ n
length-take_le n xs = ground (arith, length-take n xs)

page_rows :
    (server : Server) (p : StreamPager)
    → (length (page_of server p).0 ≤ room p.user_limit p.emitted)
      × ((page_of server p).1.emitted ≡ p.emitted +ℤ pos (length (page_of server p).0))
unfolding page_of next_request
page_rows server p =
    let q = (next_request p).1 in
    let page = server (next_request p).0 in
    let (rows, count) = accept-rows q page in
    (rw rows (length-take_le (room p.user_limit p.emitted) (fresh_rows q (entries_of page))), count)

room_add :
    (limit emitted emitted' : ℤ) (m n : ℕ)
    → m ≤ room limit emitted
    → emitted' ≡ emitted +ℤ pos m
    → n ≤ room limit emitted'
    → m + n ≤ room limit emitted
unfolding room ◌-ℤ◌ ◌+ℤ◌
room_add limit emitted emitted' m n h e k = ground arith

less_left :
    (done : Bool) (m n fuel : ℕ) → done ≡ false → (done ≡ true) ⊎ (n < suc fuel) → m < n → m < fuel
less_left done m n fuel d h k = ground arith

not_below_zero : {n : ℕ} → n < 0 → ⊥
not_below_zero h = omega arith

if_false {ℓ} : {A : Type ℓ} (b : Bool) (x y : A) → b ≡ false → (if b then x else y) ≡ y
if_false b x y h = rw h refl

+ℤ-zero : (a : ℤ) → a +ℤ pos 0 ≡ a
+ℤ-zero a = omega int_laws

+ℤ_plus : (a : ℤ) (m n : ℕ) → a +ℤ pos m +ℤ pos n ≡ a +ℤ pos (m + n)
+ℤ_plus a m n = omega int_laws

-- What the loop promises: it stops, within the limit, with a count that its rows account for.
abbrev pub Completes : Option (List LokiRow × StreamPager) → StreamPager → Type 0
Completes result p =
    (rows : List LokiRow) × (q : StreamPager) × (result ≡ some (rows, q))
    × (q.done ≡ true)
    × (length rows ≤ room p.user_limit p.emitted)
    × (q.emitted ≡ p.emitted +ℤ pos (length rows))

Completes-done :
    (p : StreamPager) (result : Option (List LokiRow × StreamPager))
    → p.done ≡ true
    → result ≡ some ([], p)
    → Completes result p
Completes-done p result d h =
    let bound : 0 ≤ room p.user_limit p.emitted = omega arith in
    ([], p, h, d, bound, sym (+ℤ-zero p.emitted))

pages_more :
    (fuel : ℕ) (server : Server) (p r : StreamPager) (rest : List LokiRow)
    → p.done ≡ false
    → pages fuel server (page_of server p).1 ≡ some (rest, r)
    → pages (suc fuel) server p ≡ some ((page_of server p).0 ++ rest, r)
unfolding pages
pages_more fuel server p r rest d h =
    if_false p.done (some ([], p))
      (before (page_of server p).0 (pages fuel server (page_of server p).1)) d
    ∙ ap (before (page_of server p).0) h

-- A page that is not behind the end, and the pages behind it.
Completes-page :
    (fuel : ℕ) (server : Server) (p : StreamPager)
    → p.done ≡ false
    → Completes (pages fuel server (page_of server p).1) (page_of server p).1
    → Completes (pages (suc fuel) server p) p
Completes-page fuel server p d (rest, r, h, e, bound, count) =
    let first = (page_of server p).0 in
    let q = (page_of server p).1 in
    let (first_bound, first_count) = page_rows server p in
    let bound' : length rest ≤ room p.user_limit q.emitted =
      subst (λ u. length rest ≤ room u q.emitted) (page_keeps server p).1 bound in
    (
      first ++ rest,
      r,
      pages_more fuel server p r rest d h,
      e,
      rw (length-append first rest) (
          room_add p.user_limit p.emitted q.emitted (length first) (length rest) first_bound
            first_count bound'),
      count
          ∙ ap (λ x. x +ℤ pos (length rest)) first_count
          ∙ +ℤ_plus p.emitted (length first) (length rest)
          ∙ ap (λ n. p.emitted +ℤ pos n) (sym (length-append first rest)),
    )

-- A pager whose requests are for at least one entry, on a server whose answers lie in the window that
-- the request names, is done after at most as many pages as the window has nanoseconds left, and one;
-- the rows of all its pages are within the limit, and `emitted` has grown by their number.
pub pages_complete :
    (fuel : ℕ) (server : Server) (p : StreamPager)
    → HonoursWindow server
    → pos 1 ≤ℤ p.per_request_cap
    → (p.done ≡ true) ⊎ (remaining p < fuel)
    → Completes (pages fuel server p) p
unfolding pages
pages_complete zero server p honours cap1 (inl d) = Completes-done p _ d (rw d refl)
pages_complete zero server p honours cap1 (inr l) = elim (not_below_zero l) [ ]
pages_complete (suc fuel) server p honours cap1 h = elim (Bool-cases p.done) [
  | inl d ↦ Completes-done p _ d (rw d refl)
  | inr d ↦
      let q = (page_of server p).1 in
      let next : (q.done ≡ true) ⊎ (remaining q < fuel) = elim (page_step server p honours cap1) [
        | inl e ↦ inl e
        | inr less ↦ inr (less_left p.done (remaining q) (remaining p) fuel d h less)
      ] in
      Completes-page fuel server p d
        (pages_complete fuel server q honours (rw (page_keeps server p).0 cap1) next)
]
