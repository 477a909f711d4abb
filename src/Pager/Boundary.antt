-- ===== src/Pager/Boundary.antt =====
-- `StreamPager::Accept` of src/loki/pager.cpp over two pages: which entries of the second are taken for those that the
-- first left at its boundary.
use mathlib.Core.Path.{subst}
use duckdb_loki.Base.{
  ◌≡◌, refl, sym, ap, ◌∙◌, Bool, true, false, ◌&&◌, ◌||◌, List, [], ◌∷◌, ◌++◌, Bytes, str_eq,
  eq_of_str_eq, All, Bool-cases, inl, inr, take, length, if◌then◌else◌,
}
use duckdb_loki.Base.Int.{ℤ, pos, ◌+ℤ◌, ◌-ℤ◌, eq_ℤ, ltb_ℤ, leb_ℤ, int_laws}
use duckdb_loki.Types.{StringMap, StreamEntry, StreamChunk, LokiRow}
use duckdb_loki.Pager.{
  StreamPager, Scan, row_of, entry_key, has_key, insert_key, boundary_entries, boundary_chunks,
  extreme_ns, next_cursor, next_request, advance, accept, accept_chunks, scan_start,
}
use duckdb_loki.Pager.Rows.{labelled, entries_of, fresh_rows, room, accept-rows}
use duckdb_loki.Pager.SameEntry.{Labelled, same_entry, CleanEntry, key_of, key-same_entry}

-- The entry stands among others at an instant.
abbrev pub stands_at : ℤ → List Labelled → Labelled → Bool
stands_at ns [] x = false
stands_at ns ((ls, e) ∷ es) x = (eq_ℤ e.ts_ns ns && same_entry (ls, e) x) || stands_at ns es x

-- The rows of a page but for the entries that stand among those of another at an instant.
abbrev pub rows_but : ℤ → List Labelled → List Labelled → List LokiRow
rows_but ns before [] = []
rows_but ns before ((ls, e) ∷ es) =
    let rest = rows_but ns before es in
    if stands_at ns before (ls, e) then rest else row_of ls e ∷ rest

-- The keys that the boundary of a list of entries gives.
abbrev add_key : ℤ → List Bytes → Labelled → List Bytes
add_key ns keys (ls, e) =
    if eq_ℤ e.ts_ns ns then insert_key keys (entry_key e.ts_ns e.line ls) else keys

abbrev boundary_all : ℤ → List Bytes → List Labelled → List Bytes
boundary_all ns keys [] = keys
boundary_all ns keys (x ∷ es) = boundary_all ns (add_key ns keys x) es

boundary_all-append :
    (ns : ℤ) (keys : List Bytes) (xs ys : List Labelled)
    → boundary_all ns keys (xs ++ ys) ≡ boundary_all ns (boundary_all ns keys xs) ys
boundary_all-append ns keys [] ys = refl
boundary_all-append ns keys (x ∷ xs) ys = boundary_all-append ns (add_key ns keys x) xs ys

boundary_entries-all :
    (ns : ℤ) (ls : StringMap) (keys : List Bytes) (es : List StreamEntry)
    → boundary_entries ns ls keys es ≡ boundary_all ns keys (labelled ls es)
unfolding boundary_entries
boundary_entries-all ns ls keys [] = refl
boundary_entries-all ns ls keys (e ∷ es) = boundary_entries-all ns ls (add_key ns keys (ls, e)) es

boundary_chunks-all :
    (ns : ℤ) (keys : List Bytes) (page : List StreamChunk)
    → boundary_chunks ns keys page ≡ boundary_all ns keys (entries_of page)
unfolding boundary_chunks
boundary_chunks-all ns keys [] = refl
boundary_chunks-all ns keys (chunk ∷ page) =
    boundary_chunks-all ns (boundary_entries ns chunk.labels keys chunk.values) page
    ∙ ap (λ keys. boundary_all ns keys (entries_of page))
        (boundary_entries-all ns chunk.labels keys chunk.values)
    ∙ sym (boundary_all-append ns keys (labelled chunk.labels chunk.values) (entries_of page))

has_key-insert_key :
    (keys : List Bytes) (x k : Bytes)
    → has_key (insert_key keys x) k ≡ (str_eq x k || has_key keys k)
unfolding insert_key has_key
has_key-insert_key keys x k = elim (Bool-cases (has_key keys x)) [
  | inl there ↦ elim (Bool-cases (str_eq x k)) [
    | inl same ↦
        let e = eq_of_str_eq x k same in
        rw (there, same) (subst (λ k. has_key keys k ≡ true) e there)
    | inr other ↦ rw (there, other) refl
  ]
  | inr absent ↦ rw absent refl
]

or_false : (a : Bool) → a ≡ (a || false)
or_false true = refl
or_false false = refl

or_swap : (a b c : Bool) → ((b || a) || c) ≡ (a || (b || c))
or_swap true true c = refl
or_swap true false c = refl
or_swap false true c = refl
or_swap false false c = refl

has_key-add_key :
    (ns : ℤ) (keys : List Bytes) (y x : Labelled) (rest : Bool)
    → CleanEntry y
    → CleanEntry x
    → (has_key (add_key ns keys y) (key_of x) || rest)
      ≡ (has_key keys (key_of x) || ((eq_ℤ y.1.ts_ns ns && same_entry y x) || rest))
has_key-add_key ns keys (ls, e) x rest hy hx = elim (Bool-cases (eq_ℤ e.ts_ns ns)) [
  | inl at_boundary ↦
      rw
        (
          at_boundary,
          has_key-insert_key keys (key_of (ls, e)) (key_of x),
          key-same_entry (ls, e) x hy hx,
        )
        (or_swap (has_key keys (key_of x)) (same_entry (ls, e) x) rest)
  | inr elsewhere ↦ rw elsewhere refl
]

-- A key is at the boundary where it was there before, or where its entry stands in the page at that instant.
has_key-boundary_all :
    (ns : ℤ) (keys : List Bytes) (es : List Labelled) (x : Labelled)
    → All CleanEntry es
    → CleanEntry x
    → has_key (boundary_all ns keys es) (key_of x) ≡ (has_key keys (key_of x) || stands_at ns es x)
has_key-boundary_all ns keys [] x h hx = or_false (has_key keys (key_of x))
has_key-boundary_all ns keys ((ls, e) ∷ es) x (he, h) hx =
    has_key-boundary_all ns (add_key ns keys (ls, e)) es x h hx
    ∙ has_key-add_key ns keys (ls, e) x (stands_at ns es x) he hx

-- The instant of the boundary, at which the next page starts.
abbrev pub boundary_ns : StreamPager → ℤ
boundary_ns p = if p.backward then p.cursor_ns -ℤ pos 1 else p.cursor_ns

before_next : (a : ℤ) → a +ℤ pos 1 -ℤ pos 1 ≡ a
before_next a = omega int_laws

boundary-next_cursor :
    (b : Bool) (e : ℤ)
    → (if b then (if b then e +ℤ pos 1 else e) -ℤ pos 1 else (if b then e +ℤ pos 1 else e)) ≡ e
boundary-next_cursor true e = before_next e
boundary-next_cursor false e = refl

true_is_not_false : true ≡ false → ⊥
true_is_not_false h = cc

-- A page that is not the last has moved the cursor, and kept the keys of its boundary.
advance_on :
    (p : StreamPager) (s : Scan) (page : List StreamChunk)
    → (advance p s page).done ≡ false
    → (boundary_ns (advance p s page) ≡ extreme_ns s)
      × ((advance p s page).boundary_keys ≡ boundary_chunks (extreme_ns s) [] page)
unfolding advance
advance_on p s page h =
    let next = next_cursor p s in
    elim (Bool-cases
      (ltb_ℤ (pos s.page_count) p.requested_this_page || leb_ℤ p.user_limit s.emitted)) [
        | inl last ↦
            let h' : true ≡ false = rw (last, advance) at h in absurd (true_is_not_false h')
        | inr more ↦
            elim (Bool-cases
              (if p.backward then ltb_ℤ next p.cursor_ns else ltb_ℤ p.cursor_ns next)) [
                | inr stuck ↦
                    let h' : true ≡ false = rw (more, stuck, advance) at h in
                    absurd (true_is_not_false h')
                | inl moved ↦
                    rw (more, moved, advance) (boundary-next_cursor p.backward (extreme_ns s), refl)
              ]
      ]

fresh_rows-rows_but :
    (q : StreamPager) (ns : ℤ) (before es : List Labelled)
    → q.boundary_keys ≡ boundary_all ns [] before
    → All CleanEntry before
    → All CleanEntry es
    → fresh_rows q es ≡ rows_but ns before es
fresh_rows-rows_but q ns before [] e hb h = refl
fresh_rows-rows_but q ns before ((ls, x) ∷ es) e hb (hx, h) =
    let seen : has_key q.boundary_keys (key_of (ls, x)) ≡ stands_at ns before (ls, x) =
      ap (λ keys. has_key keys (key_of (ls, x))) e
      ∙ has_key-boundary_all ns [] before (ls, x) hb hx
      ∙ (unfold has_key in refl) in
    rw (seen, fresh_rows-rows_but q ns before es e hb h) refl

-- Two pages, one after the other, whose entries hold no separator bytes: where the first is not the last, the second
-- gives the rows of its entries in order, but for those that stand, with the same time, line and labels, in the
-- first page at the instant at which the second page starts; and no more than the limit leaves room for. The count
-- grows by their number.
pub accept-rows_but :
    (p : StreamPager) (first second : List StreamChunk)
    → (accept p first).1.done ≡ false
    → All CleanEntry (entries_of first)
    → All CleanEntry (entries_of second)
    → ((accept (next_request (accept p first).1).1 second).0
        ≡ take
            (room (accept p first).1.user_limit (accept p first).1.emitted)
            (rows_but (boundary_ns (accept p first).1) (entries_of first) (entries_of second)))
      × ((accept (next_request (accept p first).1).1 second).1.emitted
          ≡ (accept p first).1.emitted
            +ℤ pos (length (accept (next_request (accept p first).1).1 second).0))
unfolding accept next_request
accept-rows_but p first second h clean clean' =
    let s = accept_chunks p (scan_start p) first in
    let q = advance p s first in
    let r = (next_request q).1 in
    let (instant, keys) = advance_on p s first h in
    let boundary : r.boundary_keys ≡ boundary_all (boundary_ns q) [] (entries_of first) =
      keys
      ∙ boundary_chunks-all (extreme_ns s) [] first
      ∙ ap (λ ns. boundary_all ns [] (entries_of first)) (sym instant) in
    let (rows, count) = accept-rows r second in
    (
      rows
          ∙ ap (take (room q.user_limit q.emitted)) (
              fresh_rows-rows_but r (boundary_ns q) (entries_of first) (entries_of second) boundary
                clean clean'),
      count,
    )
