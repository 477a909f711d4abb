-- ===== src/Pager/Rows.antt =====
-- `StreamPager::Accept` of src/loki/pager.cpp: which rows of a page are emitted.
use duckdb_loki.Base.{
  ℕ, zero, suc, ◌+◌, ◌≡◌, refl, sym, ap, ◌∙◌, true, false, List, [], ◌∷◌, ◌++◌, append_assoc,
  append-nil, arith, take, length, if◌then◌else◌, Bool-cases, inl, inr, length-append,
}
use duckdb_loki.Base.Int.{ℤ, pos, ◌+ℤ◌, ◌-ℤ◌, leb_ℤ, pos_part, neg_part, int_laws}
use duckdb_loki.Types.{StringMap, StreamEntry, StreamChunk, LokiRow}
use duckdb_loki.Pager.{
  StreamPager, Scan, row_of, has_key, entry_key, accept_entry, accept_entries, accept_chunks,
  scan_start, advance, accept,
}

-- The entries of a page with their streams' labels, in the order of the two loops.
abbrev pub labelled : StringMap → List StreamEntry → List (StringMap × StreamEntry)
labelled labels [] = []
labelled labels (entry ∷ entries) = (labels, entry) ∷ labelled labels entries

abbrev pub entries_of : List StreamChunk → List (StringMap × StreamEntry)
entries_of [] = []
entries_of (chunk ∷ chunks) = labelled chunk.labels chunk.values ++ entries_of chunks

unfoldable pub accept_all : StreamPager → Scan → List (StringMap × StreamEntry) → Scan
accept_all p s [] = s
accept_all p s ((labels, entry) ∷ es) = accept_all p (accept_entry p labels s entry) es

accept_all-append :
    (p : StreamPager) (s : Scan) (es fs : List (StringMap × StreamEntry))
    → accept_all p s (es ++ fs) ≡ accept_all p (accept_all p s es) fs
unfolding accept_all
accept_all-append p s [] fs = refl
accept_all-append p s ((labels, entry) ∷ es) fs =
    accept_all-append p (accept_entry p labels s entry) es fs

accept_entries-all :
    (p : StreamPager) (labels : StringMap) (s : Scan) (es : List StreamEntry)
    → accept_entries p labels s es ≡ accept_all p s (labelled labels es)
unfolding accept_all accept_entries
accept_entries-all p labels s [] = refl
accept_entries-all p labels s (e ∷ es) = accept_entries-all p labels (accept_entry p labels s e) es

-- The nested loops are one loop over the entries of the page.
pub accept_chunks-all :
    (p : StreamPager) (s : Scan) (page : List StreamChunk)
    → accept_chunks p s page ≡ accept_all p s (entries_of page)
unfolding accept_chunks
accept_chunks-all p s [] = unfold accept_all in refl
accept_chunks-all p s (chunk ∷ chunks) =
    accept_chunks-all p (accept_entries p chunk.labels s chunk.values) chunks
    ∙ ap (λ t. accept_all p t (entries_of chunks))
        (accept_entries-all p chunk.labels s chunk.values)
    ∙ sym (accept_all-append p s (labelled chunk.labels chunk.values) (entries_of chunks))

-- The rows of the entries whose key is not one of the boundary's.
abbrev pub fresh_rows : StreamPager → List (StringMap × StreamEntry) → List LokiRow
fresh_rows p [] = []
fresh_rows p ((labels, entry) ∷ es) =
    let rest = fresh_rows p es in
    if has_key p.boundary_keys (entry_key entry.ts_ns entry.line labels)
    then rest
    else row_of labels entry ∷ rest

-- The number of rows that may still be emitted.
unfoldable pub room : ℤ → ℤ → ℕ
room user_limit emitted = pos_part (user_limit -ℤ emitted)

room_zero : (limit emitted : ℤ) → leb_ℤ limit emitted ≡ true → room limit emitted ≡ 0
unfolding room ◌-ℤ◌
room_zero limit emitted h = ground arith

room-suc :
    (limit emitted : ℤ)
    → leb_ℤ limit emitted ≡ false
    → room limit emitted ≡ suc (room limit (emitted +ℤ pos 1))
unfolding room ◌-ℤ◌ ◌+ℤ◌
room-suc limit emitted h = ground arith

take_nil {ℓ} : {A : Type ℓ} (n : ℕ) → take {A = A} n [] ≡ []
take_nil zero = refl
take_nil (suc n) = refl

module _ (p : StreamPager) (labels : StringMap) (s : Scan) (entry : StreamEntry) where
  accept_entry_full :
      leb_ℤ p.user_limit s.emitted ≡ true
      → ((accept_entry p labels s entry).rows ≡ s.rows)
        × ((accept_entry p labels s entry).emitted ≡ s.emitted)
  unfolding accept_entry
  accept_entry_full h = ground arith

  accept_entry_seen :
      leb_ℤ p.user_limit s.emitted ≡ false
      → has_key p.boundary_keys (entry_key entry.ts_ns entry.line labels) ≡ true
      → ((accept_entry p labels s entry).rows ≡ s.rows)
        × ((accept_entry p labels s entry).emitted ≡ s.emitted)
  unfolding accept_entry
  accept_entry_seen h k = ground arith

  accept_entry_fresh :
      leb_ℤ p.user_limit s.emitted ≡ false
      → has_key p.boundary_keys (entry_key entry.ts_ns entry.line labels) ≡ false
      → ((accept_entry p labels s entry).rows ≡ s.rows ++ row_of labels entry ∷ [])
        × ((accept_entry p labels s entry).emitted ≡ s.emitted +ℤ pos 1)
  unfolding accept_entry
  accept_entry_fresh h k = rw (h, k) (refl, refl)

accept_all-rows :
    (p : StreamPager) (s : Scan) (es : List (StringMap × StreamEntry))
    → (accept_all p s es).rows ≡ s.rows ++ take (room p.user_limit s.emitted) (fresh_rows p es)
unfolding accept_all
accept_all-rows p s [] =
    sym (ap (λ t. s.rows ++ t) (take_nil (room p.user_limit s.emitted)) ∙ append-nil s.rows)
accept_all-rows p s ((labels, entry) ∷ es) =
    accept_all-rows p (accept_entry p labels s entry) es
    ∙ elim (Bool-cases (leb_ℤ p.user_limit s.emitted)) [
      | inl full ↦
          let (r, m) = accept_entry_full p labels s entry full in
          rw (r, m, room_zero p.user_limit s.emitted full)
      | inr more ↦
          elim (Bool-cases (has_key p.boundary_keys (entry_key entry.ts_ns entry.line labels))) [
            | inl seen ↦
                let (r, m) = accept_entry_seen p labels s entry more seen in rw (r, m, seen)
            | inr fresh ↦
                let (r, m) = accept_entry_fresh p labels s entry more fresh in
                rw (r, m, fresh, room-suc p.user_limit s.emitted more)
                  (append_assoc s.rows (row_of labels entry ∷ []) _)
          ]
    ]

+ℤ_one : (a : ℤ) (n : ℕ) → a +ℤ pos 1 +ℤ pos n ≡ a +ℤ pos (n + 1)
+ℤ_one a n = omega int_laws

balance :
    (a b c : ℤ) (l m n : ℕ)
    → a +ℤ pos m ≡ b +ℤ pos n
    → b +ℤ pos l ≡ c +ℤ pos m
    → a +ℤ pos l ≡ c +ℤ pos n
balance a b c l m n h k =
    omega (int_laws, ap pos_part h, ap neg_part h, ap pos_part k, ap neg_part k)

+ℤ-zero : (a : ℤ) → a +ℤ pos 0 ≡ a
+ℤ-zero a = omega int_laws

accept_entry_count :
    (p : StreamPager) (labels : StringMap) (s : Scan) (entry : StreamEntry)
    → (accept_entry p labels s entry).emitted +ℤ pos (length s.rows)
      ≡ s.emitted +ℤ pos (length (accept_entry p labels s entry).rows)
unfolding accept_entry
accept_entry_count p labels s entry =
    ground
      (arith, length-append s.rows (row_of labels entry ∷ []), +ℤ_one s.emitted (length s.rows))

accept_all-emitted :
    (p : StreamPager) (s : Scan) (es : List (StringMap × StreamEntry))
    → (accept_all p s es).emitted +ℤ pos (length s.rows)
      ≡ s.emitted +ℤ pos (length (accept_all p s es).rows)
unfolding accept_all
accept_all-emitted p s [] = refl
accept_all-emitted p s ((labels, entry) ∷ es) =
    balance _ _ _ (length s.rows) _ _ (accept_all-emitted p (accept_entry p labels s entry) es)
      (accept_entry_count p labels s entry)

pub advance-emitted :
    (p : StreamPager) (s : Scan) (page : List StreamChunk) → (advance p s page).emitted ≡ s.emitted
unfolding advance
advance-emitted p s page = ground arith

-- A page gives the rows of its entries, in the order of the page, without those whose key is one of the
-- boundary's, and no more than the limit leaves room for; the count grows by their number.
pub accept-rows :
    (p : StreamPager) (page : List StreamChunk)
    → ((accept p page).0 ≡ take (room p.user_limit p.emitted) (fresh_rows p (entries_of page)))
      × ((accept p page).1.emitted ≡ p.emitted +ℤ pos (length (accept p page).0))
unfolding accept
accept-rows p page =
    let s = accept_chunks p (scan_start p) page in
    let all : s ≡ accept_all p (scan_start p) (entries_of page) =
      accept_chunks-all p (scan_start p) page in
    (
      rw all (accept_all-rows p (scan_start p) (entries_of page)),
      advance-emitted p s page
          ∙ rw all (sym (+ℤ-zero _) ∙ accept_all-emitted p (scan_start p) (entries_of page)),
    )
