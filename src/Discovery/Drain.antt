-- ===== src/Discovery/Drain.antt =====
-- `LokiDiscoveryFunction` of src/loki/loki_discovery.cpp: the calls of it together give every row once.
use duckdb_loki.Base.{
  ℕ, zero, suc, ◌+◌, ◌≤◌, ◌<◌, ◌≡◌, refl, sym, ap, ◌∙◌, ◌⊎◌, inl, inr, true, Option, none, some,
  List, [], ◌∷◌, ◌++◌, map, arith, length, drop, drop-none, drop-next, get_elem?, Option-cases,
  Result, ok, throw, length-append, map-append,
}
use duckdb_loki.HttpClient.{Call, Outcome}
use duckdb_loki.Parse.{Yyjson}
use duckdb_loki.Discovery.{
  DiscoveryKind, DiscoveryRow, text_row, labels_row, LokiDiscoveryGlobalState, emit_rows,
  output_rows, loki_discovery_function,
}

module _ {ℓ} {A : Type ℓ} where
  emit_rows-none :
      (n : ℕ) (rows : List A) (i : ℕ) → get_elem? rows i ≡ none → emit_rows (suc n) rows i ≡ ([], i)
  unfolding emit_rows
  emit_rows-none n rows i h = rw (h, emit_rows) refl

  emit_rows-some :
      (n : ℕ) (rows : List A) (i : ℕ) (r : A)
      → get_elem? rows i ≡ some r
      → emit_rows (suc n) rows i ≡ (r ∷ (emit_rows n rows (i + 1)).0, (emit_rows n rows (i + 1)).1)
  unfolding emit_rows
  emit_rows-some n rows i r h = rw (h, emit_rows) refl

  -- What is emitted, and what is left behind the offset.
  pub emit_rows-drop :
      (n : ℕ) (rows : List A) (i : ℕ)
      → (emit_rows n rows i).0 ++ drop (emit_rows n rows i).1 rows ≡ drop i rows
  emit_rows-drop zero rows i = unfold emit_rows in refl
  emit_rows-drop (suc n) rows i = elim (Option-cases (get_elem? rows i)) [
    | inl h ↦ rw (emit_rows-none n rows i h) refl
    | inr (r, h) ↦
        rw (emit_rows-some n rows i r h)
          (ap (λ t. r ∷ t) (emit_rows-drop n rows (i + 1)) ∙ sym (drop-next rows i r h))
  ]

  less_left :
      (n : ℕ) (rows : List A) (i : ℕ) (r : A)
      → get_elem? rows i ≡ some r
      → length (drop (emit_rows (suc n) rows i).1 rows) < length (drop i rows)
  less_left n rows i r h =
      let (out, end) = emit_rows n rows (i + 1) in
      rw (emit_rows-some n rows i r h, drop-next rows i r h)
        (omega (
          arith,
          ap length (emit_rows-drop n rows (i + 1)),
          length-append (emit_rows n rows (i + 1)).0 (drop (emit_rows n rows (i + 1)).1 rows),
        ))

  -- A vector with a place takes a row where there is one.
  pub emit_rows-progress :
      (n : ℕ) (rows : List A) (i : ℕ)
      → (drop i rows ≡ [])
        ⊎ (length (drop (emit_rows (suc n) rows i).1 rows) < length (drop i rows))
  emit_rows-progress n rows i = elim (Option-cases (get_elem? rows i)) [
    | inl h ↦ inl (drop-none rows i h)
    | inr (r, h) ↦ inr (less_left n rows i r h)
  ]

pub none_left {ℓ} : {A : Type ℓ} (xs : List A) → length xs ≤ 0 → xs ≡ []
none_left [] h = refl
none_left (x ∷ xs) h = absurd (omega arith)

length-map_rows {ℓ} :
    {A : Type ℓ} (f : A → DiscoveryRow) (xs : List A) → length (map f xs) ≡ length xs
length-map_rows f [] = refl
length-map_rows f (x ∷ xs) = ap suc (length-map_rows f xs)

-- The rows that a state has not given yet.
abbrev pub rows_left : DiscoveryKind → LokiDiscoveryGlobalState → List DiscoveryRow
rows_left DiscoveryKind.kind_series s = map labels_row (drop s.offset s.series_rows)
rows_left kind s = map text_row (drop s.offset s.string_rows)

module _ (get : Call → Outcome) (y : Yyjson) where
  output_rows-left :
      (v : ℕ) (kind : DiscoveryKind) (s : LokiDiscoveryGlobalState)
      → (output_rows get y v kind s).0 ++ rows_left kind (output_rows get y v kind s).1
        ≡ rows_left kind s
  unfolding output_rows
  output_rows-left v DiscoveryKind.kind_series s =
      sym (map-append labels_row (emit_rows v s.series_rows s.offset).0 _)
      ∙ ap (map labels_row) (emit_rows-drop v s.series_rows s.offset)
  output_rows-left v DiscoveryKind.kind_labels s =
      sym (map-append text_row (emit_rows v s.string_rows s.offset).0 _)
      ∙ ap (map text_row) (emit_rows-drop v s.string_rows s.offset)
  output_rows-left v DiscoveryKind.kind_label_values s =
      sym (map-append text_row (emit_rows v s.string_rows s.offset).0 _)
      ∙ ap (map text_row) (emit_rows-drop v s.string_rows s.offset)

  output_rows-fetched :
      (v : ℕ) (kind : DiscoveryKind) (s : LokiDiscoveryGlobalState)
      → (output_rows get y v kind s).1.fetched ≡ s.fetched
  unfolding output_rows
  output_rows-fetched v DiscoveryKind.kind_series s = refl
  output_rows-fetched v DiscoveryKind.kind_labels s = refl
  output_rows-fetched v DiscoveryKind.kind_label_values s = refl

  map_left :
      {A : Type 0} (f : A → DiscoveryRow) (xs ys : List A)
      → (xs ≡ []) ⊎ (length ys < length xs)
      → (map f xs ≡ []) ⊎ (length (map f ys) < length (map f xs))
  map_left f xs ys (inl e) = inl (ap (map f) e)
  map_left f xs ys (inr l) = inr (rw (length-map_rows f ys, length-map_rows f xs) l)

  output_rows-progress :
      (v : ℕ) (kind : DiscoveryKind) (s : LokiDiscoveryGlobalState)
      → (rows_left kind s ≡ [])
        ⊎ (length (rows_left kind (output_rows get y (suc v) kind s).1) < length (rows_left kind s))
  unfolding output_rows
  output_rows-progress v DiscoveryKind.kind_series s =
      map_left labels_row (drop s.offset s.series_rows) _
        (emit_rows-progress v s.series_rows s.offset)
  output_rows-progress v DiscoveryKind.kind_labels s =
      map_left text_row (drop s.offset s.string_rows) _
        (emit_rows-progress v s.string_rows s.offset)
  output_rows-progress v DiscoveryKind.kind_label_values s =
      map_left text_row (drop s.offset s.string_rows) _
        (emit_rows-progress v s.string_rows s.offset)

  abbrev with_rows :
      List DiscoveryRow → Option (Result (List DiscoveryRow)) → Option (Result (List DiscoveryRow))
  with_rows rows none = none
  with_rows rows (some (throw e)) = some (throw e)
  with_rows rows (some (ok more)) = some (ok (rows ++ more))

  -- The rows of so many calls, one behind the other.
  unfoldable pub calls :
      ℕ → ℕ → DiscoveryKind → LokiDiscoveryGlobalState → Option (Result (List DiscoveryRow))
  calls zero v kind s = some (ok [])
  calls (suc n) v kind s = elim (loki_discovery_function get y v kind s) [
    | none ↦ none
    | some (throw e) ↦ some (throw e)
    | some (ok (rows, t)) ↦ with_rows rows (calls n v kind t)
  ]

  calls_fetched :
      (n v : ℕ) (kind : DiscoveryKind) (s : LokiDiscoveryGlobalState)
      → s.fetched ≡ true
      → calls (suc n) v kind s
        ≡ with_rows (output_rows get y v kind s).0 (calls n v kind (output_rows get y v kind s).1)
  unfolding calls
  calls_fetched n v kind s h =
      let e : loki_discovery_function get y v kind s ≡ some (ok (output_rows get y v kind s)) =
        unfold loki_discovery_function in rw h refl in
      rw (e, calls) refl

  fewer_left :
      (n v : ℕ) (kind : DiscoveryKind) (s : LokiDiscoveryGlobalState)
      → length (rows_left kind s) ≤ suc n
      → length (rows_left kind (output_rows get y (suc v) kind s).1) ≤ n
  fewer_left n v kind s k =
      let (out, t) = output_rows get y (suc v) kind s in
      elim (output_rows-progress v kind s) [
        | inl e ↦ omega (
          arith,
          ap length (output_rows-left (suc v) kind s),
          length-append (output_rows get y (suc v) kind s).0
              (rows_left kind (output_rows get y (suc v) kind s).1),
          ap length e,
        )
        | inr l ↦ omega arith
      ]

  -- Once the rows are fetched, as many calls as there are rows left give all of them, each once and in
  -- the order of the response, if an output vector has a place.
  pub calls-rows_left :
      (n v : ℕ) (kind : DiscoveryKind) (s : LokiDiscoveryGlobalState)
      → s.fetched ≡ true
      → length (rows_left kind s) ≤ n
      → calls n (suc v) kind s ≡ some (ok (rows_left kind s))
  calls-rows_left zero v kind s h k =
      unfold calls in ap (λ r. some (ok r)) (sym (none_left (rows_left kind s) k))
  calls-rows_left (suc n) v kind s h k =
      let t = (output_rows get y (suc v) kind s).1 in
      calls_fetched n (suc v) kind s h
      ∙ ap (with_rows (output_rows get y (suc v) kind s).0) (
          calls-rows_left n v kind t (output_rows-fetched (suc v) kind s ∙ h)
            (fewer_left n v kind s k))
      ∙ ap (λ r. some (ok r)) (output_rows-left (suc v) kind s)
