-- ===== src/Logql/Selector.antt =====
-- `BuildSelectorQuery` of src/loki/logql.cpp with a base selector: where the matchers go, and when the
-- stream selector stays empty.
use mathlib.Core.List.{reverse-append, reverse-reverse}
use mathlib.Core.Option
use duckdb_loki.Base.{
  true, Bool-cases, inl, inr, ◌==◌, ℕ, ◌≡◌, refl, ap, Bool, false, Option, none, some, List, [],
  ◌∷◌, ◌++◌, arith, if◌then◌else◌, Bytes, append_assoc, drop_while, is_empty, reverse, sym, ◌∙◌,
}
use duckdb_loki.Base.Find.{Lacks, split_first, split_last-append}
use duckdb_loki.Logql.{
  LabelMatcher, LineFilter, is_space, trim, split_selector, append_matchers, append_line_filters,
  build_selector_query,
}

split_selector_braces :
    (inner rest : Bytes)
    → Lacks b'}' rest
    → split_selector (b'{' ∷ (inner ++ b'}' ∷ rest)) ≡ (inner, rest)
unfolding split_selector split_first
split_selector_braces inner rest h = ground (arith, split_last-append b'}' inner rest h)

abbrev pub pipeline_text : Bytes → Bytes
pipeline_text rest = if is_empty (trim rest) then [] else b' ' ∷ trim rest

-- A base selector that starts with `{` and holds a `}` gets the matchers before its last `}`, and its
-- pipeline, the text behind that `}`, stands between the selector and the line filters.
pub build_selector_query-base :
    (base inner rest : Bytes) (matchers : List LabelMatcher) (line_filters : List LineFilter)
    → trim base ≡ b'{' ∷ (inner ++ b'}' ∷ rest)
    → Lacks b'}' rest
    → build_selector_query base matchers line_filters
      ≡ b'{'
        ∷ (trim inner
            ++ (append_matchers (is_empty (trim inner)) matchers
                ++ (b'}' ∷ (pipeline_text rest ++ append_line_filters line_filters))))
unfolding build_selector_query
build_selector_query-base base inner rest ms fs e h = rw (e, split_selector_braces inner rest h)

-- Where a reader of LogQL stands: outside the quotes, between double quotes, behind a backslash there, or between
-- backquotes.
pub data Quoting : Type 0 where
  outside in_double escaped in_raw : Quoting

abbrev pub next_quoting : Quoting → ℕ → Quoting
next_quoting outside c = if c == b'"' then in_double else if c == b'`' then in_raw else outside
next_quoting in_double c = if c == b'"' then outside else if c == b'\\' then escaped else in_double
next_quoting escaped c = in_double
next_quoting in_raw c = if c == b'`' then outside else in_raw

-- A brace closes the selector outside the quotes only.
abbrev pub closes : Quoting → ℕ → Bool
closes outside c = c == b'}'
closes in_double c = false
closes escaped c = false
closes in_raw c = false

-- The text up to the brace that closes the selector.
unfoldable pub read_selector : Quoting → Bytes → Option Bytes
read_selector q [] = none
read_selector q (c ∷ s) =
    let more = read_selector (next_quoting q c) s in
    if closes q c then some [] else Option.map (λ p. c ∷ p) more

-- What a LogQL reader takes for the stream selector, without its closing brace.
abbrev pub stream_selector : Bytes → Option Bytes
stream_selector query = read_selector outside query

closes_brace : (q : Quoting) (c : ℕ) → closes q c ≡ true → closes q b'}' ≡ true
closes_brace outside c h = refl
closes_brace in_double c h = cc
closes_brace escaped c h = cc
closes_brace in_raw c h = cc

map-some {ℓ κ} :
    {A : Type ℓ} {B : Type κ} (f : A → B) (o : Option A) (b : B)
    → Option.map f o ≡ some b
    → (a : A) × (o ≡ some a) × (f a ≡ b)
map-some f none b h = cc
map-some f (some a) b h = (a, refl, cc)

-- The selector is read again, whatever stands behind its brace.
read_selector-again :
    (q : Quoting) (s p t : Bytes)
    → read_selector q s ≡ some p
    → read_selector q (p ++ b'}' ∷ t) ≡ some p
unfolding read_selector
read_selector-again q [] p t h = cc
read_selector-again q (c ∷ s) p t h = elim (Bool-cases (closes q c)) [
  | inl close ↦
      let h' : some [] ≡ some p = rw close at h in
      let e : [] ≡ p = cc in rw (← e) (rw (closes_brace q c close) refl)
  | inr open_still ↦
      let (p', e, same) =
        map-some (λ p. c ∷ p) (read_selector (next_quoting q c) s) p (rw open_still at h) in
      let again = read_selector-again (next_quoting q c) s p' t e in
      rw (← same) (rw (open_still, again) refl)
]

-- A character that is neither a quote nor a brace is read alone.
read_selector-tail :
    (c : ℕ) (s p : Bytes)
    → closes outside c ≡ false
    → next_quoting outside c ≡ outside
    → read_selector outside (c ∷ s) ≡ some (c ∷ p)
    → read_selector outside s ≡ some p
unfolding read_selector
read_selector-tail c s p plain stays h =
    let (p', e, same) =
      map-some (λ p. c ∷ p) (read_selector outside s) (c ∷ p) (rw (plain, stays) at h) in
    let tail : p' ≡ p = cc in e ∙ ap some tail

-- The spaces in front of the selector's first matcher are no part of a quoted text.
read_selector-drop_while :
    (s t : Bytes)
    → read_selector outside (s ++ b'}' ∷ t) ≡ some s
    → read_selector outside (drop_while is_space s ++ b'}' ∷ t) ≡ some (drop_while is_space s)
unfolding read_selector
read_selector-drop_while [] t h = h
read_selector-drop_while (c ∷ s) t h = elim (Bool-cases (is_space c)) [
  | inl space ↦
      let plain : closes outside c ≡ false = ground arith in
      let stays : next_quoting outside c ≡ outside = ground arith in
      rw space (read_selector-drop_while s t (read_selector-tail c (s ++ b'}' ∷ t) s plain stays h))
  | inr other ↦ rw other h
]

is_empty-middle : (s t : Bytes) (c : ℕ) → is_empty (s ++ c ∷ t) ≡ false
is_empty-middle [] t c = refl
is_empty-middle (d ∷ s) t c = refl

drop_while-middle :
    (p : ℕ → Bool) (s t : Bytes) (c : ℕ)
    → p c ≡ false
    → drop_while p (s ++ c ∷ t) ≡ drop_while p s ++ c ∷ t
drop_while-middle p [] t c h = rw h
drop_while-middle p (d ∷ s) t c h = ground (arith, drop_while-middle p s t c h)

trim-middle :
    (s t : Bytes)
    → trim (s ++ b'}' ∷ t)
      ≡ drop_while is_space s ++ b'}' ∷ reverse (drop_while is_space (reverse t))
unfolding trim
trim-middle s t =
    rw
      (
        drop_while-middle is_space s t b'}' refl,
        reverse-append (drop_while is_space s) (b'}' ∷ t),
        reverse-append (b'}' ∷ []) t,
        append_assoc (reverse t) (b'}' ∷ []) (reverse (drop_while is_space s)),
        drop_while-middle is_space (reverse t) (reverse (drop_while is_space s)) b'}' refl,
        reverse-append (drop_while is_space (reverse t)) (b'}' ∷ reverse (drop_while is_space s)),
        reverse-append (b'}' ∷ []) (reverse (drop_while is_space s)),
        reverse-reverse (drop_while is_space s),
      )
      (append_assoc (drop_while is_space s) (b'}' ∷ []) (reverse (drop_while is_space (reverse t))))

-- The text in front of a pipeline's last brace, without the spaces before that brace.
abbrev pub trim_end : Bytes → Bytes
trim_end s = reverse (drop_while is_space (reverse s))

-- A base selector whose pipeline holds a `}` is not refined: the matchers are put into the pipeline, before its last
-- `}`, behind the brace that closes the stream selector, and a LogQL reader takes for the stream selector of the
-- query the one that the base selector has, but for leading spaces, whatever the matchers are. A brace in a quoted
-- text closes no selector.
pub build_selector_query_unrefined :
    (base inner middle rest : Bytes) (matchers : List LabelMatcher) (line_filters : List LineFilter)
    → trim base ≡ b'{' ∷ (inner ++ b'}' ∷ (middle ++ b'}' ∷ rest))
    → stream_selector (trim base) ≡ some (b'{' ∷ inner)
    → Lacks b'}' rest
    → (build_selector_query base matchers line_filters
        ≡ b'{'
          ∷ (drop_while is_space inner
              ++ b'}'
                ∷ (trim_end middle
                    ++ (append_matchers false matchers
                        ++ b'}' ∷ (pipeline_text rest ++ append_line_filters line_filters)))))
      × (stream_selector (build_selector_query base matchers line_filters)
          ≡ some (b'{' ∷ drop_while is_space inner))
build_selector_query_unrefined base inner middle rest ms fs e selected hr =
    let shape = e ∙ ap (λ t. b'{' ∷ t) (sym (append_assoc inner (b'}' ∷ middle) (b'}' ∷ rest))) in
    let behind =
      append_matchers false ms ++ b'}' ∷ (pipeline_text rest ++ append_line_filters fs) in
    let query = build_selector_query-base base (inner ++ b'}' ∷ middle) rest ms fs shape hr in
    let text : build_selector_query base ms fs
        ≡ b'{' ∷ (drop_while is_space inner ++ b'}' ∷ (trim_end middle ++ behind)) =
      rw
        (
          query,
          trim-middle inner middle,
          is_empty-middle (drop_while is_space inner) (trim_end middle) b'}',
        )
        (ap (λ t. b'{' ∷ t)
          (append_assoc (drop_while is_space inner) (b'}' ∷ trim_end middle) behind)) in
    let again =
      read_selector-again outside (trim base) (b'{' ∷ inner) (trim_end middle ++ behind) selected in
    let bare =
      read_selector-drop_while inner (trim_end middle ++ behind)
        (read_selector-tail b'{' _ inner refl refl again) in
    (text, rw text (unfold read_selector in rw bare refl))
