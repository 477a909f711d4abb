-- ===== src/Logql/Like.antt =====
-- `TryLikeToSubstring` of src/loki/logql.cpp against SQL's LIKE.
use mathlib.Core.Path.{subst}
use duckdb_loki.Base.{
  ℕ, ◌≡◌, ◌↔◌, refl, sym, ap, true, false, some, [], ◌∷◌, ◌++◌, arith, ◌==◌, if◌then◌else◌, Bytes,
  append-nil, ◌∙◌, ◌≢◌, length-append,
}
use duckdb_loki.Logql.{has_no_wildcard, split_back, like_middle, try_like_to_substring}

-- A text matches a LIKE pattern: `%` stands for any text, `_` for one character, and any other
-- character for itself.
abbrev pub Like : Bytes → Bytes → Type 0
Like [] text = text ≡ []
Like (c ∷ pattern) text =
    let any : Type 0 =
      (before : Bytes) × (after : Bytes) × (text ≡ before ++ after) × Like pattern after in
    let one : Type 0 = (d : ℕ) × (after : Bytes) × (text ≡ d ∷ after) × Like pattern after in
    let same : Type 0 = (after : Bytes) × (text ≡ c ∷ after) × Like pattern after in
    if c == b'%' then any else if c == b'_' then one else same

abbrev pub Contains : Bytes → Bytes → Type 0
Contains part text = (before : Bytes) × (after : Bytes) × (text ≡ before ++ (part ++ after))

split_back-append : (c : ℕ) (s : Bytes) → (split_back c s).0 ++ (split_back c s).1 ∷ [] ≡ c ∷ s
unfolding split_back
split_back-append c [] = refl
split_back-append c (d ∷ s) = ap (λ t. c ∷ t) (split_back-append d s)

literal_tests :
    (c : ℕ) (s : Bytes)
    → has_no_wildcard (c ∷ s) ≡ true
    → ((c == b'%') ≡ false) × ((c == b'_') ≡ false) × (has_no_wildcard s ≡ true)
unfolding has_no_wildcard
literal_tests c s h = ground arith

Like-tail :
    (part text : Bytes)
    → has_no_wildcard part ≡ true
    → Like (part ++ b'%' ∷ []) text
    → (after : Bytes) × (text ≡ part ++ after)
Like-tail [] text h (before, after, e, _) = (before ++ after, e)
Like-tail (c ∷ part) text h m =
    let (not_any, not_one, no_wildcard) = literal_tests c part h in
    let (after, e, m') = rw (not_any, not_one) at m in
    let (tail, e') = Like-tail part after no_wildcard m' in (tail, e ∙ ap (λ t. c ∷ t) e')

Like-of_tail :
    (part after : Bytes) → has_no_wildcard part ≡ true → Like (part ++ b'%' ∷ []) (part ++ after)
Like-of_tail [] after h = (after, [], sym (append-nil after), refl)
Like-of_tail (c ∷ part) after h =
    let (not_any, not_one, no_wildcard) = literal_tests c part h in
    rw (not_any, not_one) (part ++ after, refl, Like-of_tail part after no_wildcard)

-- `%part%`, where `part` has no wildcard, matches the texts that contain `part`.
Like-Contains :
    (part text : Bytes)
    → has_no_wildcard part ≡ true
    → Like (b'%' ∷ (part ++ b'%' ∷ [])) text ↔ Contains part text
Like-Contains part text h = (
  λ (before, rest, e, m).
      let (after, e') = Like-tail part rest h m in (before, after, e ∙ ap (λ t. before ++ t) e'),
  λ (before, after, e). (before, part ++ after, e, Like-of_tail part after h),
)

split_back_front : (c d : ℕ) (s part : Bytes) → (split_back c (d ∷ s)).0 ≡ part → part ≢ []
unfolding split_back
split_back_front c d s part h e = cc

like_middle-pattern :
    (front c : ℕ) (s part : Bytes)
    → like_middle front c s ≡ some part
    → (front ∷ c ∷ s ≡ b'%' ∷ (part ++ b'%' ∷ [])) × (has_no_wildcard part ≡ true) × (part ≢ [])
unfolding like_middle
like_middle-pattern front c [] part h = ground arith
like_middle-pattern front c (d ∷ s) part h =
    ground (arith, split_back-append c (d ∷ s), split_back_front c d s part)

-- A pattern that is translated to a substring matches exactly the lines that contain the substring.
pub try_like_to_substring-Contains :
    (pattern part text : Bytes)
    → try_like_to_substring pattern ≡ some part
    → Like pattern text ↔ Contains part text
unfolding try_like_to_substring
try_like_to_substring-Contains [] part text h = cc
try_like_to_substring-Contains (c ∷ []) part text h = cc
try_like_to_substring-Contains (c ∷ d ∷ s) part text h =
    let (e, no_wildcard, _) = like_middle-pattern c d s part h in
    subst (λ t. Like t text ↔ Contains part text) (sym e) (Like-Contains part text no_wildcard)

split_back-concat : (c d : ℕ) (s : Bytes) → split_back c (s ++ d ∷ []) ≡ (c ∷ s, d)
unfolding split_back
split_back-concat c d [] = refl
split_back-concat c d (e ∷ s) = rw (split_back-concat e d s)

-- Every substring pattern with no wildcard inside is translated.
pub try_like_to_substring_complete :
    (part : Bytes)
    → part ≢ []
    → has_no_wildcard part ≡ true
    → try_like_to_substring (b'%' ∷ (part ++ b'%' ∷ [])) ≡ some part
unfolding try_like_to_substring like_middle
try_like_to_substring_complete [] h k = absurd (h refl)
try_like_to_substring_complete (c ∷ part) h k =
    ground (arith, split_back-concat c b'%' part, length-append part (b'%' ∷ []))
