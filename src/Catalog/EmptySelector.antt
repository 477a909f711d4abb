-- ===== src/Catalog/EmptySelector.antt =====
-- The test for an empty selector in the scans of src/loki/catalog.cpp and src/loki/loki_scan.cpp.
use duckdb_loki.Base.{◌≡◌, refl, true, false, List, [], ◌∷◌, ◌++◌, arith, Bytes}
use duckdb_loki.Base.Find.{split_first}
use duckdb_loki.Logql.{
  LineFilter, build_selector_query, split_selector, trim, append_matchers, is_valid_label_name,
  LabelMatcher, matcher_to_string,
}
use duckdb_loki.Scan.Init.{has_empty_selector}

-- With no matcher the query starts with an empty selector.
pub has_empty_selector_bare :
    (fs : List LineFilter) → has_empty_selector (build_selector_query [] [] fs) ≡ true
unfolding has_empty_selector build_selector_query split_selector trim append_matchers split_first
has_empty_selector_bare fs = refl

-- The label's first character stands behind the brace, whatever follows the label.
label_first :
    (label a b c : Bytes)
    → is_valid_label_name label ≡ true
    → has_empty_selector (b'{' ∷ (((label ++ a) ++ b) ++ c)) ≡ false
unfolding has_empty_selector is_valid_label_name
label_first [] a b c h = cc
label_first (x ∷ s) a b c h = ground arith

pub has_empty_selector_pushed :
    (m : LabelMatcher) (ms : List LabelMatcher) (fs : List LineFilter)
    → is_valid_label_name m.label ≡ true
    → has_empty_selector (build_selector_query [] (m ∷ ms) fs) ≡ false
unfolding build_selector_query split_selector trim append_matchers split_first matcher_to_string
has_empty_selector_pushed m ms fs h = label_first m.label _ _ _ h
