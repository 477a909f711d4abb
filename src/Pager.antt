-- ===== src/Pager.antt =====
-- src/loki/pager.cpp and src/include/loki/pager.hpp: `StreamPager`, which turns one scan into pages.
-- The object is a record; `NextRequest` and `Accept` return it changed, beside their result.
pub mod Key
pub mod Unique
pub mod SameEntry
pub mod Boundary
pub mod Rows
pub mod Progress
pub mod Total
use duckdb_loki.Base.{
  ℕ, ◌+◌, Bool, true, false, not, ◌&&◌, ◌||◌, Option, none, some, List, [], ◌∷◌, ◌++◌, Bytes, codes,
  str_eq, if◌then◌else◌, length, ltb,
}
use duckdb_loki.Base.Int.{ℤ, pos, ◌+ℤ◌, ◌-ℤ◌, leb_ℤ, ltb_ℤ, eq_ℤ, min_ℤ, max_ℤ, int_to_string}
use duckdb_loki.Types.{StringMap, StreamEntry, StreamChunk, LokiRow, QueryRangeRequest}
use duckdb_loki.HttpRequest.{build_query_range_request}

abbrev pub default_per_request_cap : ℤ
default_per_request_cap = pos 5000

pub record StreamPager : Type 0 where
  pub logql : Bytes
  pub start_ns : ℤ
  pub end_ns : ℤ
  pub backward : Bool
  pub user_limit : ℤ
  pub per_request_cap : ℤ
  pub cursor_ns : ℤ
  pub emitted : ℤ
  pub requested_this_page : ℤ
  pub done : Bool
  pub boundary_keys : List Bytes

unfoldable pub new_pager : Bytes → ℤ → ℤ → Bytes → ℤ → ℤ → StreamPager
new_pager logql start_ns end_ns direction user_limit per_request_cap =
    let backward = not (str_eq direction (codes "forward")) in
    record {
      logql = logql;
      start_ns = start_ns;
      end_ns = end_ns;
      backward = backward;
      user_limit = user_limit;
      per_request_cap = per_request_cap;
      cursor_ns = if backward then end_ns else start_ns;
      emitted = pos 0;
      requested_this_page = pos 0;
      done = false;
      boundary_keys = [];
    }

unfoldable pub append_labels : Bytes → StringMap → Bytes
append_labels key [] = key
append_labels key ((name, value) ∷ labels) =
    append_labels (key ++ (0x1e ∷ (name ++ (0x1d ∷ value)))) labels

unfoldable pub entry_key : ℤ → Bytes → StringMap → Bytes
unfolding append_labels
entry_key ts_ns line labels = append_labels (int_to_string ts_ns ++ (0x1f ∷ line)) labels

-- `boundary_keys_.count(key)`
unfoldable pub has_key : List Bytes → Bytes → Bool
has_key [] key = false
has_key (k ∷ keys) key = str_eq k key || has_key keys key

-- `boundary_keys_.insert(key)`
unfoldable pub insert_key : List Bytes → Bytes → List Bytes
unfolding has_key
insert_key keys key = if has_key keys key then keys else key ∷ keys

unfoldable pub next_request : StreamPager → QueryRangeRequest × StreamPager
next_request p =
    let remaining = p.user_limit -ℤ p.emitted in
    let want = remaining +ℤ pos (length p.boundary_keys) in
    let requested = min_ℤ want p.per_request_cap in
    let start = if p.backward then p.start_ns else p.cursor_ns in
    let end = if p.backward then p.cursor_ns else p.end_ns in
    (
      build_query_range_request p.logql start end requested
          (if p.backward then codes "backward" else codes "forward"),
      record p { requested_this_page = requested },
    )

-- The variables of the loop of `Accept`; `extreme` is `none` until `have_extreme` is set.
pub record Scan : Type 0 where
  pub rows : List LokiRow
  pub page_count : ℕ
  pub extreme : Option ℤ
  pub emitted : ℤ

abbrev pub row_of : StringMap → StreamEntry → LokiRow
row_of labels entry = record {
  ts_ns = entry.ts_ns;
  line = entry.line;
  labels = labels;
  structured_metadata = entry.structured_metadata;
}

unfoldable pub next_extreme : Bool → Option ℤ → ℤ → ℤ
next_extreme backward none ts = ts
next_extreme backward (some extreme) ts = if backward then min_ℤ extreme ts else max_ℤ extreme ts

unfoldable pub accept_entry : StreamPager → StringMap → Scan → StreamEntry → Scan
unfolding next_extreme
accept_entry p labels s entry =
    let counted = record s {
      page_count = s.page_count + 1;
      extreme = some (next_extreme p.backward s.extreme entry.ts_ns);
    } in
    if leb_ℤ p.user_limit s.emitted
    then counted
    else if has_key p.boundary_keys (entry_key entry.ts_ns entry.line labels)
    then counted
    else record counted { rows = s.rows ++ row_of labels entry ∷ []; emitted = s.emitted +ℤ pos 1 }

unfoldable pub accept_entries : StreamPager → StringMap → Scan → List StreamEntry → Scan
accept_entries p labels s [] = s
accept_entries p labels s (entry ∷ entries) =
    accept_entries p labels (accept_entry p labels s entry) entries

unfoldable pub accept_chunks : StreamPager → Scan → List StreamChunk → Scan
accept_chunks p s [] = s
accept_chunks p s (chunk ∷ chunks) =
    accept_chunks p (accept_entries p chunk.labels s chunk.values) chunks

-- The second loop of `Accept`: the keys of the entries at the boundary.
unfoldable pub boundary_entries : ℤ → StringMap → List Bytes → List StreamEntry → List Bytes
boundary_entries extreme labels keys [] = keys
boundary_entries extreme labels keys (entry ∷ entries) =
    boundary_entries extreme labels
      (if eq_ℤ entry.ts_ns extreme
        then insert_key keys (entry_key entry.ts_ns entry.line labels)
        else keys)
      entries

unfoldable pub boundary_chunks : ℤ → List Bytes → List StreamChunk → List Bytes
boundary_chunks extreme keys [] = keys
boundary_chunks extreme keys (chunk ∷ chunks) =
    boundary_chunks extreme (boundary_entries extreme chunk.labels keys chunk.values) chunks

abbrev pub extreme_ns : Scan → ℤ
extreme_ns s = elim s.extreme [ none ↦ pos 0 | some e ↦ e ]

abbrev pub next_cursor : StreamPager → Scan → ℤ
next_cursor p s = if p.backward then extreme_ns s +ℤ pos 1 else extreme_ns s

-- What `Accept` does behind its first loop.
unfoldable pub advance : StreamPager → Scan → List StreamChunk → StreamPager
advance p s page =
    let q = record p { emitted = s.emitted } in
    let next = next_cursor p s in
    if ltb_ℤ (pos s.page_count) p.requested_this_page || leb_ℤ p.user_limit s.emitted
    then record q { done = true }
    else if (if p.backward then ltb_ℤ next p.cursor_ns else ltb_ℤ p.cursor_ns next)
    then record q { cursor_ns = next; boundary_keys = boundary_chunks (extreme_ns s) [] page }
    else record q { done = true }

abbrev pub scan_start : StreamPager → Scan
scan_start p = record { rows = []; page_count = 0; extreme = none; emitted = p.emitted }

unfoldable pub accept : StreamPager → List StreamChunk → List LokiRow × StreamPager
unfolding accept_entry accept_entries accept_chunks advance
accept p page = let s = accept_chunks p (scan_start p) page in (s.rows, advance p s page)
