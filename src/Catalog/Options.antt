-- ===== src/Catalog/Options.antt =====
-- The options of ATTACH in src/loki/catalog.cpp: lists of texts, the lifetime of discovered labels, the
-- labels that are promoted, and the cap of the table `series`.
use duckdb_loki.Base.{
  ℕ, ◌*◌, not, Option, none, some, List, [], ◌∷◌, ◌++◌, Bytes, codes, is_empty, if◌then◌else◌,
  Exception, binder_exception, invalid_argument, out_of_range, Result, ok, throw, ◌>>=◌, ◌>>◌,
  throw_if, or_throw,
}
use duckdb_loki.Base.Int.{ℤ, pos, ltb_ℤ, leb_ℤ, pos_part}
use duckdb_loki.TimeBounds.{interval_to_nanos, try_multiply_nanos, parse_duration_to_nanos}
use duckdb_loki.Logql.{is_valid_label_name}
use duckdb_loki.Scan.ColumnNames.{is_reserved_column_name, has_seen}
use duckdb_loki.Catalog.{DuckdbCatalog}

abbrev pub invalid_ttl : Bytes → Bytes → Exception
invalid_ttl key text = binder_exception (
    codes "ATTACH (TYPE loki): invalid `"
    ++ (key
        ++ (codes "` value '"
            ++ (text
                ++ codes
                    "' — pass a non-negative INTERVAL, a number of seconds, or a duration string like '30s', '5m', '1h' (0 disables time-based refresh)"))))

abbrev pub invalid_attach_label : Bytes → Exception
invalid_attach_label label = binder_exception (
    codes "ATTACH (TYPE loki): invalid label name '"
    ++ (label ++ codes "' in the `labels` option; label names must match [a-zA-Z_][a-zA-Z0-9_]*"))

abbrev pub reserved_attach_label : Bytes → Exception
reserved_attach_label label = binder_exception (
    codes "ATTACH (TYPE loki): label '"
    ++ (label
        ++ (codes
              "' cannot be promoted — that name is already one of the fixed `logs` columns (timestamp, line, labels, structured_metadata); read it from the labels MAP instead, e.g. labels['"
            ++ (label ++ codes "']"))))

abbrev pub duplicate_attach_label : Bytes → Exception
duplicate_attach_label label =
    binder_exception
      (codes "ATTACH (TYPE loki): duplicate label '" ++ (label ++ codes "' in the `labels` option"))

abbrev pub invalid_series_cap : Bytes → Exception
invalid_series_cap text = binder_exception (
    codes "ATTACH (TYPE loki): `series_max_rows` must be a positive integer, got '"
    ++ (text ++ codes "'"))

-- `catch (const std::exception &e)` around the three ways to read a lifetime.
unfoldable pub as_invalid_ttl : Bytes → Bytes → Result ℤ → Result ℤ
as_invalid_ttl key text (ok ns) = ok ns
as_invalid_ttl key text (throw e) = throw (invalid_ttl key text)

unfoldable pub ttl_of_interval : ℤ × ℤ × ℤ → Result ℤ
ttl_of_interval (months, days, micros) = do
  nanos ← interval_to_nanos months days micros
  throw_if (ltb_ℤ nanos (pos 0)) (invalid_argument (codes "negative"))
  ok nanos

unfoldable pub ttl_of_seconds : Result ℤ → Result ℤ
ttl_of_seconds value = do
  seconds ← value
  throw_if (ltb_ℤ seconds (pos 0)) (invalid_argument (codes "negative"))
  or_throw (try_multiply_nanos seconds (pos (1000 * 1000 * 1000)))
      (out_of_range (codes "too large"))

-- An INTERVAL, an integral number of seconds, or a text.
unfoldable pub ttl_of_parts : Option (ℤ × ℤ × ℤ) → Option (Result ℤ) → Bytes → Result ℤ
unfolding ttl_of_interval ttl_of_seconds
ttl_of_parts (some interval) integral text = ttl_of_interval interval
ttl_of_parts none (some seconds) text = ttl_of_seconds seconds
ttl_of_parts none none text = parse_duration_to_nanos text

module _ (api : DuckdbCatalog) where
  open api use {db}
  open db use {Value}

  -- The children that are not NULL.
  unfoldable pub texts_of : List Value → List Bytes
  texts_of [] = []
  texts_of (child ∷ children) =
      let rest = texts_of children in if db.is_null child then rest else db.to_string child ∷ rest

  -- The parts that are not empty once they are trimmed.
  unfoldable pub parts_of : List Bytes → List Bytes
  parts_of [] = []
  parts_of (part ∷ parts) =
      let rest = parts_of parts in if is_empty (api.trim part) then rest else api.trim part ∷ rest

  unfoldable pub string_list_of : Value → List Bytes
  unfolding texts_of parts_of
  string_list_of value = elim (api.list_children value) [
    | some children ↦ texts_of children
    | none ↦ parts_of (api.split (db.to_string value) b',')
  ]

  unfoldable pub strings_of_option : Option Value → List Bytes
  unfolding string_list_of
  strings_of_option none = []
  strings_of_option (some value) = if db.is_null value then [] else string_list_of value

  unfoldable pub parse_string_list_option : (Bytes → Option Value) → Bytes → List Bytes
  unfolding strings_of_option
  parse_string_list_option options key = strings_of_option (options key)

  unfoldable pub ttl_of : Value → Result ℤ
  unfolding ttl_of_parts
  ttl_of value = ttl_of_parts (db.interval_of value) (api.get_integral value) (db.to_string value)

  unfoldable pub ttl_of_option : Bytes → Option Value → Result ℤ
  unfolding ttl_of as_invalid_ttl
  ttl_of_option key none = ok (pos 0)
  ttl_of_option key (some value) =
      if db.is_null value
      then ok (pos 0)
      else as_invalid_ttl key (db.to_string value) (ttl_of value)

  unfoldable pub parse_ttl_option : (Bytes → Option Value) → Bytes → Result ℤ
  unfolding ttl_of_option
  parse_ttl_option options key = ttl_of_option key (options key)

  -- The loop over the labels that ATTACH names; `seen` holds those before.
  unfoldable pub check_attach_labels : List Bytes → List Bytes → Result (Unit {0})
  check_attach_labels seen [] = ok tt
  check_attach_labels seen (label ∷ labels) =
      throw_if (not (is_valid_label_name label)) (invalid_attach_label label)
      >> (throw_if (is_reserved_column_name api.ci_equals label) (reserved_attach_label label)
          >> (throw_if (has_seen api.ci_equals seen label) (duplicate_attach_label label)
              >> check_attach_labels (seen ++ label ∷ []) labels))

  -- The cap that an integral value names.
  unfoldable pub series_cap_of : Bytes → Option (Result ℤ) → Result ℕ
  series_cap_of text none = throw (invalid_series_cap text)
  series_cap_of text (some rows) = do
    n ← rows
    throw_if (leb_ℤ n (pos 0)) (invalid_series_cap text)
    ok (pos_part n)

  unfoldable pub series_cap_of_option : Option Value → Result ℕ
  unfolding series_cap_of
  series_cap_of_option none = ok 100000
  series_cap_of_option (some value) =
      if db.is_null value
      then ok 100000
      else series_cap_of (db.to_string value) (api.get_integral value)
