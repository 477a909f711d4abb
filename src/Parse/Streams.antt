-- ===== src/Parse/Streams.antt =====
-- The readers of src/loki/parse.cpp: when they throw, and that a bad entry never fails a page.
use duckdb_loki.Base.{
  Bool-cases, ◌≡◌, ◌↔◌, true, some, List, Bytes, codes, map, ok, Option-cases, inl, inr,
}
use duckdb_loki.Types.{StreamChunk}
use duckdb_loki.Parse.{Yyjson, is_streams, text, elements, stream_chunk, parse_streams_response}

module _ (y : Yyjson) where
  open y use {Val, read, obj_get, arr_items, get_str}

  -- The body is JSON, has `data`, and its `resultType` is the text `streams`.
  abbrev pub IsStreams : Bytes → Val → Type 0
  IsStreams json body =
      (root : Val) × (read json ≡ some root)
      × (obj_get root (codes "data") ≡ some body)
      × (is_streams (text y (obj_get body (codes "resultType"))) ≡ true)

  IsStreams-read :
      (json : Bytes) (body : Val)
      → IsStreams json body
      → parse_streams_response y json
        ≡ ok (map (stream_chunk y) (elements y (obj_get body (codes "result"))))
  unfolding parse_streams_response
  IsStreams-read json body (root, r, d, t) = rw (r, d, t)

  IsStreams-found :
      (json : Bytes) (chunks : List StreamChunk)
      → parse_streams_response y json ≡ ok chunks
      → (body : Val) × IsStreams json body
  unfolding parse_streams_response
  IsStreams-found json chunks h = elim (Option-cases (read json)) [
    | inl e ↦ cc (rw e at h)
    | inr (root, r) ↦ elim (Option-cases (obj_get root (codes "data"))) [
      | inl e ↦ cc (rw (r, e) at h)
      | inr (body, d) ↦
          elim (Bool-cases (is_streams (text y (obj_get body (codes "resultType"))))) [
            | inl t ↦ (body, (root, r, d, t))
            | inr t ↦ cc (rw (r, d, t) at h)
          ]
    ]
  ]

  -- A response is read exactly when it is JSON with a `data` member whose `resultType` is the text
  -- `streams`; no stream and no entry in it, whatever it holds, makes the reader throw.
  pub parse_streams_response_ok_iff :
      (json : Bytes)
      → ((chunks : List StreamChunk) × (parse_streams_response y json ≡ ok chunks))
        ↔ ((body : Val) × IsStreams json body)
  parse_streams_response_ok_iff json = (
    λ (chunks, h). IsStreams-found json chunks h,
    λ (body, h). (
      map (stream_chunk y) (elements y (obj_get body (codes "result"))),
      IsStreams-read json body h,
    ),
  )
