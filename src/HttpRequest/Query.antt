-- ===== src/HttpRequest/Query.antt =====
-- `BuildQueryString` of src/loki/http_request.cpp against a reader of query strings, and the path that
-- holds a label's name.
use duckdb_loki.Base.{
  ℕ, ==_iff, Bool-cases, inl, inr, ◌≡◌, refl, sym, ap, ◌∙◌, true, false, Option, none, some, List,
  [], ◌∷◌, ◌++◌, arith, Bytes, All, All-append, ◌==◌, if◌then◌else◌, append_assoc, append-nil,
  is_empty,
}
use duckdb_loki.Base.Find.{Lacks, split_first, split_first-append}
use duckdb_loki.Types.{QueryRangeRequest}
use duckdb_loki.HttpRequest.{is_unreserved, url_encode, append_params, build_query_string}
use duckdb_loki.HttpRequest.UrlEncode.{
  IsByte, is_url_safe, url_decode, url_decode-url_encode, url_encode-safe,
}

-- The first part of a text, up to a separator, and the parts behind it.
pub split_parts : ℕ → Bytes → Bytes × List Bytes
split_parts d [] = ([], [])
split_parts d (c ∷ s) =
    let (part, parts) = split_parts d s in if c == d then ([], part ∷ parts) else (c ∷ part, parts)

abbrev pub read_param : Bytes → Option (Bytes × Bytes)
read_param text = elim (split_first b'=' text) [
  | none ↦ none
  | some (key, value) ↦ some (url_decode key, url_decode value)
]

pub read_params : List Bytes → Option (List (Bytes × Bytes))
read_params [] = some []
read_params (text ∷ texts) = elim (read_param text) [
  | none ↦ none
  | some param ↦ elim (read_params texts) [ none ↦ none | some params ↦ some (param ∷ params) ]
]

-- The parameters of a query string, decoded; an empty string has none.
pub read_query_string : Bytes → Option (List (Bytes × Bytes))
unfolding read_params split_parts
read_query_string [] = some []
read_query_string (c ∷ s) =
    let (part, parts) = split_parts b'&' (c ∷ s) in read_params (part ∷ parts)

abbrev param_text : Bytes × Bytes → Bytes
param_text (k, v) = url_encode k ++ b'=' ∷ url_encode v

abbrev params_text : List (Bytes × Bytes) → Bytes
params_text [] = []
params_text (p ∷ params) = b'&' ∷ (param_text p ++ params_text params)

abbrev pub AreBytes : List (Bytes × Bytes) → Type 0
AreBytes = All (λ (k, v). All IsByte k × All IsByte v)

append-cons_eq : (s t : Bytes) (d : ℕ) → is_empty (s ++ d ∷ t) ≡ false
append-cons_eq [] t d = refl
append-cons_eq (c ∷ s) t d = refl

append_params-params_text :
    (c : ℕ) (out : Bytes) (params : List (Bytes × Bytes))
    → append_params (c ∷ out) params ≡ c ∷ (out ++ params_text params)
unfolding append_params
append_params-params_text c out [] = ap (λ t. c ∷ t) (sym (append-nil out))
append_params-params_text c out ((k, v) ∷ params) =
    append_params-params_text c ((out ++ b'&' ∷ []) ++ param_text (k, v)) params
    ∙ ap (λ t. c ∷ t)
        (append_assoc (out ++ b'&' ∷ []) (param_text (k, v)) (params_text params)
          ∙ append_assoc out (b'&' ∷ []) (param_text (k, v) ++ params_text params))

split_parts-append :
    (d : ℕ) (s t : Bytes)
    → Lacks d s
    → split_parts d (s ++ d ∷ t) ≡ (s, (split_parts d t).0 ∷ (split_parts d t).1)
unfolding split_parts
split_parts-append d [] t h = ground arith
split_parts-append d (c ∷ s) t (hc, h) = ground (arith, split_parts-append d s t h)

split_parts-Lacks : (d : ℕ) (s : Bytes) → Lacks d s → split_parts d s ≡ (s, [])
unfolding split_parts
split_parts-Lacks d [] h = refl
split_parts-Lacks d (c ∷ s) (hc, h) = ground (arith, split_parts-Lacks d s h)

ne_of_safe : (d c : ℕ) → is_url_safe d ≡ false → is_url_safe c ≡ true → (c == d) ≡ false
ne_of_safe d c hd hc = elim (Bool-cases (c == d)) [
  | inl e ↦ cc (ap is_url_safe ((==_iff c d).0 e))
  | inr e ↦ e
]

safe-Lacks :
    (d : ℕ) (s : Bytes) → is_url_safe d ≡ false → All (λ c. is_url_safe c ≡ true) s → Lacks d s
safe-Lacks d [] hd h = tt
safe-Lacks d (c ∷ s) hd (hc, h) = (ne_of_safe d c hd hc, safe-Lacks d s hd h)

param_text-Lacks : (p : Bytes × Bytes) → All IsByte p.0 → All IsByte p.1 → Lacks b'&' (param_text p)
unfolding is_unreserved
param_text-Lacks (k, v) hk hv =
    All-append _ (url_encode k) (b'=' ∷ url_encode v)
      (safe-Lacks b'&' _ refl (url_encode-safe k hk))
      (refl, safe-Lacks b'&' _ refl (url_encode-safe v hv))

read_param-param_text :
    (p : Bytes × Bytes) → All IsByte p.0 → All IsByte p.1 → read_param (param_text p) ≡ some p
unfolding is_unreserved
read_param-param_text (k, v) hk hv = ground (
  arith,
  split_first-append b'=' (url_encode k) (url_encode v)
      (safe-Lacks b'=' _ refl (url_encode-safe k hk)),
  url_decode-url_encode k hk,
  url_decode-url_encode v hv,
)

read_parts :
    (p : Bytes × Bytes) (params : List (Bytes × Bytes))
    → AreBytes (p ∷ params)
    → read_params (
        (split_parts b'&' (param_text p ++ params_text params)).0
        ∷ (split_parts b'&' (param_text p ++ params_text params)).1)
      ≡ some (p ∷ params)
unfolding read_params
read_parts p [] ((hk, hv), _) =
    rw (append-nil (param_text p), split_parts-Lacks b'&' (param_text p) (param_text-Lacks p hk hv))
      (ground (arith, read_param-param_text p hk hv))
read_parts p (q ∷ params) ((hk, hv), h) =
    rw
      (split_parts-append b'&' (param_text p) (param_text q ++ params_text params)
        (param_text-Lacks p hk hv))
      (ground (arith, read_param-param_text p hk hv, read_parts q params h))

append_params_nonempty :
    (out : Bytes) (params : List (Bytes × Bytes))
    → is_empty out ≡ false
    → append_params out params ≡ out ++ params_text params
append_params_nonempty [] params h = cc
append_params_nonempty (c ∷ out) params h = append_params-params_text c out params

read_query_string_nonempty :
    (s : Bytes)
    → is_empty s ≡ false
    → read_query_string s ≡ read_params ((split_parts b'&' s).0 ∷ (split_parts b'&' s).1)
unfolding read_query_string
read_query_string_nonempty [] h = cc
read_query_string_nonempty (c ∷ s) h = refl

append_params-first :
    (k v : Bytes) (params : List (Bytes × Bytes))
    → append_params [] ((k, v) ∷ params) ≡ param_text (k, v) ++ params_text params
unfolding append_params
append_params-first k v params =
    append_params_nonempty (param_text (k, v)) params
      (append-cons_eq (url_encode k) (url_encode v) b'=')

params_text-nonempty : (k v t : Bytes) → is_empty (param_text (k, v) ++ t) ≡ false
params_text-nonempty k v t =
    rw (append_assoc (url_encode k) (b'=' ∷ url_encode v) t)
      (append-cons_eq (url_encode k) (url_encode v ++ t) b'=')

read_append_params :
    (params : List (Bytes × Bytes))
    → AreBytes params
    → read_query_string (append_params [] params) ≡ some params
read_append_params [] h = unfold read_query_string append_params in refl
read_append_params ((k, v) ∷ params) h =
    ap read_query_string (append_params-first k v params)
    ∙ read_query_string_nonempty _ (params_text-nonempty k v (params_text params))
    ∙ read_parts (k, v) params h

-- A query string is read back as the parameters of its request, in order, whatever bytes they hold.
pub read_query_string-build_query_string :
    (request : QueryRangeRequest)
    → AreBytes request.params
    → read_query_string (build_query_string request) ≡ some request.params
unfolding build_query_string
read_query_string-build_query_string request h = read_append_params request.params h
