-- ===== src/Compress/Rewrite.antt =====
-- src/proxy-compress.ts: the headers of a response that is compressed or cached. The object of headers is
-- a map in the order of its keys, and a number among them is natural.
use dsh_full_remote.Prelude.{
  ℕ, Bool, false, not, ◌&&◌, ◌||◌, Option, none, some, List, [], ◌∷◌, ◌++◌, ◌==◌, leb, all, any,
  length, get_or, is_some, take, drop, if◌then◌else◌,
}
use dsh_full_remote.Prelude.Text.{Text, codes, text_eq, split, trim, to_lower, starts_with}
use dsh_full_remote.Prelude.StrMap.{get, set}
use dsh_full_remote.Net.Headers.{HeaderValue, one, many, number, absent, Headers}
use dsh_full_remote.Net.Hosts.{decimal}
use dsh_full_remote.Compress.Negotiate.{ContentEncoding, br, gzip}
use dsh_full_remote.Compress.Body.{GzipDecisionInput, should_gzip_response}

-- `headerKey`
unfoldable pub header_key : Text → Headers → Option Text
header_key lower [] = none
header_key lower ((key, value) ∷ headers) =
    if text_eq (to_lower key) lower then some key else header_key lower headers

abbrev pub value_at : Option Text → Headers → HeaderValue
value_at none headers = absent
value_at (some key) headers = get_or (get key headers) absent

-- `readHeader`
unfoldable pub read_header : Text → Headers → HeaderValue
unfolding header_key
read_header name headers = value_at (header_key (to_lower name) headers) headers

-- The loop of `deleteHeader`.
unfoldable pub delete_key : Text → Headers → Headers
delete_key lower [] = []
delete_key lower ((key, value) ∷ headers) =
    if text_eq (to_lower key) lower
    then delete_key lower headers
    else (key, value) ∷ delete_key lower headers

-- `deleteHeader`
unfoldable pub delete_header : Text → Headers → Headers
unfolding delete_key
delete_header name headers = delete_key (to_lower name) headers

-- The rows of a value, where what is missing is the empty text.
abbrev pub rows_of : HeaderValue → List Text
rows_of absent = [] ∷ []
rows_of (one text) = text ∷ []
rows_of (number n) = decimal n ∷ []
rows_of (many rows) = rows

-- The parts of a row that are not empty.
abbrev pub trimmed : List Text → List Text
trimmed [] = []
trimmed (part ∷ parts) =
    let rest = trimmed parts in if text_eq (trim part) [] then rest else trim part ∷ rest

abbrev pub row_parts : List Text → List Text
row_parts [] = []
row_parts (row ∷ rows) = trimmed (split b',' row) ++ row_parts rows

-- `parts` of `mergeAcceptEncodingVary`.
unfoldable pub vary_parts : Headers → List Text
vary_parts [] = []
vary_parts ((key, value) ∷ headers) =
    let rest = vary_parts headers in
    if text_eq (to_lower key) (codes "vary") then row_parts (rows_of value) ++ rest else rest

abbrev pub has_part : Text → List Text → Bool
has_part part seen = any (λ p. text_eq (to_lower p) (to_lower part)) seen

-- `unique`: a part stays if none before it is the same but for case.
unfoldable pub unique_parts : List Text → List Text → List Text
unique_parts seen [] = []
unique_parts seen (part ∷ parts) =
    let rest = unique_parts (part ∷ seen) parts in if has_part part seen then rest else part ∷ rest

-- `unique` once `Accept-Encoding` is among it.
unfoldable pub with_accept_encoding : List Text → List Text
with_accept_encoding unique =
    if any (λ p. text_eq (to_lower p) (codes "accept-encoding")) unique
    then unique
    else unique ++ codes "Accept-Encoding" ∷ []

-- `unique.join(', ')`
unfoldable pub join_parts : List Text → Text
join_parts [] = []
join_parts (part ∷ []) = part
join_parts (part ∷ next ∷ parts) = part ++ codes ", " ++ join_parts (next ∷ parts)

abbrev pub vary_value : List Text → Text
vary_value parts = if any (text_eq (codes "*")) parts then codes "*" else join_parts parts

-- `mergeAcceptEncodingVary`
unfoldable pub merge_accept_encoding_vary : Headers → Headers
unfolding header_key vary_parts unique_parts with_accept_encoding join_parts delete_header
merge_accept_encoding_vary headers =
    set (get_or (header_key (codes "vary") headers) (codes "vary"))
      (one (vary_value (with_accept_encoding (unique_parts [] (vary_parts headers)))))
      (delete_header (codes "vary") headers)

abbrev pub coding_name : ContentEncoding → Text
coding_name br = codes "br"
coding_name gzip = codes "gzip"

-- A strong entity tag becomes a weak one.
unfoldable pub weaken_etag : Headers → Headers
unfolding header_key
weaken_etag headers = elim (header_key (codes "etag") headers) [
  | none ↦ headers
  | some key ↦ elim (get key headers) [
    | none ↦ headers
    | some (one etag) ↦
        if starts_with (codes "\"") etag
        then set key (one (codes "W/" ++ etag)) headers
        else headers
    | some _ ↦ headers
  ]
]

unfoldable pub delete_digests : Headers → Headers
unfolding delete_header
delete_digests headers =
    delete_header (codes "content-digest")
      (delete_header (codes "digest") (delete_header (codes "content-md5") headers))

-- `applyContentEncodingResponseHeaders`
unfoldable pub apply_content_encoding_response_headers : ContentEncoding → Headers → Headers
unfolding delete_header delete_digests weaken_etag merge_accept_encoding_vary
apply_content_encoding_response_headers encoding headers = merge_accept_encoding_vary (
    weaken_etag (
      delete_digests (
        set (codes "content-encoding") (one (coding_name encoding)) (
          delete_header (codes "content-encoding")
            (delete_header (codes "content-length") headers)))))

-- `applyGzipResponseHeaders`
unfoldable pub apply_gzip_response_headers : Headers → Headers
unfolding apply_content_encoding_response_headers
apply_gzip_response_headers headers = apply_content_encoding_response_headers gzip headers

-- What `gzipDecisionFromUpstream` reads of the request.
pub record UpstreamRequest : Type 0 where
  pub method : Option Text
  pub accept_encoding : List Text
  pub cache_control : HeaderValue
  pub upgrade : HeaderValue

-- The input that `gzipDecisionFromUpstream` makes of a request and a response.
unfoldable pub decision_input : UpstreamRequest → Option ℕ → Headers → Bool → GzipDecisionInput
unfolding read_header
decision_input req status headers enabled = record {
  compress_enabled = enabled;
  method = req.method;
  status = status;
  accept_encoding = req.accept_encoding;
  content_type = read_header (codes "content-type") headers;
  content_encoding = read_header (codes "content-encoding") headers;
  content_length = read_header (codes "content-length") headers;
  request_cache_control = req.cache_control;
  response_cache_control = read_header (codes "cache-control") headers;
  upgrade = req.upgrade;
}

-- `gzipDecisionFromUpstream`
unfoldable pub gzip_decision_from_upstream : UpstreamRequest → Option ℕ → Headers → Bool → Bool
unfolding decision_input should_gzip_response
gzip_decision_from_upstream req status headers enabled =
    should_gzip_response (decision_input req status headers enabled)

abbrev pub is_letter_or_digit : ℕ → Bool
is_letter_or_digit c =
    (leb b'0' c && leb c b'9') || (leb b'A' c && leb c b'Z') || (leb b'a' c && leb c b'z')

-- `-[A-Za-z0-9_-]{8}\.[A-Za-z0-9]+$` at the start of a text.
abbrev pub hash_here : Text → Bool
hash_here [] = false
hash_here (c ∷ s) =
    c == b'-'
    && length (take 8 s) == 8
    && all (λ x. is_letter_or_digit x || x == b'_' || x == b'-') (take 8 s)
    && elim (drop 8 s) [
      | [] ↦ false
      | dot ∷ extension ↦
          dot == b'.' && not (text_eq extension []) && all is_letter_or_digit extension
    ]

-- `-[A-Za-z0-9_-]{8}\.[A-Za-z0-9]+$` somewhere in a text.
abbrev pub hash_in : Text → Bool
hash_in [] = false
hash_in (c ∷ s) = hash_here (c ∷ s) || hash_in s

-- The segments of a path behind `/assets/`, of which none is empty and the last one has a hash behind
-- its first character.
abbrev pub are_hashed_segments : List Text → Bool
are_hashed_segments [] = false
are_hashed_segments ([] ∷ segments) = false
are_hashed_segments ((c ∷ s) ∷ []) = hash_in s
are_hashed_segments ((c ∷ s) ∷ next ∷ segments) = are_hashed_segments (next ∷ segments)

-- `isHashedStaticAssetPath`
unfoldable pub is_hashed_static_asset_path : Text → Bool
is_hashed_static_asset_path pathname =
    starts_with (codes "/assets/") pathname && are_hashed_segments (split b'/' (drop 8 pathname))

-- `hasCacheControl`
unfoldable pub has_cache_control : Headers → Bool
unfolding header_key
has_cache_control headers = is_some (header_key (codes "cache-control") headers)

-- `maybeSetHashedAssetCacheControl`
unfoldable pub maybe_set_hashed_asset_cache_control : Headers → Text → ℕ → Bool → Headers
unfolding is_hashed_static_asset_path has_cache_control
maybe_set_hashed_asset_cache_control headers pathname status enabled =
    if not enabled || not (status == 200)
    then headers
    else if not (is_hashed_static_asset_path pathname)
    then headers
    else if has_cache_control headers
    then headers
    else set (codes "cache-control") (one (codes "public, max-age=31536000, immutable")) headers
