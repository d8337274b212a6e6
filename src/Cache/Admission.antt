-- ===== src/Cache/Admission.antt =====
-- src/static-cache.ts: which requests have a key in the cache, and which responses may enter it. The names
-- that `URLSearchParams` reads in a query are the platform's; a lone surrogate, which no header or URL of
-- a request has, is not escaped in a key.
use dsh_full_remote.Prelude.{
  ℕ, zero, suc, ◌+◌, ◌/◌, ◌%◌, Bool, true, false, not, ◌&&◌, ◌||◌, Option, none, some, List, [],
  ◌∷◌, ◌++◌, all, any, ◌==◌, leb, ltb, if◌then◌else◌,
}
use dsh_full_remote.Prelude.Text.{
  Text, codes, text_eq, trim, to_lower, split, starts_with, is_space,
}
use dsh_full_remote.Net.Headers.{Headers, member}
use dsh_full_remote.Compress.Negotiate.{is_digit}
use dsh_full_remote.Compress.Body.{before}
use dsh_full_remote.Cache.Directives.{
  header_values, has_header, directives, forbids_caching, Directive,
}

-- `[A-Za-z0-9_]`
abbrev pub is_word : ℕ → Bool
is_word c = is_digit c || (leb b'A' c && leb c b'Z') || (leb b'a' c && leb c b'z') || c == b'_'

-- `[A-Za-z0-9_-]`
abbrev pub is_hash : ℕ → Bool
is_hash c = is_word c || c == b'-'

-- `[A-Za-z0-9_.-]`
abbrev pub is_name : ℕ → Bool
is_name c = is_hash c || c == b'.'

unfoldable pub static_extensions : List Text
static_extensions =
    codes "js"
    ∷ codes "mjs"
    ∷ codes "css"
    ∷ codes "svg"
    ∷ codes "woff"
    ∷ codes "woff2"
    ∷ codes "ttf"
    ∷ codes "otf"
    ∷ codes "eot"
    ∷ codes "png"
    ∷ codes "jpg"
    ∷ codes "jpeg"
    ∷ codes "webp"
    ∷ codes "ico"
    ∷ codes "gif"
    ∷ codes "avif"
    ∷ codes "bmp"
    ∷ codes "wasm"
    ∷ []

-- `[A-Za-z0-9_-]{n,}\.(?:…)$`
abbrev pub hash_tail : ℕ → Text → Bool
hash_tail n [] = false
hash_tail zero (c ∷ s) =
    (c == b'.' && member s static_extensions) || (is_hash c && hash_tail zero s)
hash_tail (suc n) (c ∷ s) = is_hash c && hash_tail n s

-- `[A-Za-z0-9_.-]*[.-][A-Za-z0-9_-]{8,}\.(?:…)$`
abbrev pub file_tail : Text → Bool
file_tail [] = false
file_tail (c ∷ s) = ((c == b'.' || c == b'-') && hash_tail 8 s) || (is_name c && file_tail s)

abbrev pub is_directory : Text → Bool
is_directory [] = false
is_directory (c ∷ s) = is_hash c && all is_name s

abbrev pub is_hashed_file : Text → Bool
is_hashed_file [] = false
is_hashed_file (c ∷ s) = is_word c && file_tail s

abbrev pub are_static_segments : List Text → Bool
are_static_segments [] = false
are_static_segments (file ∷ []) = is_hashed_file file
are_static_segments (directory ∷ next ∷ rest) =
    is_directory directory && are_static_segments (next ∷ rest)

abbrev pub without_prefix : Text → Text → Option Text
without_prefix [] s = some s
without_prefix (p ∷ prefix) [] = none
without_prefix (p ∷ prefix) (c ∷ s) = if p == c then without_prefix prefix s else none

-- `STATIC_PATH.test(pathname)`
unfoldable pub is_static_path : Text → Bool
is_static_path pathname = elim (without_prefix (codes "/assets/") pathname) [
  | none ↦ false
  | some rest ↦ are_static_segments (split b'/' rest)
]

-- What follows the first such code unit of a text, where there is one.
abbrev pub after : ℕ → Text → Option Text
after c [] = none
after c (x ∷ s) = if x == c then some s else after c s

abbrev pub contains : Text → Text → Bool
contains part [] = text_eq part []
contains part (c ∷ s) = starts_with part (c ∷ s) || contains part s

-- `SENSITIVE_QUERY_NAMES`
unfoldable pub sensitive_query_names : List Text
sensitive_query_names =
    codes "q"
    ∷ codes "query"
    ∷ codes "auth"
    ∷ codes "authorization"
    ∷ codes "password"
    ∷ codes "secret"
    ∷ codes "session"
    ∷ codes "sessionid"
    ∷ codes "apikey"
    ∷ codes "accesskey"
    ∷ codes "code"
    ∷ []

abbrev pub without_marks : Text → Text
without_marks [] = []
without_marks (c ∷ s) =
    if c == b'-' || c == b'_' || c == b'.' then without_marks s else c ∷ without_marks s

-- The loop over the query's names.
unfoldable pub is_sensitive_name : Text → Bool
is_sensitive_name name =
    let normalized = without_marks (to_lower name) in
    contains (codes "token") normalized
    || contains (codes "invite") normalized
    || contains (codes "search") normalized
    || member normalized sensitive_query_names

-- The loop over the request's header names.
unfoldable pub refuses_header : Text → Bool
refuses_header name =
    text_eq name (codes "range")
    || text_eq name (codes "authorization")
    || text_eq name (codes "proxy-authorization")
    || text_eq name (codes "upgrade")
    || text_eq name (codes "transfer-encoding")
    || (starts_with (codes "if-") name
        && not (text_eq name (codes "if-none-match"))
        && not (text_eq name (codes "if-modified-since")))

-- `/^0+$/.test(value)`
abbrev pub is_zeros : Text → Bool
is_zeros [] = false
is_zeros (c ∷ s) = all (λ d. d == b'0') (c ∷ s)

unfoldable pub has_body_length : Headers → Bool
has_body_length headers =
    has_header headers (codes "content-length")
    && elim (header_values headers (codes "content-length")) [
      | length ∷ [] ↦ not (is_zeros length)
      | _ ↦ true
    ]

-- A directive of this name, in a header that can be read.
abbrev pub names_directive : Text → Option (List Directive) → Bool
names_directive name none = false
names_directive name (some parsed) = any (λ d. text_eq d.name name) parsed

abbrev pub hex_digit : ℕ → ℕ
hex_digit d = if ltb d 10 then 48 + d else 87 + d

-- A code unit as `JSON.stringify` writes it inside of a string.
unfoldable pub escape : ℕ → Text
escape c =
    if c == 34 || c == 92
    then 92 ∷ c ∷ []
    else if leb 32 c
    then c ∷ []
    else if c == 8
    then 92 ∷ b'b' ∷ []
    else if c == 9
    then 92 ∷ b't' ∷ []
    else if c == 10
    then 92 ∷ b'n' ∷ []
    else if c == 12
    then 92 ∷ b'f' ∷ []
    else if c == 13
    then 92 ∷ b'r' ∷ []
    else 92 ∷ b'u' ∷ b'0' ∷ b'0' ∷ hex_digit (c / 16) ∷ hex_digit (c % 16) ∷ []

unfoldable pub escaped_onto : Text → Text → Text
escaped_onto [] rest = 34 ∷ rest
escaped_onto (c ∷ s) rest = escape c ++ escaped_onto s rest

-- A string in quotes, before the rest of the text.
abbrev pub quoted_onto : Text → Text → Text
quoted_onto s rest = 34 ∷ escaped_onto s rest

abbrev pub more_rows : List Text → Text
more_rows [] = b']' ∷ b']' ∷ []
more_rows (row ∷ rows) = b',' ∷ quoted_onto row (more_rows rows)

abbrev pub json_rows : List Text → Text
json_rows [] = b']' ∷ b']' ∷ []
json_rows (row ∷ rows) = quoted_onto row (more_rows rows)

-- `JSON.stringify([sessionId, req.url, headerValues(req.headers, 'accept-encoding')])`
unfoldable pub cache_key : Text → Text → List Text → Text
cache_key session_id url encodings =
    b'[' ∷ quoted_onto session_id (b',' ∷ quoted_onto url (b',' ∷ b'[' ∷ json_rows encodings))

module _ (query_names : Text → List Text) where
  abbrev pub has_sensitive_query : Text → Bool
  has_sensitive_query url = elim (after b'?' url) [
    | none ↦ false
    | some query ↦ any is_sensitive_name (query_names query)
  ]

  -- What `staticCacheRequestKey` asks of a request.
  unfoldable pub is_keyed : (method url : Text) → Headers → Text → Bool
  is_keyed method url headers session_id =
      text_eq method (codes "GET")
      && not (text_eq url [])
      && not (text_eq session_id [])
      && is_static_path (before b'?' url)
      && not (any (λ c. is_space c || c == b'#' || c == b'\\') url)
      && not (has_sensitive_query url)
      && not (any (λ e. refuses_header (to_lower e.0)) headers)
      && not (has_body_length headers)
      && not (forbids_caching headers false)
      && not (
          names_directive (codes "no-transform")
            (directives (header_values headers (codes "cache-control"))))
      && elim (directives (header_values headers (codes "pragma"))) [
        | none ↦ false
        | some parsed ↦ not (names_directive (codes "no-cache") (some parsed))
      ]

  -- `staticCacheRequestKey`; a missing method or URL is the empty text.
  unfoldable pub static_cache_request_key : (method url : Text) → Headers → Text → Option Text
  static_cache_request_key method url headers session_id =
      if is_keyed method url headers session_id
      then some (cache_key session_id url (header_values headers (codes "accept-encoding")))
      else none

-- `STATIC_MEDIA_TYPES`
unfoldable pub static_media_types : List Text
static_media_types =
    codes "text/css"
    ∷ codes "text/javascript"
    ∷ codes "application/javascript"
    ∷ codes "application/x-javascript"
    ∷ codes "image/svg+xml"
    ∷ codes "image/png"
    ∷ codes "image/jpeg"
    ∷ codes "image/webp"
    ∷ codes "image/x-icon"
    ∷ codes "image/vnd.microsoft.icon"
    ∷ codes "image/gif"
    ∷ codes "image/avif"
    ∷ codes "image/bmp"
    ∷ codes "font/woff"
    ∷ codes "font/woff2"
    ∷ codes "font/ttf"
    ∷ codes "font/otf"
    ∷ codes "application/font-woff"
    ∷ codes "application/x-font-woff"
    ∷ codes "application/x-font-ttf"
    ∷ codes "application/x-font-opentype"
    ∷ codes "application/vnd.ms-fontobject"
    ∷ codes "application/wasm"
    ∷ codes "application/octet-stream"
    ∷ []

-- A `Vary` value that names another header than `Accept-Encoding`.
abbrev pub varies_otherwise : Text → Bool
varies_otherwise value =
    any
      (λ part.
        not (text_eq (trim part) [])
        && not (text_eq (to_lower (trim part)) (codes "accept-encoding")))
      (split b',' value)

-- `isCacheableStaticResponse`
unfoldable pub is_cacheable_static_response : Headers → ℕ → Bool
is_cacheable_static_response headers status =
    status == 200
    && not (has_header headers (codes "set-cookie"))
    && not (forbids_caching headers true)
    && not (has_header headers (codes "content-range"))
    && not (any varies_otherwise (header_values headers (codes "vary")))
    && elim (header_values headers (codes "content-type")) [
      | type ∷ [] ↦ member (to_lower (trim (before b';' type))) static_media_types
      | _ ↦ false
    ]
