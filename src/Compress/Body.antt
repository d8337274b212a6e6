-- ===== src/Compress/Body.antt =====
-- src/proxy-compress.ts: whether a body may be compressed.
use dsh_full_remote.Prelude.{
  ℕ, ◌-◌, Bool, true, false, not, ◌&&◌, ◌||◌, Option, none, some, List, [], ◌∷◌, ◌++◌, ◌==◌, ltb,
  leb, any, get_or, if◌then◌else◌,
}
use dsh_full_remote.Prelude.Text.{Text, codes, text_eq, split, trim, to_lower}
use dsh_full_remote.Prelude.StrMap.{get}
use dsh_full_remote.Net.Headers.{HeaderValue, one, many, number, absent, member}
use dsh_full_remote.Net.Hosts.{decimal}
use dsh_full_remote.Cidr.Numbers.{floor_number}
use dsh_full_remote.Compress.Negotiate.{join_rows, encoding_preferences, preferred}

-- `MIN_GZIP_BODY_BYTES`
abbrev pub min_gzip_body_bytes : ℕ
min_gzip_body_bytes = 1024

-- `COMPRESSIBLE_MEDIA`
unfoldable pub compressible_media : List Text
compressible_media =
    codes "text/html"
    ∷ codes "text/css"
    ∷ codes "text/plain"
    ∷ codes "text/javascript"
    ∷ codes "text/xml"
    ∷ codes "application/javascript"
    ∷ codes "application/json"
    ∷ codes "application/xml"
    ∷ codes "application/manifest+json"
    ∷ codes "application/xhtml+xml"
    ∷ codes "image/svg+xml"
    ∷ []

abbrev pub unless_empty : Text → Option Text
unless_empty [] = none
unless_empty (c ∷ s) = some (c ∷ s)

-- `firstHeader`
unfoldable pub first_header : HeaderValue → Option Text
first_header absent = none
first_header (one text) = unless_empty text
first_header (number n) = unless_empty (decimal n)
first_header (many []) = none
first_header (many (text ∷ rows)) = unless_empty text

-- `text.split(c, 1)[0]`
abbrev pub before : ℕ → Text → Text
before c text = elim (split c text) [ [] ↦ [] | part ∷ parts ↦ part ]

-- `mediaType`
unfoldable pub media_type : HeaderValue → Text
unfolding first_header
media_type content_type = elim (first_header content_type) [
  | none ↦ []
  | some raw ↦ to_lower (trim (before b';' raw))
]

-- `text.endsWith(suffix)`
unfoldable pub ends_with : Text → Text → Bool
ends_with suffix [] = text_eq [] suffix
ends_with suffix (c ∷ s) = text_eq (c ∷ s) suffix || ends_with suffix s

-- `isCompressibleMediaType`
unfoldable pub is_compressible_media_type : HeaderValue → Bool
unfolding media_type ends_with compressible_media
is_compressible_media_type content_type =
    let type = media_type content_type in
    if text_eq type [] || text_eq type (codes "text/event-stream")
    then false
    else member type compressible_media
      || ends_with (codes "+json") type
      || ends_with (codes "+xml") type

-- `declaredLength`, where a length that is not an integer is taken down to one.
unfoldable pub declared_length : HeaderValue → Option ℕ
unfolding first_header
declared_length content_length = elim (first_header content_length) [
  | none ↦ none
  | some raw ↦ floor_number raw
]

-- `Array.isArray(value) ? value.join(',') : firstHeader(value)`
unfoldable pub joined_or_first : HeaderValue → Option Text
unfolding first_header join_rows
joined_or_first (many rows) = some (join_rows rows)
joined_or_first value = first_header value

abbrev pub names_coding : Text → Bool
names_coding part =
    let token = to_lower (trim part) in
    not (text_eq token []) && not (text_eq token (codes "identity"))

-- `alreadyEncoded`
unfoldable pub already_encoded : HeaderValue → Bool
unfolding joined_or_first
already_encoded content_encoding = elim (joined_or_first content_encoding) [
  | none ↦ false
  | some raw ↦ any names_coding (split b',' raw)
]

abbrev pub is_no_transform : Text → Bool
is_no_transform directive = text_eq (to_lower (trim (before b'=' directive))) (codes "no-transform")

-- The loop of `hasNoTransform`: the directive that is being read is kept in place of its start.
unfoldable pub scan_directives : Bool → Bool → Text → Text → Bool
scan_directives quoted escaped directive [] = not escaped && is_no_transform directive
scan_directives quoted escaped directive (c ∷ s) =
    if escaped
    then scan_directives quoted false (directive ++ c ∷ []) s
    else if quoted && c == b'\\'
    then scan_directives quoted true (directive ++ c ∷ []) s
    else if c == b'"'
    then scan_directives (not quoted) false (directive ++ c ∷ []) s
    else if c == b',' && not quoted
    then is_no_transform directive || scan_directives quoted false [] s
    else scan_directives quoted false (directive ++ c ∷ []) s

-- `hasNoTransform`
unfoldable pub has_no_transform : HeaderValue → Bool
unfolding scan_directives join_rows
has_no_transform absent = scan_directives false false [] []
has_no_transform (one text) = scan_directives false false [] text
has_no_transform (number n) = scan_directives false false [] (decimal n)
has_no_transform (many rows) = scan_directives false false [] (join_rows rows)

-- `CompressionDecisionInput`; a missing method or status is none.
pub record GzipDecisionInput : Type 0 where
  pub compress_enabled : Bool
  pub method : Option Text
  pub status : Option ℕ
  pub accept_encoding : List Text
  pub content_type : HeaderValue
  pub content_encoding : HeaderValue
  pub content_length : HeaderValue
  pub request_cache_control : HeaderValue
  pub response_cache_control : HeaderValue
  pub upgrade : HeaderValue

abbrev pub upper_char : ℕ → ℕ
upper_char c = if leb b'a' c && leb c b'z' then c - 32 else c

-- `method.toUpperCase()` of an ASCII text.
unfoldable pub to_upper : Text → Text
to_upper [] = []
to_upper (c ∷ s) = upper_char c ∷ to_upper s

abbrev pub has_upgrade : HeaderValue → Bool
has_upgrade upgrade = elim (joined_or_first upgrade) [
  | none ↦ false
  | some text ↦ not (text_eq (trim text) [])
]

abbrev pub is_small : Option ℕ → Bool
is_small none = false
is_small (some length) = ltb length min_gzip_body_bytes

-- `shouldCompressResponse`
unfoldable pub should_compress_response : GzipDecisionInput → Bool
unfolding to_upper joined_or_first has_no_transform already_encoded is_compressible_media_type
    declared_length
should_compress_response input =
    let method = to_upper (get_or input.method (codes "GET")) in
    let status = get_or input.status 200 in
    if not input.compress_enabled
    then false
    else if text_eq method (codes "HEAD") || text_eq method (codes "CONNECT")
    then false
    else if ltb status 200 || status == 204 || status == 205 || status == 206 || status == 304
    then false
    else if has_upgrade input.upgrade
    then false
    else if has_no_transform input.request_cache_control
        || has_no_transform input.response_cache_control
    then false
    else if already_encoded input.content_encoding
    then false
    else if not (is_compressible_media_type input.content_type)
    then false
    else not (is_small (declared_length input.content_length))

-- `shouldGzipResponse`
unfoldable pub should_gzip_response : GzipDecisionInput → Bool
unfolding should_compress_response encoding_preferences
should_gzip_response input =
    if not (should_compress_response input)
    then false
    else let preferences = encoding_preferences input.accept_encoding in
      let gzip_q = get_or (preferred preferences (codes "gzip")) 0 in
      ltb 0 gzip_q && leb (get_or (get (codes "identity") preferences) 0) gzip_q
