-- ===== src/Relay/Prepare.antt =====
-- src/proxy.ts: what `proxyRequest` makes of the headers of a response of the backend.
use dsh_full_remote.Prelude.{
  ℕ, Bool, false, ◌&&◌, Option, none, some, List, [], ◌∷◌, ltb, get_or, if◌then◌else◌,
}
use dsh_full_remote.Prelude.Text.{Text, codes, text_eq}
use dsh_full_remote.Prelude.StrMap.{get, set}
use dsh_full_remote.Net.Headers.{
  HeaderValue, one, many, number, absent, Headers, is_absent, sanitize_response_headers,
}
use dsh_full_remote.Net.Hosts.{decimal}
use dsh_full_remote.Compress.Negotiate.{ContentEncoding, select_content_encoding}
use dsh_full_remote.Compress.Body.{should_compress_response}
use dsh_full_remote.Compress.Rewrite.{
  merge_accept_encoding_vary, apply_content_encoding_response_headers,
  maybe_set_hashed_asset_cache_control,
}
use dsh_full_remote.Cache.Directives.{static_response_ttl_ms}
use dsh_full_remote.Cache.Admission.{is_cacheable_static_response}

-- What is read of the request: its headers and the path of its URL.
pub record Inbound : Type 0 where
  pub method : Option Text
  pub headers : Headers
  pub pathname : Text

-- The settings that the preparation reads.
pub record Policy : Type 0 where
  pub compress_responses : Bool
  pub cache_hashed_assets : Bool

-- `safeStatic`, `freshnessAtHeaders`, `responseHeaders` and `encoding`.
pub record Prepared : Type 0 where
  pub safe_static : Bool
  pub freshness : ℕ
  pub headers : Headers
  pub encoding : Option ContentEncoding

-- `headers[name]`
abbrev pub header_of : Text → Headers → HeaderValue
header_of name headers = get_or (get name headers) absent

abbrev pub rows_of_header : HeaderValue → List Text
rows_of_header absent = []
rows_of_header (one text) = text ∷ []
rows_of_header (number n) = decimal n ∷ []
rows_of_header (many rows) = rows

unfoldable pub public_policy : Text
public_policy = codes "public, max-age=31536000, immutable"

unfoldable pub private_policy : Text
private_policy = codes "private, max-age=31536000, immutable"

-- `headers['cache-control'] === 'public, max-age=31536000, immutable'`
abbrev pub is_public_policy : HeaderValue → Bool
is_public_policy (one text) = text_eq text public_policy
is_public_policy _ = false

-- The generated cache policy is made private.
unfoldable pub made_private : Bool → Headers → Headers
made_private safe_static headers =
    if safe_static && is_public_policy (header_of (codes "cache-control") headers)
    then set (codes "cache-control") (one private_policy) headers
    else headers

-- `negotiable`
unfoldable pub is_negotiable : Policy → Inbound → ℕ → Headers → Bool
is_negotiable policy req status headers =
    is_absent (header_of (codes "range") req.headers)
    && is_absent (header_of (codes "content-range") headers)
    && should_compress_response (record {
      compress_enabled = policy.compress_responses;
      method = req.method;
      status = some status;
      accept_encoding = [];
      content_type = header_of (codes "content-type") headers;
      content_encoding = header_of (codes "content-encoding") headers;
      content_length = header_of (codes "content-length") headers;
      request_cache_control = header_of (codes "cache-control") req.headers;
      response_cache_control = header_of (codes "cache-control") headers;
      upgrade = header_of (codes "upgrade") req.headers;
    })

-- The headers with the encoding, where one is chosen.
abbrev pub encoded_with : Option ContentEncoding → Headers → Headers
encoded_with none headers = headers
encoded_with (some encoding) headers = apply_content_encoding_response_headers encoding headers

-- `Vary`, the chosen encoding and its headers.
unfoldable pub negotiate : Policy → Inbound → ℕ → Headers → Headers × Option ContentEncoding
negotiate policy req status headers =
    let encoding =
      select_content_encoding (rows_of_header (header_of (codes "accept-encoding") req.headers)) in
    if is_negotiable policy req status headers
    then (encoded_with encoding (merge_accept_encoding_vary headers), encoding)
    else (headers, none)

module _ (date_parse : Text → Option ℕ) (to_utc_string : ℕ → Text) where
  -- The headers before the negotiation; the clock is read twice.
  unfoldable pub with_policy : Policy → Inbound → Bool → Headers → (status checked_at : ℕ) → Headers
  with_policy policy req safe_static incoming status checked_at =
      let headers = sanitize_response_headers incoming in
      made_private safe_static (
        if safe_static
          && is_absent (header_of (codes "expires") incoming)
          && ltb 0 (static_response_ttl_ms date_parse to_utc_string incoming checked_at)
        then maybe_set_hashed_asset_cache_control headers req.pathname status
            policy.cache_hashed_assets
        else headers)

  -- The callback of the response, up to `reserveCacheCapture`.
  unfoldable pub prepare :
      Policy → Inbound → (keyed : Bool) → Headers → (status received_at checked_at : ℕ) → Prepared
  prepare policy req keyed incoming status received_at checked_at =
      let safe_static = keyed && is_cacheable_static_response incoming status in
      let negotiated =
        negotiate policy req status
          (with_policy policy req safe_static incoming status checked_at) in
      record {
        safe_static = safe_static;
        freshness = static_response_ttl_ms date_parse to_utc_string incoming received_at;
        headers = negotiated.0;
        encoding = negotiated.1;
      }
