-- ===== src/Relay/Start.antt =====
-- src/proxy.ts: the beginning of `proxyRequest`: the declared length, the cache, and else an exchange.
use dsh_full_remote.Prelude.{
  ℕ, Bool, ◌&&◌, Option, none, some, List, [], leb, ltb, get_or, if◌then◌else◌,
}
use dsh_full_remote.Prelude.Text.{Text}
use dsh_full_remote.Net.Headers.{Headers}
use dsh_full_remote.Cache.Store.{Cache, cache_get}
use dsh_full_remote.Cache.Admission.{static_cache_request_key}
use dsh_full_remote.Relay.Prompt.{
  command_sniff_limit_bytes, is_command_execute_path, is_prompt_carrier_path,
  inbound_method_has_body,
}
use dsh_full_remote.Relay.Cached.{CachedReply, serve_cached}
use dsh_full_remote.Relay.Exchange.{ExchangeLimits, ExchangeKind}

-- `Number(req.headers['content-length'] ?? 0)`: a natural number, or one that is refused.
pub data Length : Type 0 where
  bytes : ℕ → Length
  no_length : Length

pub record Outbound : Type 0 where
  pub method : Option Text
  pub url : Text
  pub pathname : Text
  pub headers : Headers
  pub content_length : Length

-- How `proxyRequest` begins: it refuses, answers out of the cache, or opens an exchange of which a response may
-- be kept under the key.
pub data ProxyStart : Type 0 where
  refused : ProxyStart
  cached : CachedReply → ProxyStart
  exchange : ExchangeKind → Option Text → ProxyStart

-- The guard on the declared length.
unfoldable pub admitted_length : ExchangeLimits → Length → Option ℕ
admitted_length limits no_length = none
admitted_length limits (bytes n) = if ltb limits.max_request_bytes n then none else some n

abbrev pub kind_of : Outbound → ℕ → ExchangeKind
kind_of req content_length = record {
  is_command = is_command_execute_path req.pathname;
  is_sniffed = is_prompt_carrier_path req.pathname && leb content_length command_sniff_limit_bytes;
  has_body = inbound_method_has_body req.method;
}

module _ (query_names : Text → List Text) (date_parse number_of : Text → Option ℕ)
    (cache_hashed_assets : Bool) (limits : ExchangeLimits) where
  -- `cacheKey`
  unfoldable pub key_for : Outbound → Text → Option Text
  key_for req session_id =
      if cache_hashed_assets
      then static_cache_request_key query_names (get_or req.method []) req.url req.headers
          session_id
      else none

  abbrev pub found_or_open :
      Outbound → ℕ → Option Text → ℕ → Cache Headers → Cache Headers × ProxyStart
  found_or_open req content_length none now cache =
      (cache, exchange (kind_of req content_length) none)
  found_or_open req content_length (some key) now cache = elim (cache_get cache now key).1 [
    | none ↦ ((cache_get cache now key).0, exchange (kind_of req content_length) (some key))
    | some response ↦ (
      (cache_get cache now key).0,
      cached (serve_cached date_parse number_of req.headers response now),
    )
  ]

  -- `proxyRequest`, up to the request to the backend.
  unfoldable pub proxy_request : Cache Headers → Outbound → Text → ℕ → Cache Headers × ProxyStart
  proxy_request cache req session_id now = elim (admitted_length limits req.content_length) [
    | none ↦ (cache, refused)
    | some content_length ↦ found_or_open req content_length (key_for req session_id) now cache
  ]
