-- ===== src/Net/Forward.antt =====
-- src/proxy-headers.ts: `forwardHeaders`, the request's headers as they are sent to the backend.
use dsh_full_remote.Prelude.{Bool, false, Option, none, some, [], ◌++◌, get_or, if◌then◌else◌}
use dsh_full_remote.Prelude.Text.{Text, codes}
use dsh_full_remote.Prelude.StrMap.{get, set}
use dsh_full_remote.Net.Headers.{HeaderValue, one, absent, Headers, connection_tokens, copy_request}
use dsh_full_remote.Net.Remote.{Peer, Trust, request_is_https}

-- What `forwardHeaders` reads besides the headers: `remote` is the socket's address.
pub record Forwarding : Type 0 where
  pub backend_host : Text
  pub remote : Text
  pub tls : Bool
  pub trust_forwarded_proto : Bool
  pub forwarded_for : Option Text
  pub upstream_cookie : Option Text

-- `req.headers.host ?? ''`
unfoldable pub source_host : Headers → HeaderValue
source_host headers = elim (get (codes "host") headers) [
  | none ↦ one []
  | some absent ↦ one []
  | some value ↦ value
]

-- The request as `requestIsHttps` reads it, and its arguments.
unfoldable pub peer_of : Headers → Forwarding → Peer
peer_of headers f = record {
  direct = f.remote;
  cf_connecting_ip = get (codes "cf-connecting-ip") headers;
  x_forwarded_for = get (codes "x-forwarded-for") headers;
  x_forwarded_proto = get (codes "x-forwarded-proto") headers;
}

abbrev pub trust_of : Forwarding → Trust
trust_of f = record {
  tls = f.tls;
  forwarded_for = false;
  forwarded_proto = f.trust_forwarded_proto;
  cloudflare = false;
}

-- `proto`
unfoldable pub proto : Headers → Forwarding → Text
unfolding peer_of
proto headers f =
    if request_is_https (peer_of headers f) (trust_of f) then codes "https" else codes "http"

-- `if (options.upstreamCookie !== undefined) headers.cookie = options.upstreamCookie`
unfoldable pub set_cookie : Option Text → Headers → Headers
set_cookie none headers = headers
set_cookie (some cookie) headers = set (codes "cookie") (one cookie) headers

-- The assignments of `forwardHeaders`, the first one innermost.
unfoldable pub rewrite_headers :
    Forwarding → (source : HeaderValue) (proto : Text) → Headers → Headers
rewrite_headers f source proto copied = set (codes "x-dsh-reverse-proxy") (one (codes "1")) (
    set (codes "x-forwarded-proto") (one proto) (
      set (codes "x-forwarded-host") source (
        set (codes "x-forwarded-for") (one (get_or f.forwarded_for f.remote)) (
          set (codes "sec-fetch-site") (one (codes "same-origin")) (
            set (codes "origin") (one (codes "http://" ++ f.backend_host))
              (set (codes "host") (one f.backend_host) copied))))))

-- `forwardHeaders`
unfoldable pub forward_headers : Headers → Forwarding → Headers
unfolding copy_request set_cookie rewrite_headers source_host proto
forward_headers headers f = set_cookie f.upstream_cookie (
    rewrite_headers f (source_host headers) (proto headers f)
      (copy_request (connection_tokens headers) headers []))
