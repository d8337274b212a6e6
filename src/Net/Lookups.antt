-- ===== src/Net/Lookups.antt =====
-- Which headers reach the backend.
use dsh_full_remote.Prelude.{
  ◌≡◌, refl, true, false, Option, none, some, List, [], ◌∷◌, ◌++◌, arith, ◌∙◌, ap, ◌||◌, get_or,
  Option-cases, inl, inr, if◌then◌else◌,
}
use dsh_full_remote.Prelude.Text.{Text, codes, text_eq, text_eq_iff}
use dsh_full_remote.Prelude.StrMap.{get, set, Unique, get-set, get-set_self}
use dsh_full_remote.Net.Headers.{
  HeaderValue, one, many, number, absent, Headers, is_absent, member, blocked, copy_request,
  connection_tokens, hop_by_hop, spoofable_forwarding, internal_headers,
}
use dsh_full_remote.Net.Remote.{request_is_https}
use dsh_full_remote.Net.Forward.{
  Forwarding, source_host, peer_of, trust_of, proto, set_cookie, rewrite_headers, forward_headers,
}
use dsh_full_remote.Net.Copies.{present, IsLower, get-copy_request, get-copy_blocked}

-- The names that `forwardHeaders` writes itself.
abbrev pub rewritten : List Text
rewritten =
    codes "host"
    ∷ codes "origin"
    ∷ codes "sec-fetch-site"
    ∷ codes "x-forwarded-for"
    ∷ codes "x-forwarded-host"
    ∷ codes "x-forwarded-proto"
    ∷ codes "x-dsh-reverse-proxy"
    ∷ codes "cookie"
    ∷ []

-- Writing one of these names leaves the others.
skip :
    (k n : Text) (v : HeaderValue) (m : Headers)
    → member k rewritten ≡ true
    → member n rewritten ≡ false
    → get n (set k v m) ≡ get n m
skip k n v m h w = ground (arith, get-set k n v m, text_eq_iff k n)

get-rewrite_headers :
    (f : Forwarding) (source : HeaderValue) (p n : Text) (m : Headers)
    → member n rewritten ≡ false
    → get n (rewrite_headers f source p m) ≡ get n m
unfolding rewrite_headers member text_eq
get-rewrite_headers f source p n m w =
    skip (codes "x-dsh-reverse-proxy") n _ _ refl w
    ∙ skip (codes "x-forwarded-proto") n _ _ refl w
    ∙ skip (codes "x-forwarded-host") n _ _ refl w
    ∙ skip (codes "x-forwarded-for") n _ _ refl w
    ∙ skip (codes "sec-fetch-site") n _ _ refl w
    ∙ skip (codes "origin") n _ _ refl w
    ∙ skip (codes "host") n _ m refl w

get-set_cookie :
    (c : Option Text) (n : Text) (m : Headers)
    → text_eq (codes "cookie") n ≡ false
    → get n (set_cookie c m) ≡ get n m
unfolding set_cookie
get-set_cookie none n m h = refl
get-set_cookie (some c) n m h = ground (arith, get-set (codes "cookie") n (one c) m, h)

sent_cookie :
    (c : Option Text) (m : Headers)
    → get (codes "cookie") m ≡ none
    → get (codes "cookie") (set_cookie c m) ≡ elim c [ none ↦ none | some t ↦ some (one t) ]
unfolding set_cookie
sent_cookie none m h = h
sent_cookie (some t) m h = get-set_self (codes "cookie") (one t) m

not_cookie : (n : Text) → member n rewritten ≡ false → text_eq (codes "cookie") n ≡ false
unfolding member text_eq
not_cookie n w = ground (arith, text_eq_iff (codes "cookie") n)

blocked_cookie : (nominated : List Text) → blocked nominated (codes "cookie") ≡ true
unfolding blocked member internal_headers text_eq
blocked_cookie nominated = ground arith

-- The client's cookie does not reach the cookie the host's bridge sets.
copied_cookie :
    (f : Forwarding) (source : HeaderValue) (p : Text) (nominated : List Text) (headers : Headers)
    → get (codes "cookie") (rewrite_headers f source p (copy_request nominated headers [])) ≡ none
unfolding rewrite_headers text_eq get
copied_cookie f source p nominated headers =
    simp
      (get-set, get-copy_blocked nominated (codes "cookie") headers [] (blocked_cookie nominated))

-- The headers of a client that are never passed on.
abbrev pub withheld : List Text
withheld =
    codes "host"
    ∷ codes "connection"
    ∷ codes "keep-alive"
    ∷ codes "proxy-authenticate"
    ∷ codes "proxy-authorization"
    ∷ codes "te"
    ∷ codes "trailer"
    ∷ codes "trailers"
    ∷ codes "transfer-encoding"
    ∷ codes "upgrade"
    ∷ codes "forwarded"
    ∷ codes "x-forwarded-for"
    ∷ codes "x-forwarded-host"
    ∷ codes "x-forwarded-port"
    ∷ codes "x-forwarded-proto"
    ∷ codes "x-real-ip"
    ∷ codes "x-dsh-reverse-proxy"
    ∷ codes "cookie"
    ∷ codes "referer"
    ∷ codes "referrer"
    ∷ []

member-append : (n : Text) (l k : List Text) → member n (l ++ k) ≡ (member n l || member n k)
unfolding member
member-append n [] k = refl
member-append n (m ∷ l) k = ground (arith, member-append n l k)

withheld-append :
    withheld ≡ (codes "host" ∷ []) ++ (hop_by_hop ++ (spoofable_forwarding ++ internal_headers))
unfolding hop_by_hop spoofable_forwarding internal_headers
withheld-append = refl

member_one : (n m : Text) → member n (m ∷ []) ≡ text_eq n m
unfolding member
member_one n m = ground arith

blocked-withheld :
    (nominated : List Text) (n : Text)
    → blocked nominated n ≡ (member n withheld || member n nominated)
unfolding blocked
blocked-withheld nominated n =
    let host : member n (codes "host" ∷ []) ≡ text_eq n (codes "host") =
      member_one n (codes "host") in
    ground (
      arith,
      ap (member n) withheld-append,
      member-append n (codes "host" ∷ [])
          (hop_by_hop ++ (spoofable_forwarding ++ internal_headers)),
      member-append n hop_by_hop (spoofable_forwarding ++ internal_headers),
      member-append n spoofable_forwarding internal_headers,
      host,
    )

-- The client's host, or the empty text.
source_host-present :
    (headers : Headers)
    → source_host headers ≡ get_or (present (get (codes "host") headers)) (one [])
unfolding source_host is_absent
source_host-present headers = elim (Option-cases (get (codes "host") headers)) [
  | inl e ↦ ground (arith, e)
  | inr (absent, e) ↦ ground (arith, e)
  | inr (one t, e) ↦ ground (arith, e)
  | inr (many t, e) ↦ ground (arith, e)
  | inr (number t, e) ↦ ground (arith, e)
]

-- What is blocked and not written by `forwardHeaders` is not sent.
unsent :
    (headers : Headers) (f : Forwarding) (n : Text)
    → member n rewritten ≡ false
    → member n withheld ≡ true
    → get n (forward_headers headers f) ≡ none
unfolding forward_headers get
unsent headers f n w h =
    let nominated = connection_tokens headers in
    let copied = copy_request nominated headers [] in
    get-set_cookie f.upstream_cookie n
      (rewrite_headers f (source_host headers) (proto headers f) copied) (not_cookie n w)
    ∙ get-rewrite_headers f (source_host headers) (proto headers f) n copied w
    ∙ get-copy_blocked nominated n headers [] (ground (arith, blocked-withheld nominated n, h))

-- A client's header that `forwardHeaders` does not write itself reaches the backend, under its name
-- and with its value, unless it is absent, one that the `connection` header nominates, or one of
-- these: `host`, the nine hop-by-hop names, the seven forwarding headers, `cookie` and the two
-- referrers. The bag's names are distinct and in lower case.
pub get-forward_headers :
    (headers : Headers) (f : Forwarding) (n : Text)
    → Unique headers
    → IsLower headers
    → member n rewritten ≡ false
    → get n (forward_headers headers f) ≡ (
        if member n withheld || member n (connection_tokens headers)
        then none
        else present (get n headers))
unfolding forward_headers get
get-forward_headers headers f n u l w =
    let copied = copy_request (connection_tokens headers) headers [] in
    ground (
      arith,
      get-set_cookie f.upstream_cookie n
          (rewrite_headers f (source_host headers) (proto headers f) copied) (not_cookie n w),
      get-rewrite_headers f (source_host headers) (proto headers f) n copied w,
      get-copy_request (connection_tokens headers) n headers [] u l,
      blocked-withheld (connection_tokens headers) n,
    )

-- What the backend is told about the client, whatever the client sent: the host and the origin are
-- the backend's, the address is `forwardedFor` or the socket's, the protocol is what
-- `requestIsHttps` says of the same request, and the cookie is the one of the host's bridge, if any.
-- `x-forwarded-host` repeats the client's `Host`. The client's `forwarded`, `x-forwarded-port`,
-- `x-real-ip` and referrers are not sent.
pub forward_headers-rewritten :
    (headers : Headers) (f : Forwarding)
    → let sent = forward_headers headers f in
      (get (codes "host") sent ≡ some (one f.backend_host))
      × (get (codes "origin") sent ≡ some (one (codes "http://" ++ f.backend_host)))
      × (get (codes "sec-fetch-site") sent ≡ some (one (codes "same-origin")))
      × (get (codes "x-forwarded-for") sent ≡ some (one (get_or f.forwarded_for f.remote)))
      × (get (codes "x-forwarded-host") sent
          ≡ some (get_or (present (get (codes "host") headers)) (one [])))
      × (get (codes "x-forwarded-proto") sent
          ≡ some (
              one (
                if request_is_https (peer_of headers f) (trust_of f)
                then codes "https"
                else codes "http")))
      × (get (codes "x-dsh-reverse-proxy") sent ≡ some (one (codes "1")))
      × (get (codes "cookie") sent
          ≡ elim f.upstream_cookie [ none ↦ none | some cookie ↦ some (one cookie) ])
      × (get (codes "forwarded") sent ≡ none)
      × (get (codes "x-forwarded-port") sent ≡ none)
      × (get (codes "x-real-ip") sent ≡ none)
      × (get (codes "referer") sent ≡ none)
      × (get (codes "referrer") sent ≡ none)
unfolding forward_headers rewrite_headers text_eq proto member
forward_headers-rewritten headers f = (
  simp (get-set_cookie, get-set),
  simp (get-set_cookie, get-set),
  simp (get-set_cookie, get-set),
  simp (get-set_cookie, get-set),
  simp (get-set_cookie, get-set, source_host-present),
  simp (get-set_cookie, get-set),
  simp (get-set_cookie, get-set),
  sent_cookie f.upstream_cookie _
      (copied_cookie f (source_host headers) (proto headers f) (connection_tokens headers) headers),
  unsent headers f (codes "forwarded") refl refl,
  unsent headers f (codes "x-forwarded-port") refl refl,
  unsent headers f (codes "x-real-ip") refl refl,
  unsent headers f (codes "referer") refl refl,
  unsent headers f (codes "referrer") refl refl,
)
