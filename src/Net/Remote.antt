-- ===== src/Net/Remote.antt =====
-- src/proxy-headers.ts: the client's address and protocol, as the trusted edges report them.
-- `isIP` of the platform is a parameter. The only way a header can change the address is through a
-- loopback peer that the configuration trusts.
use dsh_full_remote.Prelude.{
  ◌≡◌, ◌⊎◌, inl, inr, Bool, true, false, not, ◌&&◌, ◌||◌, Option, none, some, List, [], ◌∷◌, arith,
  if◌then◌else◌, Option-cases, get_or,
}
use dsh_full_remote.Prelude.Text.{Text, codes, text_eq, split, trim, to_lower}
use dsh_full_remote.Net.Headers.{HeaderValue, one, many, number, absent}
use dsh_full_remote.Net.Hosts.{decimal, is_loopback_host, normalize_remote_ip}

-- `csvHeaderPart`'s argument `pick`
pub data Pick : Type 0 where
  first : Pick
  last : Pick

-- `list[0]` and `list[list.length - 1]`
unfoldable pub first_of : List Text → Option Text
first_of [] = none
first_of (x ∷ xs) = some x

unfoldable pub last_of : List Text → Option Text
last_of [] = none
last_of (x ∷ xs) = elim (last_of xs) [ none ↦ some x | some y ↦ some y ]

unfoldable pub picked : Pick → List Text → Option Text
unfolding first_of last_of
picked first xs = first_of xs
picked last xs = last_of xs

-- `.map(part => part.trim()).filter(Boolean)`
unfoldable pub trimmed_parts : List Text → List Text
trimmed_parts [] = []
trimmed_parts (part ∷ rest) =
    let t = trim part in let later = trimmed_parts rest in if text_eq t [] then later else t ∷ later

-- `String(text ?? '')`
unfoldable pub header_text : Pick → Option HeaderValue → Text
header_text pick none = []
header_text pick (some absent) = []
header_text pick (some (one text)) = text
header_text pick (some (number n)) = decimal n
header_text pick (some (many list)) = elim (picked pick list) [ none ↦ [] | some text ↦ text ]

-- `csvHeaderPart`: the parts that are left are not empty.
unfoldable pub csv_header_part : Option HeaderValue → Pick → Option Text
csv_header_part value pick = picked pick (trimmed_parts (split b',' (header_text pick value)))

-- The request as these functions read it, and the configuration.
pub record Peer : Type 0 where
  pub direct : Text
  pub cf_connecting_ip : Option HeaderValue
  pub x_forwarded_for : Option HeaderValue
  pub x_forwarded_proto : Option HeaderValue

pub record Trust : Type 0 where
  pub tls : Bool
  pub forwarded_for : Bool
  pub forwarded_proto : Bool
  pub cloudflare : Bool

-- `requestIsHttps`
unfoldable pub request_is_https : Peer → Trust → Bool
request_is_https p t =
    t.tls
    || (t.forwarded_proto
        && (is_loopback_host p.direct && elim (csv_header_part p.x_forwarded_proto first) [
          | none ↦ false
          | some proto ↦ text_eq (to_lower proto) (codes "https")
        ]))

module _ (is_ip : Text → Bool) where
  -- `trustedForwardedIp`
  unfoldable pub trusted_forwarded_ip : Option Text → Option Text
  trusted_forwarded_ip none = none
  trusted_forwarded_ip (some value) =
      let ip = normalize_remote_ip value in
      if not (is_ip ip) || is_loopback_host ip then none else some ip

  -- The address of the Cloudflare edge, when it is trusted.
  unfoldable pub cloudflare_ip : Peer → Trust → Option Text
  cloudflare_ip p t =
      if t.cloudflare then trusted_forwarded_ip (csv_header_part p.cf_connecting_ip first) else none

  -- The address that the trusted edges report: Cloudflare's header goes first.
  unfoldable pub forwarded_ip : Peer → Trust → Option Text
  forwarded_ip p t = elim (cloudflare_ip p t) [
    | some ip ↦ some ip
    | none ↦ trusted_forwarded_ip (csv_header_part p.x_forwarded_for last)
  ]

  -- `effectiveRemoteAddress`
  unfoldable pub effective_remote_address : Peer → Trust → Text
  effective_remote_address p t =
      if t.forwarded_for && is_loopback_host p.direct
      then get_or (forwarded_ip p t) p.direct
      else p.direct

  -- What a header is trusted for: an address of the platform's syntax that is not loopback.
  IsTrusted : Text → Type 0
  IsTrusted ip = (is_ip ip ≡ true) × (is_loopback_host ip ≡ false)

  trusted_forwarded_ip-IsTrusted :
      (v : Option Text) (ip : Text) → trusted_forwarded_ip v ≡ some ip → IsTrusted ip
  unfolding trusted_forwarded_ip IsTrusted
  trusted_forwarded_ip-IsTrusted none ip h = cc
  trusted_forwarded_ip-IsTrusted (some v) ip h = ground (arith, h)

  forwarded_ip-IsTrusted :
      (p : Peer) (t : Trust) (ip : Text) → forwarded_ip p t ≡ some ip → IsTrusted ip
  unfolding forwarded_ip cloudflare_ip
  forwarded_ip-IsTrusted p t ip h = elim (Option-cases (cloudflare_ip p t)) [
    | inl e ↦
        trusted_forwarded_ip-IsTrusted (csv_header_part p.x_forwarded_for last) ip
          (ground (arith, e, h))
    | inr (i, e) ↦
        trusted_forwarded_ip-IsTrusted (csv_header_part p.cf_connecting_ip first) ip
          (ground (arith, e, h))
  ]

  -- The address that the proxy works with is the socket's, or the socket's peer is loopback and
  -- `trustForwardedFor` is on, and then it is an IP address that is not loopback.
  pub effective_remote_address_cases :
      (p : Peer) (t : Trust)
      → (effective_remote_address p t ≡ p.direct)
        ⊎ ((t.forwarded_for ≡ true)
            × (is_loopback_host p.direct ≡ true)
            × (is_ip (effective_remote_address p t) ≡ true)
            × (is_loopback_host (effective_remote_address p t) ≡ false))
  unfolding effective_remote_address IsTrusted
  effective_remote_address_cases p t = elim (Option-cases (forwarded_ip p t)) [
    | inl e ↦ inl (ground (arith, e))
    | inr (ip, e) ↦ ground (arith, e, forwarded_ip-IsTrusted p t ip e)
  ]
