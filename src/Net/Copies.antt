-- ===== src/Net/Copies.antt =====
-- src/proxy-headers.ts: what the loops over a bag of headers copy, and which headers reach the client.
use dsh_full_remote.Prelude.{
  ◌≡◌, refl, Bool, true, Option, none, some, List, [], ◌∷◌, arith, if◌then◌else◌,
}
use dsh_full_remote.Prelude.Text.{Text, text_eq_iff, to_lower}
use dsh_full_remote.Prelude.StrMap.{get, set, Unique, Every, get-set}
use dsh_full_remote.Net.Headers.{
  HeaderValue, Headers, is_absent, blocked, dropped, copy_request, copy_response, connection_tokens,
  sanitize_headers,
}

-- A value that is present.
abbrev pub present : Option HeaderValue → Option HeaderValue
present none = none
present (some v) = if is_absent v then none else some v

-- `v` if the entry is there and passes, else what was there before.
abbrev pub overlay : Bool → Option HeaderValue → Option HeaderValue → Option HeaderValue
overlay b v before = if b then before else elim (present v) [ none ↦ before | some w ↦ some w ]

-- The names of the bag are in lower case, as the platform's parser leaves them.
abbrev pub IsLower : Headers → Type 0
IsLower = Every (λ name _. to_lower name ≡ name)

pub get-copy_request :
    (nominated : List Text) (n : Text) (headers out : Headers)
    → Unique headers
    → IsLower headers
    → get n (copy_request nominated headers out)
      ≡ overlay (blocked nominated n) (get n headers) (get n out)
unfolding copy_request get
get-copy_request nominated n [] out u l = ground arith
get-copy_request nominated n ((key, value) ∷ rest) out u l = ground (
  arith,
  u,
  l.0,
  text_eq_iff key n,
  get-set key n value out,
  get-copy_request nominated n rest out u.1 l.1,
  get-copy_request nominated n rest (set key value out) u.1 l.1,
)

pub get-copy_blocked :
    (nominated : List Text) (n : Text) (headers out : Headers)
    → blocked nominated n ≡ true
    → get n (copy_request nominated headers out) ≡ get n out
unfolding copy_request
get-copy_blocked nominated n [] out b = refl
get-copy_blocked nominated n ((key, value) ∷ rest) out b = ground (
  arith,
  b,
  text_eq_iff (to_lower key) n,
  get-set (to_lower key) n value out,
  get-copy_blocked nominated n rest out b,
  get-copy_blocked nominated n rest (set (to_lower key) value out) b,
)

get-copy_response :
    (keep nominated : List Text) (n : Text) (headers out : Headers)
    → Unique headers
    → get n (copy_response keep nominated headers out)
      ≡ overlay (dropped keep nominated (to_lower n)) (get n headers) (get n out)
unfolding copy_response get
get-copy_response keep nominated n [] out u = ground arith
get-copy_response keep nominated n ((key, value) ∷ rest) out u = ground (
  arith,
  u,
  text_eq_iff key n,
  get-set key n value out,
  get-copy_response keep nominated n rest out u.1,
  get-copy_response keep nominated n rest (set key value out) u.1,
)

-- A header of a backend's response is relayed under its name, with its value, unless it is absent, or
-- its name in lower case is `set-cookie`, a hop-by-hop name, or one that the `connection` header
-- nominates; the last two pass when they are in `keep`.
pub get-sanitize_headers :
    (headers : Headers) (keep : List Text) (n : Text)
    → Unique headers
    → get n (sanitize_headers headers keep) ≡ (
        if dropped keep (connection_tokens headers) (to_lower n)
        then none
        else present (get n headers))
unfolding sanitize_headers get
get-sanitize_headers headers keep n u =
    ground (arith, get-copy_response keep (connection_tokens headers) n headers [] u)
