-- ===== src/Net/Hosts.antt =====
-- src/hosts.ts, and of src/http-util.ts `formatAuthority`, `rewriteLoopbackAuthority` and `isSelfLoop`,
-- of src/config-validation.ts `validateBackendHost`, of src/cidr.ts `normalizeRemoteIp`.
use dsh_full_remote.Prelude.{
  ℕ, zero, suc, ◌+◌, ◌*◌, ◌/◌, ◌%◌, Bool, true, false, not, ◌&&◌, ◌||◌, Option, none, some, [], ◌∷◌,
  ◌++◌, leb, ◌==◌, length, drop, all, if◌then◌else◌,
}
use dsh_full_remote.Prelude.Text.{
  Text, codes, text_eq, includes, split, to_lower, starts_with, trim,
}

-- `replace(/\]$/, '')`
unfoldable pub strip_close : Text → Text
strip_close [] = []
strip_close (x ∷ []) = if x == b']' then [] else x ∷ []
strip_close (x ∷ y ∷ s) = x ∷ strip_close (y ∷ s)

-- `replace(/^\[|\]$/g, '')`
unfoldable pub strip_brackets : Text → Text
unfolding strip_close
strip_brackets [] = []
strip_brackets (x ∷ s) = strip_close (if x == b'[' then s else x ∷ s)

-- `isWildcardHost`
unfoldable pub is_wildcard_host : Text → Bool
unfolding text_eq
is_wildcard_host host =
    let value = strip_brackets host in
    text_eq value []
    || text_eq value (codes "0.0.0.0")
    || text_eq value (codes "::")
    || text_eq value (codes "::0")

abbrev pub is_digit : ℕ → Bool
is_digit c = leb b'0' c && leb c b'9'

-- `Number(part)` of decimal digits.
unfoldable pub digits_value : ℕ → Text → ℕ
digits_value n [] = n
digits_value n (c ∷ s) = digits_value (10 * n + c % 48) s

-- `/^\d{1,3}$/.test(part) && Number(part) <= 255`
unfoldable pub is_octet : Text → Bool
unfolding digits_value
is_octet part =
    leb 1 (length part) && leb (length part) 3 && all is_digit part && leb (digits_value 0 part) 255

-- `isLoopbackHost` after the brackets, the case and the `::ffff:` prefix.
unfoldable pub is_loopback_name : Text → Bool
unfolding split is_octet text_eq
is_loopback_name hostname =
    text_eq hostname (codes "localhost")
    || text_eq hostname (codes "::1")
    || elim (split b'.' hostname) [
      | a ∷ b ∷ c ∷ d ∷ [] ↦
          text_eq a (codes "127") && (is_octet a && is_octet b && is_octet c && is_octet d)
      | _ ↦ false
    ]

-- `hostname.startsWith('::ffff:') ? hostname.slice(7) : hostname`
unfoldable pub strip_mapped : Text → Text
unfolding starts_with
strip_mapped hostname = if starts_with (codes "::ffff:") hostname then drop 7 hostname else hostname

-- `isLoopbackHost`
unfoldable pub is_loopback_host : Text → Bool
unfolding strip_brackets to_lower strip_mapped is_loopback_name
is_loopback_host host = is_loopback_name (strip_mapped (to_lower (strip_brackets host)))

-- `normalizeRemoteIp`
unfoldable pub normalize_remote_ip : Text → Text
unfolding trim starts_with strip_brackets
normalize_remote_ip address =
    let raw = trim address in
    if text_eq raw []
    then []
    else if starts_with (codes "::ffff:") raw
    then drop 7 raw
    else strip_brackets raw

-- `${n}` of a natural number: its decimal digits, the last one first computed. `fuel` is at least the
-- number of digits.
unfoldable pub decimal_from : ℕ → ℕ → Text → Text
decimal_from zero n acc = acc
decimal_from (suc fuel) n acc =
    let digit = 48 + n % 10 in
    let rest = decimal_from fuel (n / 10) (digit ∷ acc) in if leb n 9 then digit ∷ acc else rest

unfoldable pub decimal : ℕ → Text
unfolding decimal_from
decimal n = decimal_from (suc n) n []

-- `formatAuthority`
unfoldable pub format_authority : Text → ℕ → Text
unfolding includes starts_with decimal
format_authority host port =
    let authority_host =
      if includes b':' host && not (starts_with (codes "[") host)
      then codes "[" ++ (host ++ codes "]")
      else host in
    authority_host ++ (codes ":" ++ decimal port)

-- `rewriteLoopbackAuthority`
unfoldable pub rewrite_loopback_authority : ℕ → Text
rewrite_loopback_authority port = format_authority (codes "127.0.0.1") port

-- `isSelfLoop`
unfoldable pub is_self_loop : Text → ℕ → Text → ℕ → Bool
is_self_loop listen_host listen_port backend_host backend_port =
    if not (listen_port == backend_port)
    then false
    else if text_eq listen_host backend_host
    then true
    else if is_wildcard_host listen_host
    then true
    else if is_wildcard_host backend_host && is_loopback_host listen_host
    then true
    else is_loopback_host listen_host && is_loopback_host backend_host

-- What `validateBackendHost` throws.
pub data BackendError : Type 0 where
  wildcard_backend : BackendError
  remote_backend : BackendError

-- `validateBackendHost`
unfoldable pub validate_backend_host : Text → Option BackendError
validate_backend_host backend_host =
    if is_wildcard_host backend_host
    then some wildcard_backend
    else if not (is_loopback_host backend_host)
    then some remote_backend
    else none
