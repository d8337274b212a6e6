-- ===== src/Tunnel/Url.antt =====
-- src/tunnel.ts: `parseTunnelUrl`, the first tunnel address in a text.
use dsh_full_remote.Prelude.{
  ℕ, suc, ◌+◌, Bool, false, ◌&&◌, ◌||◌, Option, none, some, [], ◌∷◌, leb, ◌==◌, length, take, drop,
  if◌then◌else◌,
}
use dsh_full_remote.Prelude.Text.{Text, codes, to_lower, starts_with, lower_char}

-- `[a-z0-9]` without regard to case.
unfoldable pub is_alnum : ℕ → Bool
unfolding lower_char
is_alnum c = let l = lower_char c in (leb b'a' l && leb l b'z') || (leb b'0' l && leb l b'9')

-- How many characters of `[a-z0-9-]` a text begins with.
unfoldable pub label_length : Text → ℕ
unfolding is_alnum
label_length [] = 0
label_length (c ∷ s) = let n = label_length s in if is_alnum c || c == b'-' then suc n else 0

unfoldable pub last_is_alnum : Text → Bool
last_is_alnum [] = false
last_is_alnum (c ∷ []) = is_alnum c
last_is_alnum (c ∷ d ∷ s) = last_is_alnum (d ∷ s)

unfoldable pub first_is_alnum : Text → Bool
first_is_alnum [] = false
first_is_alnum (c ∷ s) = is_alnum c

-- `[a-z0-9](?:[a-z0-9-]{0,61}[a-z0-9])?`: all of it, since a dot has to follow.
unfoldable pub is_label : Text → Bool
unfolding first_is_alnum last_is_alnum
is_label t = first_is_alnum t && (last_is_alnum t && leb (length t) 63)

-- The match that begins at the start of a text: its length.
unfoldable pub url_here : Text → Option ℕ
unfolding label_length is_label starts_with to_lower
url_here s =
    let rest = drop 8 s in
    let n = label_length rest in
    if starts_with (codes "https://") (to_lower s)
      && (is_label (take n rest)
          && starts_with (codes ".trycloudflare.com") (to_lower (drop n rest)))
    then some (8 + n + 18)
    else none

-- `parseTunnelUrl`
unfoldable pub parse_tunnel_url : Text → Option Text
unfolding url_here
parse_tunnel_url [] = none
parse_tunnel_url (c ∷ s) =
    let later = parse_tunnel_url s in
    elim (url_here (c ∷ s)) [ some n ↦ some (take n (c ∷ s)) | none ↦ later ]
