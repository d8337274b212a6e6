-- ===== src/Cidr/Match.antt =====
-- src/cidr.ts: `ipv6Matches` and `ipAllowed`.
use Prim.Native.Nat.{bit_and}
use dsh_full_remote.Prelude.{
  ℕ, ◌-◌, ◌*◌, ◌^◌, Bool, true, false, not, Option, none, some, List, [], ◌∷◌, ◌==◌, min, any,
  if◌then◌else◌,
}
use dsh_full_remote.Prelude.Text.{Text, text_eq}
use dsh_full_remote.Cidr.Parse.{CidrRule, v4, v6, parse_ipv4, parse_ipv6, mask32}
use dsh_full_remote.Net.Hosts.{normalize_remote_ip, is_loopback_host}

-- `take === 0 ? 0 : (0xffff << (16 - take)) & 0xffff`
unfoldable pub mask16 : ℕ → ℕ
mask16 bits = if bits == 0 then 0 else bit_and (0xffff * 2 ^ (16 - bits)) 0xffff

-- The loop of `ipv6Matches` over the words that are left; both lists have eight words at its start.
unfoldable pub ipv6_matches : List ℕ → List ℕ → ℕ → Bool
unfolding mask16
ipv6_matches [] network bits = true
ipv6_matches (w ∷ words) [] bits = true
ipv6_matches (w ∷ words) (n ∷ network) bits =
    let taken = min 16 bits in
    let later = ipv6_matches words network (bits - taken) in
    if bits == 0
    then true
    else if not (bit_and w (mask16 taken) == bit_and n (mask16 taken))
    then false
    else later

-- One round of the loop of `ipAllowed`.
unfoldable pub rule_matches : Option ℕ → Option (List ℕ) → CidrRule → Bool
unfolding ipv6_matches mask32
rule_matches (some a) words (v4 network prefix) = bit_and a (mask32 prefix) == network
rule_matches none words (v4 network prefix) = false
rule_matches address (some words) (v6 network prefix) = ipv6_matches words network prefix
rule_matches address none (v6 network prefix) = false

module _ (is_ip : Text → ℕ) where
  -- `v4 === undefined ? parseIpv6(ip) : undefined`
  unfoldable pub words_unless_v4 : Option ℕ → Text → Option (List ℕ)
  words_unless_v4 (some a) ip = none
  words_unless_v4 none ip = parse_ipv6 is_ip ip

  -- `ipAllowed`
  unfoldable pub ip_allowed : Text → List CidrRule → Bool
  unfolding rule_matches words_unless_v4
  ip_allowed address [] = true
  ip_allowed address (rule ∷ rules) =
      let ip = normalize_remote_ip address in
      if text_eq ip []
      then false
      else if is_loopback_host ip
      then true
      else any (rule_matches (parse_ipv4 ip) (words_unless_v4 (parse_ipv4 ip) ip)) (rule ∷ rules)
