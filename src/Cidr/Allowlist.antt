-- ===== src/Cidr/Allowlist.antt =====
-- What an allowlist that `validateRuntimeConfig` accepts means: no entry is lost, and an IPv4 rule takes
-- the addresses that share its leading bits. A slash with nothing behind it is a prefix of no bits.
use Prim.Native.Nat.{bit_and}
use dsh_full_remote.Prelude.{
  ℕ, ◌-◌, ◌/◌, ◌^◌, ◌≤◌, ◌<◌, ◌≡◌, refl, ◌↔◌, true, false, Option, none, some, List, [], ◌∷◌, arith,
  length, all, Option-cases, inl, inr,
}
use dsh_full_remote.Prelude.Text.{Text, text_eq, trim}
use dsh_full_remote.Cidr.Numbers.{number}
use dsh_full_remote.Cidr.Config.{
  RuntimeSecurityConfig, raw_cidrs, is_cidr, validate_texts, validate_runtime_config,
}
use dsh_full_remote.Cidr.Masks.{mask32_iff, bit_and-zero}
use dsh_full_remote.Cidr.Match.{rule_matches, ip_allowed}
use dsh_full_remote.Cidr.Parse.{v4, parse_ipv4, parse_cidr, cut_slash, mask32, compile_cidr_list}
use dsh_full_remote.Net.Hosts.{normalize_remote_ip, is_loopback_host}

-- The entries that are strings.
abbrev pub strings : List (Option Text) → List Text
strings [] = []
strings (none ∷ l) = strings l
strings (some t ∷ l) = t ∷ strings l

module _ (is_ip : Text → ℕ) where
  length-compile :
      (l : List (Option Text))
      → all (is_cidr is_ip) l ≡ true
      → length (compile_cidr_list is_ip (strings l)) ≡ length l
  unfolding compile_cidr_list is_cidr
  length-compile [] h = refl
  length-compile (none ∷ l) h = cc
  length-compile (some t ∷ l) h = elim (Option-cases (parse_cidr is_ip t)) [
    | inl e ↦ ground (arith, e, h)
    | inr (rule, e) ↦ ground (arith, e, h, length-compile l)
  ]

  -- An accepted configuration compiles to one rule for each entry of `allowedCidrs`: an allowlist that
  -- is not empty never becomes the empty one, which lets every address pass.
  pub length-compile_cidr_list :
      (c : RuntimeSecurityConfig)
      → validate_runtime_config is_ip c ≡ none
      → length (compile_cidr_list is_ip (strings (raw_cidrs c.allowed_cidrs)))
        ≡ length (raw_cidrs c.allowed_cidrs)
  unfolding validate_runtime_config validate_texts
  length-compile_cidr_list c h = length-compile (raw_cidrs c.allowed_cidrs) (ground (arith, h))

  -- With one IPv4 rule, an IPv4 address that is not loopback is let in exactly when its first `p`
  -- bits are those of the rule's address.
  pub ip_allowed_iff :
      (address : Text) (a n p : ℕ)
      → text_eq (normalize_remote_ip address) [] ≡ false
      → is_loopback_host (normalize_remote_ip address) ≡ false
      → parse_ipv4 (normalize_remote_ip address) ≡ some a
      → p ≤ 32
      → a < 2 ^ 32
      → n < 2 ^ 32
      → (ip_allowed is_ip address (v4 (bit_and n (mask32 p)) p ∷ []) ≡ true)
        ↔ (a / 2 ^ (32 - p) ≡ n / 2 ^ (32 - p))
  unfolding ip_allowed rule_matches
  ip_allowed_iff address a n p e l f h la ln =
      let (there, back) = mask32_iff p a n h la ln in
      (λ t. there (ground (arith, e, l, f, t)), λ q. ground (arith, e, l, f, back q))

  -- An entry with a slash and nothing behind it is taken for a prefix of no bits: an allowlist of one
  -- such IPv4 entry lets every IPv4 address in.
  pub ip_allowed-empty_prefix :
      (entry addr address : Text) (n a : ℕ)
      → text_eq (trim entry) [] ≡ false
      → cut_slash (trim entry) ≡ (addr, some [])
      → parse_ipv4 (normalize_remote_ip addr) ≡ some n
      → parse_ipv4 (normalize_remote_ip address) ≡ some a
      → text_eq (normalize_remote_ip address) [] ≡ false
      → (is_cidr is_ip (some entry) ≡ true)
        × (ip_allowed is_ip address (compile_cidr_list is_ip (entry ∷ [])) ≡ true)
  unfolding ip_allowed rule_matches compile_cidr_list parse_cidr is_cidr number
  ip_allowed-empty_prefix entry addr address n a t c en ea f =
      let rule : parse_cidr is_ip entry ≡ some (v4 0 0) =
        ground (arith, t, c, en, bit_and-zero n) in
      (ground (arith, rule), ground (arith, rule, ea, f, bit_and-zero a))
