-- ===== src/Cidr/Parse.antt =====
-- src/cidr.ts: `parseIpv4`, `parseIpv6`, `parseCidr` and `compileCidrList`. `isIP` of the platform is a
-- parameter; only its answer 6 is read.
use Prim.Native.Nat.{bit_and}
use dsh_full_remote.Prelude.{
  ℕ, zero, suc, ◌+◌, ◌-◌, ◌*◌, ◌/◌, ◌%◌, ◌^◌, not, ◌&&◌, Option, none, some, List, [], ◌∷◌, ◌++◌,
  ltb, leb, ◌==◌, length, take, drop, if◌then◌else◌,
}
use dsh_full_remote.Prelude.Text.{Text, codes, text_eq, includes, index_of, split, trim, to_lower}
use dsh_full_remote.Cidr.Numbers.{number, hex_prefix, hex_text}
use dsh_full_remote.Net.Hosts.{normalize_remote_ip}

-- `CidrRule`
pub data CidrRule : Type 0 where
  v4 : (network prefix : ℕ) → CidrRule
  v6 : (network : List ℕ) (prefix : ℕ) → CidrRule

-- A part that is no integer from 0 to 255 is undefined here.
unfoldable pub octet : Text → Option ℕ
octet part = elim (number part) [ none ↦ none | some n ↦ if leb n 255 then some n else none ]

unfoldable pub join_octets : Option ℕ → Option ℕ → Option ℕ → Option ℕ → Option ℕ
join_octets (some a) (some b) (some c) (some d) = some (a * 2 ^ 24 + b * 2 ^ 16 + c * 2 ^ 8 + d)
join_octets _ _ _ _ = none

-- `parseIpv4`
unfoldable pub parse_ipv4 : Text → Option ℕ
unfolding octet join_octets
parse_ipv4 ip = elim (split b'.' ip) [
  | a ∷ b ∷ c ∷ d ∷ [] ↦ join_octets (octet a) (octet b) (octet c) (octet d)
  | _ ↦ none
]

-- `text.slice(0, text.lastIndexOf(':') + 1)` and the text behind it; `none` with no colon.
unfoldable pub last_colon : Text → Option (Text × Text)
last_colon [] = none
last_colon (c ∷ s) = elim (last_colon s) [
  | some (head, tail) ↦ some (c ∷ head, tail)
  | none ↦ if c == b':' then some (c ∷ [], s) else none
]

-- A dotted tail as two hextets.
unfoldable pub canonical_tail : Text → Option Text
unfolding last_colon parse_ipv4
canonical_tail ip = if not (includes b'.' ip) then some ip else elim (last_colon ip) [
  | none ↦ none
  | some (head, tail) ↦ elim (parse_ipv4 tail) [
    | none ↦ none
    | some dotted ↦ some (
        head
        ++ (hex_text (bit_and (dotted / 2 ^ 16) 0xffff)
            ++ (codes ":" ++ hex_text (bit_and dotted 0xffff))))
  ]
]

-- `full.split('::')`, its first two parts; `none` without `::`.
unfoldable pub split_double : Text → Option (Text × Text)
split_double [] = none
split_double (c ∷ []) = none
split_double (c ∷ d ∷ s) =
    let later = split_double (d ∷ s) in
    if c == b':' && d == b':'
    then some ([], elim (split_double s) as (λ x. Text) [ none ↦ s | some (head, tail) ↦ head ])
    else elim later [ none ↦ none | some (head, tail) ↦ some (c ∷ head, tail) ]

-- `head === '' ? [] : head.split(':')`
unfoldable pub hextets : Text → List Text
hextets [] = []
hextets (c ∷ s) = split b':' (c ∷ s)

unfoldable pub zeros : ℕ → List Text
zeros zero = []
zeros (suc n) = codes "0" ∷ zeros n

-- The hextets, with `::` expanded.
unfoldable pub expanded : Text → List Text
unfolding split_double hextets zeros
expanded ip = elim (split_double ip) [
  | none ↦ split b':' ip
  | some (head, tail) ↦
      let missing = 8 - length (hextets head) - length (hextets tail) in
      hextets head ++ (zeros missing ++ hextets tail)
]

-- `Number.parseInt(part || '0', 16)` of each part, none if one is no word.
unfoldable pub words_of : List Text → Option (List ℕ)
words_of [] = some []
words_of (part ∷ parts) =
    let later = words_of parts in
    elim (hex_prefix none (if text_eq part [] then codes "0" else part)) [
      | none ↦ none
      | some w ↦ elim later [ none ↦ none | some ws ↦ if ltb 0xffff w then none else some (w ∷ ws) ]
    ]

-- `Number(prefixRaw)` within its bound; without a slash, the bound.
unfoldable pub prefix_of : ℕ → Option Text → Option ℕ
prefix_of bound none = some bound
prefix_of bound (some raw) = elim (number raw) [
  | none ↦ none
  | some p ↦ if ltb bound p then none else some p
]

-- `prefix === 0 ? 0 : (0xffffffff << (32 - prefix)) >>> 0`
unfoldable pub mask32 : ℕ → ℕ
mask32 prefix = if prefix == 0 then 0 else (0xffffffff * 2 ^ (32 - prefix)) % 2 ^ 32

-- The address and the text behind the slash.
unfoldable pub cut_slash : Text → Text × Option Text
cut_slash text = elim (index_of b'/' text) [
  | none ↦ (text, none)
  | some at ↦ (take at text, some (drop (at + 1) text))
]

module _ (is_ip : Text → ℕ) where
  -- `parseIpv6`
  unfoldable pub parse_ipv6 : Text → Option (List ℕ)
  unfolding canonical_tail expanded words_of
  parse_ipv6 ip = elim (canonical_tail (to_lower ip)) [
    | none ↦ none
    | some normalized ↦
        if not (is_ip normalized == 6)
        then none
        else if length (expanded normalized) == 8
        then words_of (expanded normalized)
        else none
  ]

  -- `parseCidr`, behind the slash.
  unfoldable pub parse_rule : Text → Option Text → Option CidrRule
  unfolding prefix_of mask32
  parse_rule ip prefix_raw = elim (parse_ipv4 ip) [
    | some n ↦ elim (prefix_of 32 prefix_raw) [
      | none ↦ none
      | some p ↦ some (v4 (bit_and n (mask32 p)) p)
    ]
    | none ↦ elim (parse_ipv6 ip) [
      | none ↦ none
      | some words ↦ elim (prefix_of 128 prefix_raw) [ none ↦ none | some p ↦ some (v6 words p) ]
    ]
  ]

  -- `parseCidr`
  unfoldable pub parse_cidr : Text → Option CidrRule
  unfolding parse_rule cut_slash
  parse_cidr rule =
      let text = trim rule in
      let (addr, prefix_raw) = cut_slash text in
      if text_eq text [] then none else parse_rule (normalize_remote_ip addr) prefix_raw

  -- `compileCidrList`
  unfoldable pub compile_cidr_list : List Text → List CidrRule
  compile_cidr_list [] = []
  compile_cidr_list (entry ∷ entries) =
      let later = compile_cidr_list entries in
      elim (parse_cidr entry) [ none ↦ later | some rule ↦ rule ∷ later ]
