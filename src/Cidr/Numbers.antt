-- ===== src/Cidr/Numbers.antt =====
-- The language's `Number(text)`, where it is a natural number, and `parseInt(text, 16)`, as
-- src/cidr.ts uses them. A decimal has its exact value here.
use dsh_full_remote.Prelude.{
  get_or, ℕ, ◌+◌, ◌-◌, ◌*◌, ◌/◌, ◌%◌, ◌^◌, ◌&&◌, Option, none, some, [], ◌∷◌, ◌++◌, ltb, leb, ◌==◌,
  length, drop, if◌then◌else◌,
}
use dsh_full_remote.Prelude.Text.{Text, codes, split, trim, to_lower, starts_with}

-- The value of a digit, by ASCII.
unfoldable pub digit_of : ℕ → Option ℕ
digit_of c =
    if leb b'0' c && leb c b'9'
    then some (c - 48)
    else if leb b'a' c && leb c b'z'
    then some (c - 87)
    else if leb b'A' c && leb c b'Z'
    then some (c - 55)
    else none

-- The number that the digits of a base spell, from the left; `none` at any other character.
unfoldable pub digits_from : ℕ → ℕ → Text → Option ℕ
unfolding digit_of
digits_from base n [] = some n
digits_from base n (c ∷ s) = elim (digit_of c) [
  | none ↦ none
  | some d ↦ if ltb d base then digits_from base (base * n + d) s else none
]

-- A run of digits that is not empty.
unfoldable pub digits_of : ℕ → Text → Option ℕ
unfolding digits_from
digits_of base [] = none
digits_of base (c ∷ s) = digits_from base 0 (c ∷ s)

-- A number and the power of ten that it is divided by.
abbrev pub Scaled : Type 0
Scaled = ℕ × ℕ

-- `digits`, `digits.`, `.digits` or `digits.digits`.
unfoldable pub mantissa : Text → Option Scaled
unfolding digits_of
mantissa s = elim (split b'.' s) [
  | whole ∷ [] ↦ elim (digits_of 10 whole) [ none ↦ none | some n ↦ some (n, 0) ]
  | whole ∷ fraction ∷ [] ↦ elim (digits_of 10 (whole ++ fraction)) [
    | none ↦ none
    | some n ↦ some (n, length fraction)
  ]
  | _ ↦ none
]

-- `n / 10 ^ k`, where it is a natural number.
unfoldable pub unscale : ℕ → ℕ → Option ℕ
unscale n k = if n % 10 ^ k == 0 then some (n / 10 ^ k) else none

-- The exponent's digits behind an optional sign: the exponent to add and the one to take away.
unfoldable pub exponent : Text → Option Scaled
unfolding digits_of
exponent [] = none
exponent (c ∷ s) =
    if c == b'-'
    then elim (digits_of 10 s) [ none ↦ none | some e ↦ some (0, e) ]
    else elim (digits_of 10 (if c == b'+' then s else c ∷ s)) [ none ↦ none | some e ↦ some (e, 0) ]

-- The natural number below `n / 10 ^ k`.
unfoldable pub floor_scale : ℕ → ℕ → Option ℕ
floor_scale n k = some (n / 10 ^ k)

-- A decimal without its sign, as a natural number by `scale`.
unfoldable pub decimal_value : (ℕ → ℕ → Option ℕ) → Text → Option ℕ
unfolding mantissa exponent
decimal_value scale s = elim (split b'e' (to_lower s)) [
  | m ∷ [] ↦ elim (mantissa m) [ none ↦ none | some (n, k) ↦ scale n k ]
  | m ∷ e ∷ [] ↦ elim (mantissa m) [
    | none ↦ none
    | some (n, k) ↦ elim (exponent e) [
      | none ↦ none
      | some (up, down) ↦ scale (n * 10 ^ up) (k + down)
    ]
  ]
  | _ ↦ none
]

-- A decimal with an optional sign; a negative number is none but for zero.
unfoldable pub signed_value : (ℕ → ℕ → Option ℕ) → Text → Option ℕ
unfolding decimal_value unscale
signed_value scale [] = some 0
signed_value scale (c ∷ s) =
    if c == b'+'
    then decimal_value scale s
    else if c == b'-'
    then elim (decimal_value unscale s) [ none ↦ none | some n ↦ if n == 0 then some 0 else none ]
    else decimal_value scale (c ∷ s)

-- `Number(text)`, where it is not negative, as a natural number by `scale`: white space around it is cut,
-- the empty text is 0, and there are the prefixes of three bases.
unfoldable pub number_by : (ℕ → ℕ → Option ℕ) → Text → Option ℕ
unfolding signed_value trim to_lower starts_with
number_by scale s =
    let t = trim s in
    if starts_with (codes "0x") (to_lower t)
    then digits_of 16 (drop 2 t)
    else if starts_with (codes "0o") (to_lower t)
    then digits_of 8 (drop 2 t)
    else if starts_with (codes "0b") (to_lower t)
    then digits_of 2 (drop 2 t)
    else signed_value scale t

-- `Number(text)`, where it is an integer that is not negative.
unfoldable pub number : Text → Option ℕ
unfolding number_by unscale
number = number_by unscale

-- The integer below `Number(text)`, where that is not negative.
unfoldable pub floor_number : Text → Option ℕ
unfolding number_by floor_scale
floor_number = number_by floor_scale

unfoldable pub hex_digit : ℕ → Option ℕ
unfolding digit_of
hex_digit c = elim (digit_of c) [ none ↦ none | some d ↦ if ltb d 16 then some d else none ]

-- `Number.parseInt(text, 16)` of a text that begins with no sign, prefix or space: its leading
-- hexadecimal digits.
unfoldable pub hex_prefix : Option ℕ → Text → Option ℕ
unfolding hex_digit
hex_prefix n [] = n
hex_prefix n (c ∷ s) = elim (hex_digit c) [
  | none ↦ n
  | some d ↦ hex_prefix (some (16 * get_or n 0 + d)) s
]

unfoldable pub hex_char : ℕ → ℕ
hex_char d = if leb d 9 then 48 + d else 87 + d

-- `n.toString(16)` of a number below 65536.
unfoldable pub hex_text : ℕ → Text
unfolding hex_char
hex_text n =
    if ltb n 16
    then hex_char n ∷ []
    else if ltb n 256
    then hex_char (n / 16) ∷ hex_char (n % 16) ∷ []
    else if ltb n 4096
    then hex_char (n / 256) ∷ hex_char (n / 16 % 16) ∷ hex_char (n % 16) ∷ []
    else hex_char (n / 4096)
      ∷ hex_char (n / 256 % 16)
      ∷ hex_char (n / 16 % 16)
      ∷ hex_char (n % 16)
      ∷ []
