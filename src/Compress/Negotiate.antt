-- ===== src/Compress/Negotiate.antt =====
-- src/proxy-compress.ts: `Accept-Encoding`. The header is the list of its rows, where a missing one has
-- none and a string is one row; a weight is counted in thousandths.
use dsh_full_remote.Prelude.{
  ℕ, ◌+◌, ◌-◌, ◌*◌, min, max, Bool, false, not, ◌&&◌, ◌||◌, Option, none, some, List, [], ◌∷◌, ◌++◌,
  ◌==◌, leb, ltb, all, any, get_or, if◌then◌else◌,
}
use dsh_full_remote.Prelude.Text.{Text, codes, split, trim, to_lower, lower_char}
use dsh_full_remote.Prelude.StrMap.{StrMap, get, set}

-- `rows.join(',')`
unfoldable pub join_rows : List Text → Text
join_rows [] = []
join_rows (row ∷ []) = row
join_rows (row ∷ next ∷ rows) = row ++ b',' ∷ join_rows (next ∷ rows)

-- `[ \t]*`
abbrev pub skip_blanks : Text → Text
skip_blanks [] = []
skip_blanks (c ∷ s) = if c == 32 || c == 9 then skip_blanks s else c ∷ s

abbrev pub is_digit : ℕ → Bool
is_digit c = leb b'0' c && leb c b'9'

-- At most three decimals, in thousandths.
abbrev pub decimals : Text → Option ℕ
decimals [] = some 0
decimals (a ∷ []) = if is_digit a then some ((a - b'0') * 100) else none
decimals (a ∷ b ∷ []) =
    if is_digit a && is_digit b then some ((a - b'0') * 100 + (b - b'0') * 10) else none
decimals (a ∷ b ∷ c ∷ []) =
    if is_digit a && is_digit b && is_digit c
    then some ((a - b'0') * 100 + (b - b'0') * 10 + (c - b'0'))
    else none
decimals _ = none

-- `(0(?:\.[0-9]{0,3})?|1(?:\.0{0,3})?)$`
unfoldable pub quality : Text → Option ℕ
quality (c ∷ []) = if c == b'0' then some 0 else if c == b'1' then some 1000 else none
quality (c ∷ p ∷ s) =
    if not (p == b'.')
    then none
    else if c == b'0'
    then decimals s
    else if c == b'1'
    then elim (decimals s) [ none ↦ none | some n ↦ if n == 0 then some 1000 else none ]
    else none
quality [] = none

-- What the expression of `parseQ` matches.
unfoldable pub weight : Text → Option ℕ
unfolding quality lower_char
weight [] = none
weight (q ∷ s) = if not (lower_char q == b'q') then none else elim (skip_blanks s) [
  | [] ↦ none
  | e ∷ rest ↦ if e == b'=' then quality (skip_blanks rest) else none
]

-- `parseQ`
unfoldable pub parse_q : List Text → ℕ
unfolding weight
parse_q [] = 1000
parse_q (param ∷ []) = get_or (weight (trim param)) 0
parse_q (param ∷ more ∷ rest) = 0

-- `[!#$%&'*+\-.^_`|~0-9a-z]`
unfoldable pub is_coding_char : ℕ → Bool
is_coding_char c =
    is_digit c || (leb b'a' c && leb c b'z') || any (λ x. x == c) (codes "!#$%&'*+-.^_`|~")

abbrev pub is_coding : Text → Bool
is_coding [] = false
is_coding (c ∷ s) = all is_coding_char (c ∷ s)

-- The coding and the weight of a part.
unfoldable pub declaration : Text → Option (Text × ℕ)
unfolding parse_q
declaration part = elim (split b';' (trim part)) [
  | [] ↦ none
  | coding ∷ params ↦
      let token = to_lower (trim coding) in
      if is_coding token then some (token, parse_q params) else none
]

-- `preferences.set(token, Math.min(preferences.get(token) ?? 1, q))`
abbrev pub declare_weight : Option (Text × ℕ) → StrMap ℕ → StrMap ℕ
declare_weight none preferences = preferences
declare_weight (some (token, q)) preferences =
    set token (min (get_or (get token preferences) 1000) q) preferences

-- The loop of `encodingPreferences`.
unfoldable pub set_preferences : List Text → StrMap ℕ → StrMap ℕ
set_preferences [] preferences = preferences
set_preferences (part ∷ parts) preferences =
    set_preferences parts (declare_weight (declaration part) preferences)

-- `encodingPreferences`
unfoldable pub encoding_preferences : List Text → StrMap ℕ
unfolding set_preferences join_rows
encoding_preferences accept_encoding = set_preferences (split b',' (join_rows accept_encoding)) []

-- `preferences.get(name) ?? preferences.get('*')`
abbrev pub preferred : StrMap ℕ → Text → Option ℕ
preferred preferences name = elim (get name preferences) [
  | none ↦ get (codes "*") preferences
  | some q ↦ some q
]

-- `encodingQ`
unfoldable pub encoding_q : List Text → Text → Option ℕ
unfolding to_lower trim
encoding_q accept_encoding name =
    preferred (encoding_preferences accept_encoding) (to_lower (trim name))

-- `acceptsGzip`
unfoldable pub accepts_gzip : List Text → Bool
unfolding encoding_q
accepts_gzip accept_encoding = ltb 0 (get_or (encoding_q accept_encoding (codes "gzip")) 0)

-- `ContentEncoding`
pub data ContentEncoding : Type 0 where
  br gzip : ContentEncoding

abbrev pub choose : ℕ → ℕ → ℕ → Option ContentEncoding
choose br_q gzip_q identity =
    if max br_q gzip_q == 0 || ltb (max br_q gzip_q) identity
    then none
    else if leb gzip_q br_q
    then some br
    else some gzip

-- `selectContentEncoding`
unfoldable pub select_content_encoding : List Text → Option ContentEncoding
select_content_encoding accept_encoding =
    let preferences = encoding_preferences accept_encoding in
    choose (get_or (preferred preferences (codes "br")) 0)
      (get_or (preferred preferences (codes "gzip")) 0)
      (get_or (get (codes "identity") preferences) 0)
