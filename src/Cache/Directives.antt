-- ===== src/Cache/Directives.antt =====
-- src/static-cache.ts: the directives of `Cache-Control`, and how long a response stays fresh. A date is counted
-- in milliseconds from the earliest one that `Date` has, so that none is negative. `Date.parse` and
-- `toUTCString` are the platform's.
use dsh_full_remote.Prelude.{
  ℕ, ◌+◌, ◌-◌, ◌*◌, ◌^◌, min, max, Bool, true, false, not, ◌&&◌, ◌||◌, Option, none, some, List, [],
  ◌∷◌, ◌++◌, take, drop, all, any, ◌==◌, ltb, if◌then◌else◌,
}
use dsh_full_remote.Prelude.Text.{Text, codes, text_eq, trim, to_lower, index_of}
use dsh_full_remote.Net.Headers.{one, many, number, absent, Headers}
use dsh_full_remote.Net.Hosts.{decimal}
use dsh_full_remote.Cidr.Numbers.{digits_from}
use dsh_full_remote.Compress.Negotiate.{join_rows, is_digit}

-- `headerValues`
unfoldable pub header_values : Headers → Text → List Text
header_values [] name = []
header_values ((key, value) ∷ headers) name =
    let rest = header_values headers name in
    if not (text_eq (to_lower key) name) then rest else elim value [
      | absent ↦ rest
      | many rows ↦ rows ++ rest
      | one text ↦ text ∷ rest
      | number n ↦ decimal n ∷ rest
    ]

-- `hasHeader`
unfoldable pub has_header : Headers → Text → Bool
has_header headers name = any (λ e. text_eq (to_lower e.0) name) headers

-- The loop of `directives`: `part` is what was read since the last comma; none where a quote stays open.
unfoldable pub split_directives : Bool → Bool → Text → Text → Option (List Text)
split_directives quoted escaped part [] = if quoted || escaped then none else some (part ∷ [])
split_directives quoted escaped part (c ∷ s) =
    let parted = split_directives quoted false [] s in
    if escaped
    then split_directives quoted false (part ++ c ∷ []) s
    else if quoted && c == b'\\'
    then split_directives quoted true (part ++ c ∷ []) s
    else if c == b'"'
    then split_directives (not quoted) false (part ++ c ∷ []) s
    else if c == b',' && not quoted
    then elim parted [ none ↦ none | some parts ↦ some (part ∷ parts) ]
    else split_directives quoted false (part ++ c ∷ []) s

-- What `.` of an expression does not match.
abbrev pub is_line_end : ℕ → Bool
is_line_end c = c == 10 || c == 13 || c == 0x2028 || c == 0x2029

-- The text before a last quote, where there is one.
abbrev pub before_last_quote : Text → Option Text
before_last_quote [] = none
before_last_quote (c ∷ []) = if c == b'"' then some [] else none
before_last_quote (c ∷ d ∷ s) = elim (before_last_quote (d ∷ s)) [
  | none ↦ none
  | some text ↦ some (c ∷ text)
]

-- `value.replace(/^"(.*)"$/, '$1')`
unfoldable pub unquote : Text → Text
unquote [] = []
unquote (c ∷ s) = if not (c == b'"') then c ∷ s else elim (before_last_quote s) [
  | none ↦ c ∷ s
  | some text ↦ if any is_line_end text then c ∷ s else text
]

pub record Directive : Type 0 where
  pub name : Text
  pub value : Option Text

abbrev pub directive_of : Text → Directive
directive_of part = elim (index_of b'=' part) [
  | none ↦ record { name = to_lower (trim part); value = none }
  | some i ↦ record {
    name = to_lower (trim (take i part));
    value = some (unquote (trim (drop (i + 1) part)));
  }
]

abbrev pub directives_of : List Text → List Directive
directives_of [] = []
directives_of (part ∷ parts) =
    let rest = directives_of parts in
    if text_eq (trim part) [] then rest else directive_of part ∷ rest

-- `directives`
unfoldable pub directives : List Text → Option (List Directive)
directives values = elim (split_directives false false [] (join_rows values)) [
  | none ↦ none
  | some parts ↦ some (directives_of parts)
]

-- `/^\d+$/.test(value)`
abbrev pub is_digits : Text → Bool
is_digits [] = false
is_digits (c ∷ s) = all is_digit (c ∷ s)

-- `value === undefined || !/^\d+$/.test(value) || Number(value) === 0`
abbrev pub is_stale_age : Option Text → Bool
is_stale_age none = true
is_stale_age (some value) = not (is_digits value) || all (λ c. c == b'0') value

abbrev pub forbids : Bool → Directive → Bool
forbids response d =
    text_eq d.name (codes "no-store")
    || text_eq d.name (codes "no-cache")
    || (response && text_eq d.name (codes "must-revalidate"))
    || (text_eq d.name (codes "max-age") && is_stale_age d.value)

-- `forbidsCaching`
unfoldable pub forbids_caching : Headers → Bool → Bool
forbids_caching headers response =
    elim (directives (header_values headers (codes "cache-control"))) [
      | none ↦ true
      | some parsed ↦ any (forbids response) parsed
    ]

-- `deltaMilliseconds`: the product is a safe integer, or none.
unfoldable pub delta_milliseconds : Option Text → Option ℕ
delta_milliseconds none = none
delta_milliseconds (some value) =
    if not (is_digits value) then none else elim (digits_from 10 0 value) [
      | none ↦ none
      | some n ↦ if ltb (n * 1000) (2 ^ 53) then some (n * 1000) else none
    ]

-- `DEFAULT_TTL_MS`
abbrev pub default_ttl_ms : ℕ
default_ttl_ms = 5 * 60 * 1000

-- The date of the time 0.
abbrev pub epoch : ℕ
epoch = 8640000000000000

abbrev pub max_ages : List Directive → List (Option ℕ)
max_ages [] = []
max_ages (d ∷ l) =
    let rest = max_ages l in
    if text_eq d.name (codes "max-age") then delta_milliseconds d.value ∷ rest else rest

-- The age that all `max-age` directives agree on: none where one is malformed or two differ, and
-- `some none` where there is none.
abbrev pub agreed : List (Option ℕ) → Option (Option ℕ)
agreed [] = some none
agreed (none ∷ l) = none
agreed (some n ∷ l) = elim (agreed l) [
  | none ↦ none
  | some none ↦ some (some n)
  | some (some m) ↦ if n == m then some (some n) else none
]

-- The one value of a header: none where it is there in another number.
abbrev pub single : Headers → Text → Option (Option Text)
single headers name = elim (header_values headers name) [
  | [] ↦ if has_header headers name then none else some none
  | value ∷ [] ↦ some (some value)
  | value ∷ more ∷ rest ↦ if has_header headers name then none else some (some value)
]

module _ (date_parse : Text → Option ℕ) (to_utc_string : ℕ → Text) where
  -- `httpDate`
  unfoldable pub http_date : Text → Option ℕ
  http_date value = elim (date_parse value) [
    | none ↦ none
    | some date ↦ if text_eq (to_utc_string date) value then some date else none
  ]

  -- A field with a default, read by a function; none where it is malformed.
  abbrev pub read_field : Option (Option Text) → ℕ → (Text → Option ℕ) → Option ℕ
  read_field none default read = none
  read_field (some none) default read = some default
  read_field (some (some value)) default read = read value

  -- The end of `staticResponseTtlMs`.
  unfoldable pub remaining : ℕ → Option ℕ → (age date now : ℕ) → Option (Option Text) → ℕ
  remaining ttl max_age age date now none = 0
  remaining ttl max_age age date now (some none) =
      min ttl (elim max_age [ none ↦ ttl | some ms ↦ ms ] - max age (now - date))
  remaining ttl max_age age date now (some (some value)) = elim (http_date value) [
    | none ↦ 0
    | some expires ↦
        min ttl (elim max_age [ none ↦ expires - date | some ms ↦ ms ] - max age (now - date))
  ]

  -- Where the age or the date is malformed, nothing remains.
  abbrev pub aged_ttl : (max_age age date : Option ℕ) (now : ℕ) → Option (Option Text) → ℕ
  aged_ttl max_age none date now expires = 0
  aged_ttl max_age (some age) none now expires = 0
  aged_ttl max_age (some age) (some date) now expires =
      remaining default_ttl_ms max_age age date now expires

  abbrev pub agreed_ttl :
      Option (Option ℕ) → (age date : Option ℕ) (now : ℕ) → Option (Option Text) → ℕ
  agreed_ttl none age date now expires = 0
  agreed_ttl (some max_age) age date now expires = aged_ttl max_age age date now expires

  -- `staticResponseTtlMs`
  unfoldable pub static_response_ttl_ms : Headers → ℕ → ℕ
  static_response_ttl_ms headers now =
      if ltb now epoch || forbids_caching headers true
      then 0
      else elim (directives (header_values headers (codes "cache-control"))) [
        | none ↦ 0
        | some parsed ↦
            agreed_ttl (agreed (max_ages parsed))
              (read_field (single headers (codes "age")) 0
                (λ value. delta_milliseconds (some value)))
              (read_field (single headers (codes "date")) now http_date) now
              (single headers (codes "expires"))
      ]
