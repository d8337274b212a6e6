-- ===== src/Relay/Cached.antt =====
-- src/proxy.ts: the answer of `proxyRequest` out of the cache. Dates are counted as in the directives of the
-- cache; `number_of` is `Number` of a header's text, where it is a natural number.
use dsh_full_remote.Prelude.{
  ℕ, ◌+◌, ◌-◌, ◌*◌, ◌/◌, ◌≤◌, ◌<◌, max, Bool, false, ◌||◌, Option, none, some, List, [], ◌∷◌, ◌++◌,
  ◌==◌, leb, any, get_or, length, if◌then◌else◌, arith,
}
use dsh_full_remote.Prelude.Text.{Text, codes, text_eq, trim}
use dsh_full_remote.Prelude.StrMap.{set}
use dsh_full_remote.Net.Headers.{HeaderValue, one, many, number, absent, Headers, is_absent}
use dsh_full_remote.Net.Hosts.{decimal}
use dsh_full_remote.Compress.Negotiate.{join_rows}
use dsh_full_remote.Cache.Store.{Response, Millis, safe, unsafe}
use dsh_full_remote.Cache.Admission.{without_prefix}
use dsh_full_remote.Relay.Prepare.{header_of}

-- The answers: 304 with its headers, or 200 with the stored body.
pub data CachedReply : Type 0 where
  not_modified : Headers → CachedReply
  hit : Headers → List ℕ → CachedReply

-- The texts in quotes, with their quotes, that `/(?:W\/)?"[^"]*"/g` finds; `tag` is what was read since a
-- quote that opens.
abbrev pub quoted_tags : Option Text → Text → List Text
quoted_tags tag [] = []
quoted_tags none (c ∷ s) = if c == b'"' then quoted_tags (some (c ∷ [])) s else quoted_tags none s
quoted_tags (some tag) (c ∷ s) =
    let rest = quoted_tags none s in
    if c == b'"' then (tag ++ c ∷ []) ∷ rest else quoted_tags (some (tag ++ c ∷ [])) s

-- `tag.replace(/^W\//, '')`
abbrev pub strip_weak : Text → Text
strip_weak tag = get_or (without_prefix (codes "W/") tag) tag

-- `matches`
unfoldable pub none_match_matches : HeaderValue → HeaderValue → Bool
none_match_matches (one etag) (one none_match) =
    text_eq (trim none_match) (codes "*")
    || any (text_eq (strip_weak etag)) (quoted_tags none none_match)
none_match_matches _ _ = false

-- The headers that a 304 repeats.
unfoldable pub validator_names : List Text
validator_names =
    codes "etag"
    ∷ codes "last-modified"
    ∷ codes "cache-control"
    ∷ codes "vary"
    ∷ codes "expires"
    ∷ codes "date"
    ∷ []

abbrev pub copy_names : List Text → Headers → Headers → Headers
copy_names [] from to = to
copy_names (name ∷ names) from to =
    let value = header_of name from in
    copy_names names from (if is_absent value then to else set name value to)

-- `String(value ?? '')`
abbrev pub header_string : HeaderValue → Text
header_string absent = []
header_string (one text) = text
header_string (number n) = decimal n
header_string (many rows) = join_rows rows

-- `cached.receivedAt ?? Date.now()`; the cache lets no unsafe one in.
abbrev pub received_or : Option Millis → ℕ → ℕ
received_or none now = now
received_or (some unsafe) now = now
received_or (some (safe at)) now = at

-- `age`, of the age that the stored headers state, in seconds, and their date.
unfoldable pub age_seconds : ℕ → Option ℕ → (received_at now : ℕ) → ℕ
age_seconds stated origin received_at now =
    (max (stated * 1000) (elim origin [ none ↦ 0 | some date ↦ received_at - date ])
      + now
      - received_at
      + 999)
    / 1000

module _ (date_parse number_of : Text → Option ℕ) where
  -- `unmodified`
  unfoldable pub is_unmodified : (none_match since modified : HeaderValue) → Bool
  is_unmodified absent (one since) (one modified) = elim (date_parse modified) [
    | none ↦ false
    | some changed ↦ elim (date_parse since) [ none ↦ false | some seen ↦ leb changed seen ]
  ]
  is_unmodified _ _ _ = false

  -- The `Age` that is sent.
  unfoldable pub age_text : Response Headers → ℕ → Text
  age_text cached now =
      let received_at = received_or cached.received_at now in
      let origin = date_parse (header_string (header_of (codes "date") cached.headers)) in
      elim (header_of (codes "age") cached.headers) [
        | absent ↦ decimal (age_seconds 0 origin received_at now)
        | number n ↦ decimal (age_seconds n origin received_at now)
        | one text ↦ elim (number_of text) [
          | none ↦ codes "NaN"
          | some stated ↦ decimal (age_seconds stated origin received_at now)
        ]
        | many rows ↦ elim (number_of (join_rows rows)) [
          | none ↦ codes "NaN"
          | some stated ↦ decimal (age_seconds stated origin received_at now)
        ]
      ]

  -- The branch of `proxyRequest` on a hit.
  unfoldable pub serve_cached : Headers → Response Headers → ℕ → CachedReply
  serve_cached request cached now =
      let none_match = header_of (codes "if-none-match") request in
      let age = one (age_text cached now) in
      if none_match_matches (header_of (codes "etag") cached.headers) none_match
        || is_unmodified none_match (header_of (codes "if-modified-since") request)
            (header_of (codes "last-modified") cached.headers)
      then not_modified (set (codes "age") age (copy_names validator_names cached.headers []))
      else hit
          (set (codes "content-length") (number (length cached.body))
            (set (codes "age") age cached.headers))
          cached.body

-- The age that is sent is no less than the age that the backend stated and the time since the response came,
-- taken together, and exceeds them by less than a second where no date says more.
pub age_seconds_bounds :
    (stated received_at waited : ℕ) (origin : Option ℕ)
    → (stated * 1000 + waited ≤ 1000 * age_seconds stated origin received_at (received_at + waited))
      × (1000 * age_seconds stated none received_at (received_at + waited)
          < stated * 1000 + waited + 1000)
unfolding age_seconds
age_seconds_bounds stated received_at waited none = (omega arith, omega arith)
age_seconds_bounds stated received_at waited (some date) = (omega arith, omega arith)
