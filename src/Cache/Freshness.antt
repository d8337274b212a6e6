-- ===== src/Cache/Freshness.antt =====
-- What is proved of the lifetimes of src/static-cache.ts.
use dsh_full_remote.Prelude.{
  ℕ, ◌-◌, ◌≤◌, min, max, ◌≡◌, refl, sym, ap, inl, inr, true, false, ◌&&◌, ◌||◌, Option, none, some,
  List, [], ◌∷◌, arith, any, ltb, leb, ◌==◌, Bool, not, if_both, if_split, get_or, all, Bool-cases,
  Option-cases,
}
use dsh_full_remote.Prelude.Text.{Text, codes, text_eq}
use dsh_full_remote.Net.Headers.{Headers}
use dsh_full_remote.Cache.Directives.{
  Directive, header_values, directives, forbids, forbids_caching, delta_milliseconds, max_ages,
  agreed, single, http_date, read_field, remaining, static_response_ttl_ms, default_ttl_ms, epoch,
  agreed_ttl, aged_ttl,
}
use mathlib.Core.List.{Memᴰ}
use mathlib.Core.List.Memᴰ.{head, tail}

agreed-nothing : (l : List (Option ℕ)) (n : ℕ) → agreed l ≡ some none → ¬ Memᴰ (some n) l
agreed-nothing [] n h m = elim m [ ]
agreed-nothing (none ∷ l) n h m = ground arith
agreed-nothing (some k ∷ l) n h m = elim (Option-cases (agreed l)) [
  | inl e ↦ ground (arith, h, e)
  | inr (none, e) ↦ ground (arith, h, e)
  | inr (some j, e) ↦ elim (Bool-cases (k == j)) [
    | inl q ↦ ground (arith, h, e, q)
    | inr q ↦ ground (arith, h, e, q)
  ]
]

agreed-all : (l : List (Option ℕ)) (ms n : ℕ) → agreed l ≡ some (some ms) → Memᴰ (some n) l → n ≡ ms
agreed-all [] ms n h m = elim m [ ]
agreed-all (none ∷ l) ms n h m = ground arith
agreed-all (some k ∷ l) ms n h m = elim (Option-cases (agreed l)) [
  | inl e ↦ ground (arith, h, e)
  | inr (none, e) ↦ elim m [
    | head q ↦ ground (arith, h, e, q)
    | tail t ↦ absurd (agreed-nothing l n e t)
  ]
  | inr (some j, e) ↦ elim m [
    | head q ↦ ground (arith, h, e, q)
    | tail t ↦ ground (arith, h, e, agreed-all l j n e t)
  ]
]

max_ages-mem :
    (d : Directive) (l : List Directive)
    → text_eq d.name (codes "max-age") ≡ true
    → Memᴰ d l
    → Memᴰ (delta_milliseconds d.value) (max_ages l)
max_ages-mem d [] named m = elim m [ ]
max_ages-mem d (x ∷ l) named (head e) = rw (sym e, named) (head refl)
max_ages-mem d (x ∷ l) named (tail m) =
    if_both (Memᴰ (delta_milliseconds d.value)) (text_eq x.name (codes "max-age"))
      (tail (max_ages-mem d l named m)) (max_ages-mem d l named m)

agreed-missing : (l : List (Option ℕ)) → Memᴰ none l → agreed l ≡ none
agreed-missing [] m = elim m [ ]
agreed-missing (none ∷ l) m = refl
agreed-missing (some k ∷ l) (head e) = ground arith
agreed-missing (some k ∷ l) (tail m) = rw (agreed-missing l m) refl

-- A directive under which nothing may be kept, whatever its value.
abbrev pub is_prohibition : Directive → Bool
is_prohibition d =
    text_eq d.name (codes "no-store")
    || text_eq d.name (codes "no-cache")
    || text_eq d.name (codes "must-revalidate")

-- The directives cannot be read, or one of them is such.
abbrev pub is_prohibited : Option (List Directive) → Bool
is_prohibited none = true
is_prohibited (some parsed) = any is_prohibition parsed

-- A lifetime is not above what the directive says, if it is `max-age`.
abbrev pub respects : ℕ → Directive → Bool
respects ttl d =
    not (text_eq d.name (codes "max-age")) || leb ttl (get_or (delta_milliseconds d.value) 0)

not_prohibited :
    (parsed : List Directive)
    → any (forbids true) parsed ≡ false
    → any is_prohibition parsed ≡ false
not_prohibited [] h = refl
not_prohibited (d ∷ parsed) h = ground (arith, h, not_prohibited parsed)

respects_intro :
    (d : Directive) (ttl : ℕ)
    → (text_eq d.name (codes "max-age") ≡ true → ttl ≤ get_or (delta_milliseconds d.value) 0)
    → respects ttl d ≡ true
respects_intro d ttl f = elim (Bool-cases (text_eq d.name (codes "max-age"))) [
  | inl e ↦ ground (arith, e, f e)
  | inr e ↦ ground (arith, e)
]

all-mem :
    {p : Directive → Bool} (l : List Directive)
    → ((d : Directive) → Memᴰ d l → p d ≡ true)
    → all p l ≡ true
all-mem [] f = refl
all-mem (d ∷ l) f = ground (arith, f d (head refl), all-mem l (λ x m. f x (tail m)))

module _ (date_parse : Text → Option ℕ) (to_utc_string : ℕ → Text) where
  remaining_le :
      (ttl : ℕ) (max_age : Option ℕ) (age date now : ℕ) (expires : Option (Option Text))
      → remaining date_parse to_utc_string ttl max_age age date now expires ≤ ttl
  unfolding remaining
  remaining_le ttl max_age age date now none = omega arith
  remaining_le ttl max_age age date now (some none) = omega arith
  remaining_le ttl max_age age date now (some (some value)) =
      elim (http_date date_parse to_utc_string value)
        as (λ o.
          elim o [
            | none ↦ 0
            | some expires ↦
                min ttl
                  (elim max_age [ none ↦ expires - date | some ms ↦ ms ] - max age (now - date))
          ]
          ≤ ttl) [ none ↦ omega arith | some x ↦ omega arith ]

  remaining_age :
      (ttl ms age date now : ℕ) (expires : Option (Option Text))
      → remaining date_parse to_utc_string ttl (some ms) age date now expires ≤ ms
  unfolding remaining
  remaining_age ttl ms age date now none = omega arith
  remaining_age ttl ms age date now (some none) = omega arith
  remaining_age ttl ms age date now (some (some value)) =
      elim (http_date date_parse to_utc_string value)
        as (λ o. elim o [ none ↦ 0 | some expires ↦ min ttl (ms - max age (now - date)) ] ≤ ms) [
          | none ↦ omega arith
          | some x ↦ omega arith
        ]

  aged_ttl_le :
      (max_age age date : Option ℕ) (now : ℕ) (expires : Option (Option Text))
      → aged_ttl date_parse to_utc_string max_age age date now expires ≤ default_ttl_ms
  aged_ttl_le max_age none date now expires = omega arith
  aged_ttl_le max_age (some age) none now expires = omega arith
  aged_ttl_le max_age (some age) (some date) now expires =
      remaining_le default_ttl_ms max_age age date now expires

  agreed_ttl_le :
      (max_age : Option (Option ℕ)) (age date : Option ℕ) (now : ℕ) (expires : Option (Option Text))
      → agreed_ttl date_parse to_utc_string max_age age date now expires ≤ default_ttl_ms
  agreed_ttl_le none age date now expires = omega arith
  agreed_ttl_le (some max_age) age date now expires = aged_ttl_le max_age age date now expires

  aged_ttl_age :
      (ms : ℕ) (age date : Option ℕ) (now : ℕ) (expires : Option (Option Text))
      → aged_ttl date_parse to_utc_string (some ms) age date now expires ≤ ms
  aged_ttl_age ms none date now expires = omega arith
  aged_ttl_age ms (some age) none now expires = omega arith
  aged_ttl_age ms (some age) (some date) now expires =
      remaining_age default_ttl_ms ms age date now expires

  agreed_ttl_age :
      (ages : List (Option ℕ)) (ms : ℕ) (age date : Option ℕ) (now : ℕ)
      (expires : Option (Option Text))
      → Memᴰ (some ms) ages
      → agreed_ttl date_parse to_utc_string (agreed ages) age date now expires ≤ ms
  agreed_ttl_age ages ms age date now expires m = elim (Option-cases (agreed ages)) [
    | inl e ↦ rw e (omega arith)
    | inr (none, e) ↦ absurd (agreed-nothing ages ms e m)
    | inr (some n, e) ↦
        rw (e, sym (agreed-all ages n ms e m)) (aged_ttl_age ms age date now expires)
  ]

  forbids_caching-any :
      (headers : Headers) (parsed : List Directive)
      → directives (header_values headers (codes "cache-control")) ≡ some parsed
      → forbids_caching headers true ≡ any (forbids true) parsed
  unfolding forbids_caching
  forbids_caching-any headers parsed h =
      ap (λ o. elim o [ none ↦ true | some l ↦ any (forbids true) l ]) h

  agreed_ttl_missing :
      (ages : List (Option ℕ)) (o : Option ℕ) (age date : Option ℕ) (now : ℕ)
      (expires : Option (Option Text))
      → Memᴰ o ages
      → agreed_ttl date_parse to_utc_string (agreed ages) age date now expires ≤ get_or o 0
  agreed_ttl_missing ages (some ms) age date now expires m =
      agreed_ttl_age ages ms age date now expires m
  agreed_ttl_missing ages none age date now expires m = rw (agreed-missing ages m) (omega arith)

  -- The lifetime is 0, or what the directives that are read agree on.
  static_response_ttl_ms-cases :
      (P : ℕ → Type 0) (headers : Headers) (now : ℕ)
      → P 0
      → ((parsed : List Directive) (age date : Option ℕ)
          → directives (header_values headers (codes "cache-control")) ≡ some parsed
          → any (forbids true) parsed ≡ false
          → P (
              agreed_ttl date_parse to_utc_string
                (agreed (max_ages parsed))
                age
                date
                now
                (single headers (codes "expires"))))
      → P (static_response_ttl_ms date_parse to_utc_string headers now)
  unfolding static_response_ttl_ms
  static_response_ttl_ms-cases P headers now nothing f =
      let age =
        read_field date_parse to_utc_string (single headers (codes "age")) 0
          (λ value. delta_milliseconds (some value)) in
      let date =
        read_field date_parse to_utc_string (single headers (codes "date")) now
          (http_date date_parse to_utc_string) in
      if_split P (ltb now epoch || forbids_caching headers true) (λ t. nothing)
        (λ passes.
          elim (Option-cases (directives (header_values headers (codes "cache-control")))) [
            | inl e ↦ rw e nothing
            | inr (parsed, e) ↦
                rw e (
                  f parsed age date e
                    (ground (arith, passes, forbids_caching-any headers parsed e)))
          ])

  -- Whatever its headers are, a response is kept for no more than five minutes. It is kept for no time where
  -- `Cache-Control` cannot be read or has `no-store`, `no-cache` or `must-revalidate`, and for no longer than
  -- any `max-age` says, where one that is malformed says 0.
  pub static_response_ttl_ms_bounds :
      (headers : Headers) (now : ℕ)
      → let ttl = static_response_ttl_ms date_parse to_utc_string headers now in
        let parsed = directives (header_values headers (codes "cache-control")) in
        (ttl ≤ default_ttl_ms)
        × ((is_prohibited parsed && ltb 0 ttl) ≡ false)
        × (all (respects ttl) (get_or parsed []) ≡ true)
  static_response_ttl_ms_bounds headers now = (
    static_response_ttl_ms-cases (λ t. t ≤ default_ttl_ms) headers now (omega arith)
        (λ parsed age date e f.
          agreed_ttl_le (agreed (max_ages parsed)) age date now (single headers (codes "expires"))),
    static_response_ttl_ms-cases
        (λ t.
          (is_prohibited (directives (header_values headers (codes "cache-control"))) && ltb 0 t)
          ≡ false)
        headers now (ground arith)
        (λ parsed age date e f. ground (arith, e, not_prohibited parsed f)),
    static_response_ttl_ms-cases
        (λ t.
          all (respects t) (get_or (directives (header_values headers (codes "cache-control"))) [])
          ≡ true)
        headers now
        (all-mem (get_or (directives (header_values headers (codes "cache-control"))) [])
          (λ d m. respects_intro d 0 (λ named. omega arith)))
        (λ parsed age date e f. rw e (
          all-mem parsed (λ d m.
            respects_intro d
              (agreed_ttl date_parse to_utc_string (agreed (max_ages parsed)) age date now
                (single headers (codes "expires")))
              (λ named.
                agreed_ttl_missing (max_ages parsed) (delta_milliseconds d.value) age date now
                  (single headers (codes "expires")) (max_ages-mem d parsed named m))))),
  )
