-- ===== src/Security.antt =====
-- src/security.ts: comparison of secrets and cookie parsing.
use mathlib.Core.List.{append-nil}
use dsh_full_remote.Prelude.{
  ℕ, ◌+◌, ◌-◌, ◌*◌, ◌/◌, ◌%◌, ◌<◌, ◌≡◌, refl, ◌↔◌, Bool, true, false, ◌&&◌, Option, none, some,
  List, [], ◌∷◌, ◌++◌, arith, ltb, leb, ◌==◌, if◌then◌else◌, get_or, length, take, drop, All,
  Bool-cases, inl, inr, ap, sym, ◌∙◌, subst, zero, suc, ◌⊎◌,
}
use dsh_full_remote.Prelude.Text.{Text, text_eq, text_eq_iff, text_eq_refl, index_of, trim, split}
use dsh_full_remote.Prelude.StrMap.{StrMap, set}

abbrev is_high_surrogate : ℕ → Bool
is_high_surrogate c = leb 0xd800 c && leb c 0xdbff

abbrev is_low_surrogate : ℕ → Bool
is_low_surrogate c = leb 0xdc00 c && leb c 0xdfff

-- The UTF-8 bytes of one code point; a lone surrogate is written as U+FFFD.
abbrev utf8_char : ℕ → List ℕ
utf8_char c =
    if ltb c 0x80
    then c ∷ []
    else if ltb c 0x800
    then (0xc0 + c / 0x40) ∷ (0x80 + c % 0x40) ∷ []
    else if leb 0xd800 c && leb c 0xdfff
    then 0xef ∷ 0xbf ∷ 0xbd ∷ []
    else if ltb c 0x10000
    then (0xe0 + c / 0x1000) ∷ (0x80 + c / 0x40 % 0x40) ∷ (0x80 + c % 0x40) ∷ []
    else (0xf0 + c / 0x40000)
      ∷ (0x80 + c / 0x1000 % 0x40)
      ∷ (0x80 + c / 0x40 % 0x40)
      ∷ (0x80 + c % 0x40)
      ∷ []

-- The code point of a surrogate pair.
abbrev join_surrogates : ℕ → ℕ → ℕ
join_surrogates hi lo = 0x10000 + (hi - 0xd800) * 0x400 + (lo - 0xdc00)

-- `Buffer.from(s)`: the UTF-8 bytes of a string.
unfoldable pub utf8 : Text → List ℕ
utf8 [] = []
utf8 (c ∷ []) = utf8_char c
utf8 (c ∷ d ∷ s) =
    let paired = utf8_char (join_surrogates c d) ++ utf8 s in
    let single = utf8_char c ++ utf8 (d ∷ s) in
    if is_high_surrogate c && is_low_surrogate d then paired else single

-- `safeEqual`: buffers of different lengths differ; else `timingSafeEqual` compares the bytes.
unfoldable pub safe_equal : Text → Text → Bool
unfolding utf8
safe_equal actual expected =
    let left = utf8 actual in
    let right = utf8 expected in if length left == length right then text_eq left right else false

-- `parseCookies`: one field of the header.
parse_cookie_field : Text → StrMap Text → StrMap Text
parse_cookie_field field cookies = elim (index_of b'=' field) [
  | none ↦ cookies
  | some at ↦
      if ltb at 1
      then cookies
      else let key = trim (take at field) in
        let value = trim (drop (at + 1) field) in
        if ltb 0 (length key) then set key value cookies else cookies
]

parse_cookie_fields : List Text → StrMap Text → StrMap Text
parse_cookie_fields [] cookies = cookies
parse_cookie_fields (f ∷ fs) cookies = parse_cookie_fields fs (parse_cookie_field f cookies)

-- `parseCookies`: the last field of a name wins.
unfoldable pub parse_cookies : Option Text → StrMap Text
unfolding parse_cookie_field parse_cookie_fields
parse_cookies header = parse_cookie_fields (split b';' (get_or header [])) []

abbrev pub IsAscii : Text → Type 0
IsAscii = All (λ c. c < 0x80)

-- A character that is not ASCII starts with a byte that is not.
utf8_char-head :
    (c : ℕ) (rest t : List ℕ) → utf8_char c ++ rest ≡ t → IsAscii t → (c < 0x80) × (c ∷ rest ≡ t)
utf8_char-head c rest [] e h = ground arith
utf8_char-head c rest (b ∷ t) e h = ground arith

utf8_pair :
    (c d : ℕ) (s : Text)
    → (utf8 (c ∷ d ∷ s) ≡ utf8_char c ++ utf8 (d ∷ s))
      ⊎ (utf8 (c ∷ d ∷ s) ≡ utf8_char (join_surrogates c d) ++ utf8 s)
unfolding utf8
utf8_pair c d s = elim (Bool-cases (is_high_surrogate c && is_low_surrogate d)) [
  | inl e ↦ inr (rw e)
  | inr e ↦ inl (rw e)
]

utf8-ascii_sound : (n : ℕ) (s : Text) → length s < n → IsAscii (utf8 s) → s ≡ utf8 s
utf8-ascii_sound zero s lt h = absurd (omega arith)
utf8-ascii_sound (suc n) [] lt h = unfold utf8 in refl
utf8-ascii_sound (suc n) (c ∷ []) lt h =
    (utf8_char-head c [] (utf8 (c ∷ [])) (unfold utf8 in append-nil (utf8_char c)) h).1
utf8-ascii_sound (suc n) (c ∷ d ∷ s) lt h = elim (utf8_pair c d s) [
  | inl e ↦
      let head = utf8_char-head c (utf8 (d ∷ s)) _ (sym e) h in
      let tail : IsAscii (utf8 (d ∷ s)) = (subst IsAscii (sym head.1) h).1 in
      ap (◌∷◌ c) (utf8-ascii_sound n (d ∷ s) (omega arith) tail) ∙ head.1
  | inr e ↦ absurd (omega (arith, (utf8_char-head (join_surrogates c d) (utf8 s) _ (sym e) h).0))
]

utf8-ascii : (s : Text) → IsAscii s → utf8 s ≡ s
unfolding utf8
utf8-ascii [] h = refl
utf8-ascii (c ∷ []) h = ground arith
utf8-ascii (c ∷ d ∷ s) h = ground (arith, utf8-ascii (d ∷ s) h.1)

-- `safeEqual` accepts exactly the expected secret, when that is ASCII: no other string, of any
-- characters, has the same bytes.
pub safe_equal_iff :
    (actual expected : Text)
    → IsAscii expected
    → (safe_equal actual expected ≡ true) ↔ (actual ≡ expected)
unfolding safe_equal
safe_equal_iff actual expected h = (
  λ e.
      let same : utf8 actual ≡ expected =
        ground (arith, text_eq_iff (utf8 actual) (utf8 expected), utf8-ascii expected h) in
      utf8-ascii_sound (suc (length actual)) actual (omega arith) (subst IsAscii (sym same) h)
      ∙ same,
  λ e. ground (arith, text_eq_iff (utf8 actual) (utf8 expected)),
)

pub safe_equal_refl : (a : Text) → safe_equal a a ≡ true
unfolding safe_equal
safe_equal_refl a = ground (arith, text_eq_refl (utf8 a))
