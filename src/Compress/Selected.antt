-- ===== src/Compress/Selected.antt =====
-- What is proved of the choice of a coding in src/proxy-compress.ts.
use dsh_full_remote.Prelude.{
  ℕ, ◌≤◌, ◌<◌, ◌≡◌, ap, ◌∙◌, ◌⊎◌, inl, inr, min, max, not, ◌||◌, Option, none, some, List, [], ◌∷◌,
  arith, ◌==◌, ltb, leb, get_or, if◌then◌else◌, Bool-cases,
}
use dsh_full_remote.Prelude.Text.{
  Text, codes, text_eq, text_eq_iff, split, trim, to_lower, lower_char,
}
use dsh_full_remote.Prelude.StrMap.{StrMap, get, get-set}
use dsh_full_remote.Compress.Negotiate.{
  decimals, quality, weight, parse_q, skip_blanks, is_coding, declaration, set_preferences,
  encoding_preferences, choose, declare_weight, encoding_q, ContentEncoding, br, gzip,
  select_content_encoding, join_rows,
}

-- The lower one of two weights, where none is no weight.
abbrev pub lower_of : Option ℕ → Option ℕ → Option ℕ
lower_of none b = b
lower_of (some a) none = some a
lower_of (some a) (some b) = some (min a b)

abbrev pub weight_for : Text → Option (Text × ℕ) → Option ℕ
weight_for token none = none
weight_for token (some (coding, q)) = if text_eq coding token then some q else none

-- The lowest weight that the parts declare for a coding.
abbrev pub lowest : Text → List Text → Option ℕ
lowest token [] = none
lowest token (part ∷ parts) = lower_of (weight_for token (declaration part)) (lowest token parts)

decimals-le : (s : Text) → get_or (decimals s) 0 ≤ 999
decimals-le [] = ground arith
decimals-le (a ∷ []) = ground arith
decimals-le (a ∷ b ∷ []) = ground arith
decimals-le (a ∷ b ∷ c ∷ []) = ground arith
decimals-le (a ∷ b ∷ c ∷ d ∷ s) = ground arith

quality-le : (s : Text) → get_or (quality s) 0 ≤ 1000
unfolding quality
quality-le [] = ground arith
quality-le (c ∷ []) = ground arith
quality-le (c ∷ p ∷ s) = ground (arith, decimals-le s)

weight-le : (s : Text) → get_or (weight s) 0 ≤ 1000
unfolding weight
weight-le [] = ground arith
weight-le (q ∷ s) =
    elim (skip_blanks s)
      as (λ x.
        get_or
          (if not (lower_char q == b'q') then none else elim x as (λ y. Option ℕ) [
            | [] ↦ none
            | e ∷ rest ↦ if e == b'=' then quality (skip_blanks rest) else none
          ])
          0
        ≤ 1000) [ [] ↦ ground arith | e ∷ rest ↦ ground (arith, quality-le (skip_blanks rest)) ]

-- A weight is at most 1.
parse_q-le : (params : List Text) → parse_q params ≤ 1000
unfolding parse_q
parse_q-le [] = ground arith
parse_q-le (param ∷ []) = weight-le (trim param)
parse_q-le (param ∷ more ∷ rest) = ground arith

abbrev pub IsWeight : Option (Text × ℕ) → Type 0
IsWeight none = Unit {0}
IsWeight (some (token, q)) = q ≤ 1000

declaration-IsWeight : (part : Text) → IsWeight (declaration part)
unfolding declaration
declaration-IsWeight part =
    elim (split b';' (trim part))
      as (λ x. IsWeight (elim x as (λ y. Option (Text × ℕ)) [
        | [] ↦ none
        | coding ∷ params ↦
            if is_coding (to_lower (trim coding))
            then some (to_lower (trim coding), parse_q params)
            else none
      ])) [
        | [] ↦ tt
        | coding ∷ params ↦ elim (Bool-cases (is_coding (to_lower (trim coding)))) [
          | inl e ↦ rw e (parse_q-le params)
          | inr e ↦ rw e tt
        ]
      ]

get-declare_weight :
    (token : Text) (d : Option (Text × ℕ)) (m : StrMap ℕ)
    → IsWeight d
    → get token (declare_weight d m) ≡ lower_of (get token m) (weight_for token d)
get-declare_weight token none m w = ground arith
get-declare_weight token (some (coding, q)) m w =
    ground
      (arith, get-set coding token (min (get_or (get coding m) 1000) q) m, text_eq_iff coding token)

lower_of_assoc : (a b c : Option ℕ) → lower_of (lower_of a b) c ≡ lower_of a (lower_of b c)
lower_of_assoc a b c = ground arith

get-set_preferences :
    (token : Text) (parts : List Text) (m : StrMap ℕ)
    → get token (set_preferences parts m) ≡ lower_of (get token m) (lowest token parts)
unfolding set_preferences
get-set_preferences token [] m = ground arith
get-set_preferences token (part ∷ parts) m =
    get-set_preferences token parts (declare_weight (declaration part) m)
    ∙ ap (λ w. lower_of w (lowest token parts))
        (get-declare_weight token (declaration part) m (declaration-IsWeight part))
    ∙ lower_of_assoc (get token m) (weight_for token (declaration part)) (lowest token parts)

-- The weight kept for a coding is the lowest one that a part of the header declares for it, in whatever
-- order and rows the parts come.
pub get-encoding_preferences :
    (rows : List Text) (token : Text)
    → get token (encoding_preferences rows) ≡ lowest token (split b',' (join_rows rows))
unfolding encoding_preferences get
get-encoding_preferences rows token = get-set_preferences token (split b',' (join_rows rows)) []

-- The choice among the weights of the two codings and of `identity`.
abbrev pub IsChoice : ℕ → ℕ → ℕ → Option ContentEncoding → Type 0
IsChoice br_q gzip_q identity (some br) = (0 < br_q) × (gzip_q ≤ br_q) × (identity ≤ br_q)
IsChoice br_q gzip_q identity (some gzip) = (br_q < gzip_q) × (identity ≤ gzip_q)
IsChoice br_q gzip_q identity none =
    ((br_q ≡ 0) × (gzip_q ≡ 0)) ⊎ ((br_q < identity) × (gzip_q < identity))

choose-IsChoice :
    (br_q gzip_q identity : ℕ) → IsChoice br_q gzip_q identity (choose br_q gzip_q identity)
choose-IsChoice br_q gzip_q identity =
    elim (Bool-cases (max br_q gzip_q == 0 || ltb (max br_q gzip_q) identity)) [
      | inl e ↦ rw e (ground (arith, e))
      | inr e ↦ elim (Bool-cases (leb gzip_q br_q)) [
        | inl f ↦ rw (e, f) (ground (arith, e, f))
        | inr f ↦ rw (e, f) (ground (arith, e, f))
      ]
    ]

-- The coding that is chosen is advertised with a weight above 0 that no other coding and no explicit
-- `identity` exceeds, Brotli where the weights are the same; where none is chosen, both weights
-- are 0 or `identity` exceeds both.
pub select_content_encoding-IsChoice :
    (rows : List Text)
    → IsChoice
        (get_or (encoding_q rows (codes "br")) 0)
        (get_or (encoding_q rows (codes "gzip")) 0)
        (get_or (get (codes "identity") (encoding_preferences rows)) 0)
        (select_content_encoding rows)
unfolding select_content_encoding encoding_q
select_content_encoding-IsChoice rows =
    choose-IsChoice (get_or (encoding_q rows (codes "br")) 0)
      (get_or (encoding_q rows (codes "gzip")) 0)
      (get_or (get (codes "identity") (encoding_preferences rows)) 0)
