-- ===== src/Compress/Present.antt =====
-- Which headers the steps of src/proxy-compress.ts leave where they are.
use dsh_full_remote.Prelude.{
  ◌≡◌, refl, sym, subst, ◌∙◌, ◌⊎◌, inl, inr, true, false, Option, none, some, [], ◌∷◌, ◌++◌, arith,
  get_or, Bool-cases, Option-cases,
}
use dsh_full_remote.Prelude.Text.{Text, codes, text_eq, text_eq_iff, to_lower, starts_with}
use dsh_full_remote.Prelude.StrMap.{get, set, get-set}
use dsh_full_remote.Net.Headers.{HeaderValue, one, many, number, absent, Headers}
use dsh_full_remote.Compress.Rewrite.{
  header_key, delete_key, delete_header, weaken_etag, merge_accept_encoding_vary, vary_value,
  vary_parts, unique_parts, with_accept_encoding,
}

-- No header of the name is left.
pub header_key-delete_key : (name : Text) (h : Headers) → header_key name (delete_key name h) ≡ none
unfolding header_key delete_key
header_key-delete_key name [] = refl
header_key-delete_key name ((k, v) ∷ h) = ground (arith, header_key-delete_key name h)

header_key-delete_key_other :
    (name other : Text) (h : Headers)
    → text_eq other name ≡ false
    → header_key name (delete_key other h) ≡ header_key name h
unfolding header_key delete_key
header_key-delete_key_other name other [] d = refl
header_key-delete_key_other name other ((k, v) ∷ h) d = ground (
  arith,
  header_key-delete_key_other name other h,
  text_eq_iff (to_lower k) name,
  text_eq_iff (to_lower k) other,
  text_eq_iff other name,
)

get-delete_key :
    (name key : Text) (h : Headers)
    → text_eq (to_lower key) name ≡ false
    → get key (delete_key name h) ≡ get key h
unfolding get delete_key
get-delete_key name key [] d = refl
get-delete_key name key ((k, v) ∷ h) d =
    ground (arith, get-delete_key name key h, text_eq_iff k key)

header_key-set :
    (name key : Text) (v : HeaderValue) (h : Headers)
    → text_eq (to_lower key) name ≡ false
    → header_key name (set key v h) ≡ header_key name h
unfolding header_key set
header_key-set name key v [] d = ground arith
header_key-set name key v ((k, w) ∷ h) d =
    ground (arith, header_key-set name key v h, text_eq_iff k key)

pub header_key-set_new :
    (name : Text) (v : HeaderValue) (h : Headers)
    → text_eq (to_lower name) name ≡ true
    → header_key name h ≡ none
    → header_key name (set name v h) ≡ some name
unfolding header_key set
header_key-set_new name v [] d e = ground arith
header_key-set_new name v ((k, w) ∷ h) d e =
    ground (arith, header_key-set_new name v h, text_eq_iff k name)

header_key-lower :
    (name key : Text) (h : Headers)
    → header_key name h ≡ some key
    → text_eq (to_lower key) name ≡ true
unfolding header_key
header_key-lower name key [] e = ground arith
header_key-lower name key ((k, v) ∷ h) e = ground (arith, header_key-lower name key h)

-- A header that is there under its own name.
abbrev pub IsAt : Text → Option HeaderValue → Headers → Type 0
IsAt name none h = header_key name h ≡ none
IsAt name (some v) h = (header_key name h ≡ some name) × (get name h ≡ some v)

-- A name that an operation leaves alone.
abbrev pub Differs : Text → Text → Type 0
Differs key name = text_eq (to_lower key) name ≡ false

pub set-IsAt :
    (name key : Text) (v : HeaderValue) (w : Option HeaderValue) (h : Headers)
    → text_eq (to_lower name) name ≡ true
    → Differs key name
    → IsAt name w h
    → IsAt name w (set key v h)
set-IsAt name key v none h l d a = header_key-set name key v h d ∙ a
set-IsAt name key v (some x) h l d (a, b) = (
  header_key-set name key v h d ∙ a,
  ground (arith, get-set key name v h, text_eq_iff key name, b),
)

pub delete_key-IsAt :
    (name other : Text) (w : Option HeaderValue) (h : Headers)
    → text_eq (to_lower name) name ≡ true
    → text_eq other name ≡ false
    → IsAt name w h
    → IsAt name w (delete_key other h)
delete_key-IsAt name other none h l d a = header_key-delete_key_other name other h d ∙ a
delete_key-IsAt name other (some x) h l d (a, b) = (
  header_key-delete_key_other name other h d ∙ a,
  get-delete_key other name h (
        ground (
          arith,
          text_eq_iff (to_lower name) name,
          text_eq_iff other name,
          text_eq_iff (to_lower name) other,
        ))
      ∙ b,
)

key-Differs :
    (name other key : Text) (h : Headers)
    → text_eq other name ≡ false
    → header_key other h ≡ some key
    → Differs key name
key-Differs name other key h d e = ground (
  arith,
  header_key-lower other key h e,
  text_eq_iff (to_lower key) other,
  text_eq_iff (to_lower key) name,
  text_eq_iff other name,
)

weaken_etag-cases :
    (h : Headers)
    → (weaken_etag h ≡ h)
      ⊎ ((key : Text) × (v : HeaderValue) × (header_key (codes "etag") h ≡ some key)
          × (weaken_etag h ≡ set key v h))
unfolding weaken_etag
weaken_etag-cases h = elim (Option-cases (header_key (codes "etag") h)) [
  | inl e ↦ inl (rw (weaken_etag, e) refl)
  | inr (key, e) ↦ elim (Option-cases (get key h)) [
    | inl g ↦ inl (rw (weaken_etag, e, g) refl)
    | inr (many rows, g) ↦ inl (rw (weaken_etag, e, g) refl)
    | inr (number n, g) ↦ inl (rw (weaken_etag, e, g) refl)
    | inr (absent, g) ↦ inl (rw (weaken_etag, e, g) refl)
    | inr (one etag, g) ↦ elim (Bool-cases (starts_with (codes "\"") etag)) [
      | inr s ↦ inl (rw (weaken_etag, e, g, s) refl)
      | inl s ↦ inr (key, one (codes "W/" ++ etag), e, rw (weaken_etag, e, g, s) refl)
    ]
  ]
]

pub weaken_etag-IsAt :
    (name : Text) (w : Option HeaderValue) (h : Headers)
    → text_eq (to_lower name) name ≡ true
    → text_eq (codes "etag") name ≡ false
    → IsAt name w h
    → IsAt name w (weaken_etag h)
weaken_etag-IsAt name w h l d a = elim (weaken_etag-cases h) [
  | inl e ↦ subst (IsAt name w) (sym e) a
  | inr (key, v, k, e) ↦
      subst (IsAt name w) (sym e)
        (set-IsAt name key v w h l (key-Differs name (codes "etag") key h d k) a)
]

pub merge_accept_encoding_vary-IsAt :
    (name : Text) (w : Option HeaderValue) (h : Headers)
    → text_eq (to_lower name) name ≡ true
    → text_eq (codes "vary") name ≡ false
    → IsAt name w h
    → IsAt name w (merge_accept_encoding_vary h)
unfolding merge_accept_encoding_vary delete_header to_lower
merge_accept_encoding_vary-IsAt name w h l d a =
    set-IsAt name (get_or (header_key (codes "vary") h) (codes "vary"))
      (one (vary_value (with_accept_encoding (unique_parts [] (vary_parts h))))) w
      (delete_key (codes "vary") h) l
      (elim (Option-cases (header_key (codes "vary") h)) [
        | inl e ↦ rw e d
        | inr (key, e) ↦ rw e (key-Differs name (codes "vary") key h d e)
      ])
      (delete_key-IsAt name (codes "vary") w h l d a)
