-- ===== src/Sessions/Cookie.antt =====
-- src/sessions.ts: the cookie value `id.secret`.
use native.Mathlib.Numerals.{add-one}
use dsh_full_remote.Prelude.{
  Option-cases, inl, inr, length-append, ℕ, ◌+◌, ◌-◌, ◌≡◌, refl, false, ◌||◌, Option, none, some,
  [], ◌∷◌, ◌++◌, arith, ltb, ◌==◌, if◌then◌else◌, get_or, length, take, drop, ap, ◌<◌, suc, zero,
}
use dsh_full_remote.Prelude.Text.{Text, index_of, includes}

-- `encodeSessionCookie`.
unfoldable pub encode_session_cookie : Text → Text → Text
encode_session_cookie id secret = id ++ (b'.' ∷ secret)

-- `decodeSessionCookie`; `at < 1` covers -1, the missing dot.
unfoldable pub decode_session_cookie : Option Text → Option (Text × Text)
decode_session_cookie value =
    let text = get_or value [] in
    elim (index_of b'.' text) [
      | none ↦ none
      | some at ↦
          if ltb at 1 || at == length text - 1
          then none
          else some (take at text, drop (at + 1) text)
    ]

index_of-append :
    (c : ℕ) (s t : Text) → includes c s ≡ false → index_of c (s ++ (c ∷ t)) ≡ some (length s)
unfolding index_of includes
index_of-append c [] t h = ground arith
index_of-append c (x ∷ s) t h = ground (arith, index_of-append c s t)

take-length : (s t : Text) → take (length s) (s ++ t) ≡ s
take-length [] t = refl
take-length (x ∷ s) t = ap (◌∷◌ x) (take-length s t)

drop-length : (s t : Text) (c : ℕ) → drop (suc (length s)) (s ++ (c ∷ t)) ≡ t
drop-length [] t c = refl
drop-length (x ∷ s) t c = drop-length s t c

-- Where the first occurrence of `c` stands.
index_of-split :
    (c : ℕ) (s : Text) (i : ℕ)
    → index_of c s ≡ some i
    → (s ≡ take i s ++ (c ∷ drop (suc i) s))
      × (includes c (take i s) ≡ false)
      × (length (take i s) ≡ i)
      × (i + length (drop (suc i) s) + 1 ≡ length s)
unfolding index_of includes
index_of-split c [] i e = cc
index_of-split c (x ∷ s) zero e = (ground arith, refl, refl, omega arith)
index_of-split c (x ∷ s) (suc i) e =
    let ih = index_of-split c s i (ground arith) in
    (ap (◌∷◌ x) ih.0, ground (arith, ih.1), omega (arith, ih.2), omega (arith, ih.3))

-- The cookie of an id without a dot and a secret, neither empty, decodes to that id and secret.
pub decode-encode :
    (id secret : Text)
    → includes b'.' id ≡ false
    → 0 < length id
    → 0 < length secret
    → decode_session_cookie (some (encode_session_cookie id secret)) ≡ some (id, secret)
unfolding decode_session_cookie encode_session_cookie
decode-encode id secret h p q = ground (
  arith,
  index_of-append b'.' id secret h,
  take-length id (b'.' ∷ secret),
  drop-length id secret b'.',
  add-one (length id),
  length-append id (b'.' ∷ secret),
)

-- What decodes was the encoding of its parts, neither of which is empty, and the id has no dot.
pub encode-decode :
    (value id secret : Text)
    → decode_session_cookie (some value) ≡ some (id, secret)
    → (value ≡ encode_session_cookie id secret)
      × (includes b'.' id ≡ false)
      × (0 < length id)
      × (0 < length secret)
unfolding decode_session_cookie encode_session_cookie
encode-decode value id secret e = elim (Option-cases (index_of b'.' value)) [
  | inl h ↦ absurd (ground (arith, h))
  | inr (at, h) ↦ ground (arith, index_of-split b'.' value at h, add-one at)
]
