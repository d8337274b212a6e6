-- ===== src/Cache/Keys.antt =====
-- What is proved of the keys of src/static-cache.ts.
use dsh_full_remote.Prelude.{
  ℕ, ◌+◌, ◌-◌, ◌*◌, ◌≡◌, refl, sym, ap, ◌∙◌, inl, inr, Option, none, some, List, [], ◌∷◌, ◌++◌,
  arith, ltb, ◌==◌, if◌then◌else◌, Bool-cases,
}
use dsh_full_remote.Prelude.Text.{Text, codes}
use dsh_full_remote.Net.Headers.{Headers}
use dsh_full_remote.Cache.Directives.{header_values}
use dsh_full_remote.Cache.Admission.{
  escape, escaped_onto, quoted_onto, more_rows, json_rows, cache_key, is_keyed,
  static_cache_request_key,
}

abbrev hex_value : ℕ → ℕ
hex_value d = if ltb d 58 then d - 48 else d - 87

abbrev short_value : ℕ → ℕ
short_value e =
    if e == b'b'
    then 8
    else if e == b't'
    then 9
    else if e == b'n'
    then 10
    else if e == b'f'
    then 12
    else if e == b'r'
    then 13
    else e

abbrev long_value : Text → Option (ℕ × Text)
long_value (a ∷ b ∷ h ∷ l ∷ rest) = some (16 * hex_value h + hex_value l, rest)
long_value _ = none

abbrev escape_value : Text → Option (ℕ × Text)
escape_value [] = none
escape_value (e ∷ rest) = if e == b'u' then long_value rest else some (short_value e, rest)

-- Reads a code unit of a string back: none at its end.
abbrev unescape : Text → Option (ℕ × Text)
unescape [] = none
unescape (c ∷ rest) =
    if c == 34 then none else if c == 92 then escape_value rest else some (c, rest)

unescape-escape : (c : ℕ) (rest : Text) → unescape (escape c ++ rest) ≡ some (c, rest)
unfolding escape
unescape-escape c rest = ground arith

end_escaped : (rest : Text) → unescape (34 ∷ rest) ≡ none
end_escaped rest = refl

none_some : {A C : Type 0} {a : A} → none ≡ some a → C
none_some e = absurd cc

some_pair :
    (c d : ℕ) (a b : Text)
    → ◌≡◌ {A = Option (ℕ × Text)} (some (c, a)) (some (d, b))
    → (c ≡ d) × (a ≡ b)
some_pair c d a b e = (cc, cc)

-- Where two strings in quotes begin equal texts, they are equal, and so is what follows them.
escaped_onto_injective :
    (s t rest rest' : Text) → escaped_onto s rest ≡ escaped_onto t rest' → (s ≡ t) × (rest ≡ rest')
unfolding escaped_onto
escaped_onto_injective [] [] rest rest' e = (refl, cc)
escaped_onto_injective [] (d ∷ t) rest rest' e =
    none_some (sym (end_escaped rest) ∙ ap unescape e ∙ unescape-escape d (escaped_onto t rest'))
escaped_onto_injective (c ∷ s) [] rest rest' e =
    none_some
      (sym (end_escaped rest') ∙ ap unescape (sym e) ∙ unescape-escape c (escaped_onto s rest))
escaped_onto_injective (c ∷ s) (d ∷ t) rest rest' e =
    let both = some_pair c d (escaped_onto s rest) (escaped_onto t rest') (
      sym (unescape-escape c (escaped_onto s rest))
      ∙ ap unescape e
      ∙ unescape-escape d (escaped_onto t rest')) in
    let others = escaped_onto_injective s t rest rest' both.1 in (cc (both.0, others.0), others.1)

quoted_onto_injective :
    (s t rest rest' : Text) → quoted_onto s rest ≡ quoted_onto t rest' → (s ≡ t) × (rest ≡ rest')
quoted_onto_injective s t rest rest' e = escaped_onto_injective s t rest rest' cc

more_rows_injective : (rows rows' : List Text) → more_rows rows ≡ more_rows rows' → rows ≡ rows'
more_rows_injective [] [] e = refl
more_rows_injective [] (row ∷ rows) e = ground arith
more_rows_injective (row ∷ rows) [] e = ground arith
more_rows_injective (row ∷ rows) (row' ∷ rows') e =
    let here : (row ≡ row') × (more_rows rows ≡ more_rows rows') =
      quoted_onto_injective row row' (more_rows rows) (more_rows rows') cc in
    let rest = more_rows_injective rows rows' here.1 in cc

rows_of_injective : (rows rows' : List Text) → json_rows rows ≡ json_rows rows' → rows ≡ rows'
rows_of_injective [] [] e = refl
rows_of_injective [] (row ∷ rows) e = ground arith
rows_of_injective (row ∷ rows) [] e = ground arith
rows_of_injective (row ∷ rows) (row' ∷ rows') e =
    let here : (row ≡ row') × (more_rows rows ≡ more_rows rows') =
      quoted_onto_injective row row' (more_rows rows) (more_rows rows') cc in
    let rest = more_rows_injective rows rows' here.1 in cc

cache_key_injective :
    (id url : Text) (rows : List Text) (id' url' : Text) (rows' : List Text)
    → cache_key id url rows ≡ cache_key id' url' rows'
    → (id ≡ id') × (url ≡ url') × (rows ≡ rows')
unfolding cache_key
cache_key_injective id url rows id' url' rows' e =
    let ids =
      quoted_onto_injective id id' (b',' ∷ quoted_onto url (b',' ∷ b'[' ∷ json_rows rows))
        (b',' ∷ quoted_onto url' (b',' ∷ b'[' ∷ json_rows rows')) cc in
    let urls =
      quoted_onto_injective url url' (b',' ∷ b'[' ∷ json_rows rows) (b',' ∷ b'[' ∷ json_rows rows')
        (cc (ids.1)) in
    let encodings = rows_of_injective rows rows' (cc (urls.1)) in (ids.0, urls.0, encodings)

key_of :
    (query_names : Text → List Text) (method url : Text) (headers : Headers) (id : Text) {k : Text}
    → static_cache_request_key query_names method url headers id ≡ some k
    → cache_key id url (header_values headers (codes "accept-encoding")) ≡ k
unfolding static_cache_request_key
key_of query_names method url headers id h =
    elim (Bool-cases (is_keyed query_names method url headers id)) [
      | inl e ↦ ground (arith, h, e)
      | inr e ↦ ground (arith, h, e)
    ]

-- Two requests that have the same key are of one session, ask for one URL and list the same encodings.
pub static_cache_request_key_shared :
    (query_names : Text → List Text) (method url : Text) (headers : Headers) (id : Text)
    (method' url' : Text) (headers' : Headers) (id' k : Text)
    → static_cache_request_key query_names method url headers id ≡ some k
    → static_cache_request_key query_names method' url' headers' id' ≡ some k
    → (id ≡ id')
      × (url ≡ url')
      × (header_values headers (codes "accept-encoding")
          ≡ header_values headers' (codes "accept-encoding"))
static_cache_request_key_shared query_names method url headers id method' url' headers' id' k h h' =
    cache_key_injective id url (header_values headers (codes "accept-encoding")) id' url'
      (header_values headers' (codes "accept-encoding"))
      (key_of query_names method url headers id h
        ∙ sym (key_of query_names method' url' headers' id' h'))
