-- ===== src/Net/Bodies.antt =====
-- Bodies and escaping against their plain descriptions, and the self-loop test of a backend that
-- `validateBackendHost` lets pass.
use dsh_full_remote.Prelude.{
  ℕ, ◌+◌, ◌≤◌, ◌≡◌, refl, ◌∙◌, ap, true, false, ◌&&◌, ◌||◌, none, some, List, [], ◌∷◌, ◌++◌, ltb,
  leb, ◌==◌, ==_iff, length, length-append, if◌then◌else◌, arith, Bool-cases, inl, inr,
}
use dsh_full_remote.Prelude.Text.{Text, codes, text_eq_iff}
use dsh_full_remote.Net.Http.{
  Bytes, Body, no_body, on_data, on_chunks, on_end, concat, read_body, replace_all, escape_char,
  escape_html,
}
use dsh_full_remote.Net.Hosts.{
  is_wildcard_host, is_loopback_host, is_self_loop, validate_backend_host,
}

append_assoc : (a b c : Bytes) → (a ++ b) ++ c ≡ a ++ (b ++ c)
append_assoc [] b c = refl
append_assoc (x ∷ a) b c = cc (append_assoc a b c)

append_nil : (a : Bytes) → a ++ [] ≡ a
append_nil [] = refl
append_nil (x ∷ a) = cc (append_nil a)

concat-snoc : (cs : List Bytes) (c : Bytes) → concat (cs ++ (c ∷ [])) ≡ concat cs ++ c
concat-snoc [] c = append_nil c
concat-snoc (x ∷ cs) c = cc (concat-snoc cs c, append_assoc x (concat cs) c)

-- Past the limit the promise stays rejected.
on_chunks-over :
    (limit : ℕ) (b : Body) (stream : List Bytes)
    → b.over_limit ≡ true
    → on_chunks limit b stream ≡ b
unfolding on_chunks on_data
on_chunks-over limit b [] o = refl
on_chunks-over limit b (chunk ∷ rest) o =
    let ignored : on_data limit b chunk ≡ b = ground (arith, o) in
    ap (λ x. on_chunks limit x rest) ignored ∙ on_chunks-over limit b rest o

-- Up to the limit the promise keeps every byte.
on_chunks-within :
    (limit : ℕ) (b : Body) (stream : List Bytes)
    → b.over_limit ≡ false
    → b.rejected ≡ false
    → b.size ≤ limit
    → on_end (on_chunks limit b stream) ≡ (
        if leb (b.size + length (concat stream)) limit
        then some (concat b.chunks ++ concat stream)
        else none)
unfolding on_chunks on_data on_end
on_chunks-within limit b [] o r s = ground (arith, append_nil (concat b.chunks), r, s)
on_chunks-within limit b (chunk ∷ rest) o r s =
    let size = b.size + length chunk in
    elim (Bool-cases (ltb limit size)) [
      | inl e ↦
          let over : Body = record {
            chunks = [];
            size = size;
            over_limit = true;
            rejected = true;
          } in
          ground
            (arith, o, e, on_chunks-over limit over rest refl, length-append chunk (concat rest))
      | inr e ↦
          let kept : Body = record b { chunks = b.chunks ++ (chunk ∷ []); size = size } in
          ground (
            arith,
            o,
            e,
            on_chunks-within limit kept rest o r (ground (arith, e)),
            length-append chunk (concat rest),
            concat-snoc b.chunks chunk,
            append_assoc (concat b.chunks) chunk (concat rest),
          )
    ]

-- `readBody` gives the whole body exactly when it has at most `limit` bytes, however the stream is
-- cut into chunks.
pub read_body_lem :
    (limit : ℕ) (stream : List Bytes)
    → read_body limit stream
      ≡ (if leb (length (concat stream)) limit then some (concat stream) else none)
unfolding read_body
read_body_lem limit stream =
    ground (arith, on_chunks-within limit no_body stream refl refl (omega arith))

-- Escaping character by character.
abbrev pub escape_each : Text → Text
escape_each [] = []
escape_each (c ∷ s) = escape_char c ++ escape_each s

replace_all-append :
    (c : ℕ) (by s t : Text) → replace_all c by (s ++ t) ≡ replace_all c by s ++ replace_all c by t
unfolding replace_all
replace_all-append c by [] t = refl
replace_all-append c by (x ∷ s) t = cc (
  replace_all-append c by s t,
  append_assoc (if x == c then by else x ∷ []) (replace_all c by s) (replace_all c by t),
)

-- The four replacements after that of the ampersand.
unfoldable escape_rest : Text → Text
escape_rest s = replace_all 39 (codes "&#39;") (
    replace_all 34 (codes "&quot;")
      (replace_all b'>' (codes "&gt;") (replace_all b'<' (codes "&lt;") s)))

escape_rest-append : (s t : Text) → escape_rest (s ++ t) ≡ escape_rest s ++ escape_rest t
unfolding escape_rest
escape_rest-append s t = simp replace_all-append

-- None of the five reads what another one wrote.
escape_rest-char :
    (c : ℕ) → escape_rest (if c == b'&' then codes "&amp;" else c ∷ []) ≡ escape_char c
unfolding escape_rest replace_all escape_char
escape_rest-char c = elim (Bool-cases (c == b'&')) [
  | inl e ↦ rw ((==_iff c 38).0 e) refl
  | inr e ↦ elim (Bool-cases (c == b'<')) [
    | inl f ↦ rw ((==_iff c 60).0 f) refl
    | inr f ↦ elim (Bool-cases (c == b'>')) [
      | inl g ↦ rw ((==_iff c 62).0 g) refl
      | inr g ↦ elim (Bool-cases (c == 34)) [
        | inl h ↦ rw ((==_iff c 34).0 h) refl
        | inr h ↦ rw (e, f, g, h) (rw (append_nil (if c == 39 then codes "&#39;" else c ∷ [])) refl)
      ]
    ]
  ]
]

-- The five replacements of `escapeHtml`, one after the other, escape each character once.
pub escape_html_lem : (value : Text) → escape_html value ≡ escape_each value
unfolding escape_html replace_all escape_rest
escape_html_lem [] = refl
escape_html_lem (c ∷ value) =
    escape_rest-append (if c == b'&' then codes "&amp;" else c ∷ [])
      (replace_all b'&' (codes "&amp;") value)
    ∙ cc (escape_rest-char c, escape_html_lem value)

-- For a backend that `validateBackendHost` accepts, `isSelfLoop` holds exactly when the ports
-- are equal and the listen host is a wildcard or loopback.
pub is_self_loop_lem :
    (listen_host backend_host : Text) (listen_port backend_port : ℕ)
    → validate_backend_host backend_host ≡ none
    → is_self_loop listen_host listen_port backend_host backend_port ≡ (
        (listen_port == backend_port)
        && (is_wildcard_host listen_host || is_loopback_host listen_host))
unfolding is_self_loop validate_backend_host
is_self_loop_lem listen_host backend_host listen_port backend_port v =
    ground (arith, v, text_eq_iff listen_host backend_host)
