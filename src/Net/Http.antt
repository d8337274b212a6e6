-- ===== src/Net/Http.antt =====
-- src/http-util.ts: `readBody` and `escapeHtml`. A body arrives as its chunks, then the end of the
-- stream.
use dsh_full_remote.Prelude.{
  ℕ, ◌+◌, Bool, true, false, Option, none, some, List, [], ◌∷◌, ◌++◌, ltb, ◌==◌, length,
  if◌then◌else◌,
}
use dsh_full_remote.Prelude.Text.{Text, codes}

abbrev pub Bytes : Type 0
Bytes = List ℕ

-- The variables of the promise, and what it has been settled with.
pub record Body : Type 0 where
  pub chunks : List Bytes
  pub size : ℕ
  pub over_limit : Bool
  pub rejected : Bool

abbrev pub no_body : Body
no_body = record { chunks = []; size = 0; over_limit = false; rejected = false }

-- The `data` listener.
unfoldable pub on_data : ℕ → Body → Bytes → Body
on_data limit b chunk =
    if b.over_limit
    then b
    else let size = b.size + length chunk in
      if ltb limit size
      then record { chunks = []; size = size; over_limit = true; rejected = true }
      else record b { chunks = b.chunks ++ (chunk ∷ []); size = size }

unfoldable pub on_chunks : ℕ → Body → List Bytes → Body
on_chunks limit b [] = b
on_chunks limit b (chunk ∷ rest) = on_chunks limit (on_data limit b chunk) rest

-- `Buffer.concat`
abbrev pub concat : List Bytes → Bytes
concat [] = []
concat (c ∷ cs) = c ++ concat cs

-- The `end` listener: a promise that has been rejected stays so.
unfoldable pub on_end : Body → Option Bytes
on_end b = if b.rejected then none else some (concat b.chunks)

-- `readBody` of a stream that ends: `none` is the rejection with 'body-too-large'.
unfoldable pub read_body : ℕ → List Bytes → Option Bytes
read_body limit stream = on_end (on_chunks limit no_body stream)

-- One code unit under the five replacements of `escapeHtml`, which run one after the other: the
-- ampersand first, so that no replacement touches another's output.
unfoldable pub escape_char : ℕ → Text
escape_char c =
    if c == b'&'
    then codes "&amp;"
    else if c == b'<'
    then codes "&lt;"
    else if c == b'>'
    then codes "&gt;"
    else if c == 34
    then codes "&quot;"
    else if c == 39
    then codes "&#39;"
    else c ∷ []

-- `s.replaceAll(c, by)` for one code unit.
unfoldable pub replace_all : ℕ → Text → Text → Text
replace_all c by [] = []
replace_all c by (x ∷ s) = (if x == c then by else x ∷ []) ++ replace_all c by s

-- `escapeHtml`
unfoldable pub escape_html : Text → Text
unfolding replace_all
escape_html value = replace_all 39 (codes "&#39;") (
    replace_all 34 (codes "&quot;") (
      replace_all b'>' (codes "&gt;")
        (replace_all b'<' (codes "&lt;") (replace_all b'&' (codes "&amp;") value))))
