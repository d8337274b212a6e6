-- ===== src/Net/Headers.antt =====
-- src/proxy-headers.ts: the headers that are forwarded to the backend and those relayed to the
-- client. A header bag is a map from names to values; `undefined` and `null` are `absent`.
use dsh_full_remote.Prelude.{
  ℕ, Bool, true, false, not, ◌&&◌, ◌||◌, none, some, List, [], ◌∷◌, ◌++◌, any, if◌then◌else◌,
}
use dsh_full_remote.Prelude.Text.{Text, codes, text_eq, split, trim, to_lower}
use dsh_full_remote.Prelude.StrMap.{StrMap, get, set}
use dsh_full_remote.Net.Hosts.{decimal}

-- A value of `ProxyHeaders`
pub data HeaderValue : Type 0 where
  one : Text → HeaderValue
  many : List Text → HeaderValue
  number : ℕ → HeaderValue
  absent : HeaderValue

abbrev pub Headers : Type 0
Headers = StrMap HeaderValue

unfoldable pub is_absent : HeaderValue → Bool
is_absent absent = true
is_absent _ = false

-- `set.has(name)`
unfoldable pub member : Text → List Text → Bool
unfolding text_eq
member name names = any (text_eq name) names

-- `HOP_BY_HOP`
unfoldable pub hop_by_hop : List Text
hop_by_hop =
    codes "connection"
    ∷ codes "keep-alive"
    ∷ codes "proxy-authenticate"
    ∷ codes "proxy-authorization"
    ∷ codes "te"
    ∷ codes "trailer"
    ∷ codes "trailers"
    ∷ codes "transfer-encoding"
    ∷ codes "upgrade"
    ∷ []

-- `SPOOFABLE_FORWARDING`
unfoldable pub spoofable_forwarding : List Text
spoofable_forwarding =
    codes "forwarded"
    ∷ codes "x-forwarded-for"
    ∷ codes "x-forwarded-host"
    ∷ codes "x-forwarded-port"
    ∷ codes "x-forwarded-proto"
    ∷ codes "x-real-ip"
    ∷ codes "x-dsh-reverse-proxy"
    ∷ []

-- `INTERNAL_HEADERS`
unfoldable pub internal_headers : List Text
internal_headers = codes "cookie" ∷ codes "referer" ∷ codes "referrer" ∷ []

-- The inner loop of `connectionTokens`.
unfoldable pub named_tokens : List Text → List Text
named_tokens [] = []
named_tokens (token ∷ rest) =
    let normalized = to_lower (trim token) in
    let later = named_tokens rest in if text_eq normalized [] then later else normalized ∷ later

-- The outer loop of `connectionTokens`.
unfoldable pub value_tokens : List Text → List Text
value_tokens [] = []
value_tokens (value ∷ rest) = named_tokens (split b',' value) ++ value_tokens rest

-- `connectionTokens`: the value is taken as text, the absent one as the empty text.
unfoldable pub connection_tokens : Headers → List Text
connection_tokens headers = codes "proxy-connection" ∷ elim (get (codes "connection") headers) [
  | none ↦ value_tokens ([] ∷ [])
  | some absent ↦ value_tokens ([] ∷ [])
  | some (one value) ↦ value_tokens (value ∷ [])
  | some (number n) ↦ value_tokens (decimal n ∷ [])
  | some (many list) ↦ value_tokens list
]

-- The names that `forwardHeaders` does not copy.
unfoldable pub blocked : List Text → Text → Bool
blocked nominated lower =
    text_eq lower (codes "host")
    || member lower nominated
    || member lower hop_by_hop
    || member lower spoofable_forwarding
    || member lower internal_headers

-- The loop of `forwardHeaders`.
unfoldable pub copy_request : List Text → Headers → Headers → Headers
copy_request nominated [] out = out
copy_request nominated ((key, value) ∷ rest) out =
    let lower = to_lower key in
    copy_request nominated rest
      (if is_absent value || blocked nominated lower then out else set lower value out)

-- The names that `sanitizeHeaders` drops.
unfoldable pub dropped : List Text → List Text → Text → Bool
dropped keep nominated lower =
    text_eq lower (codes "set-cookie")
    || (member lower nominated && not (member lower keep))
    || (member lower hop_by_hop && not (member lower keep))

-- The loop of `sanitizeHeaders`, which keeps the spelling of the names.
unfoldable pub copy_response : List Text → List Text → Headers → Headers → Headers
copy_response keep nominated [] out = out
copy_response keep nominated ((key, value) ∷ rest) out =
    copy_response keep nominated rest
      (if is_absent value || dropped keep nominated (to_lower key) then out else set key value out)

-- `sanitizeHeaders`
unfoldable pub sanitize_headers : Headers → List Text → Headers
unfolding copy_response
sanitize_headers headers keep = copy_response keep (connection_tokens headers) headers []

-- `sanitizeResponseHeaders`
unfoldable pub sanitize_response_headers : Headers → Headers
sanitize_response_headers headers = sanitize_headers headers []

-- `sanitizeUpgradeResponseHeaders`
unfoldable pub sanitize_upgrade_response_headers : Headers → Headers
sanitize_upgrade_response_headers headers =
    sanitize_headers headers (codes "connection" ∷ codes "upgrade" ∷ [])
