-- ===== src/Relay/Prompt.antt =====
-- src/proxy.ts: which requests get the first-byte window of a command. The path of a URL and the parse of a
-- body are the platform's.
use dsh_full_remote.Prelude.{
  ℕ, zero, suc, ◌*◌, Bool, true, false, not, ◌&&◌, Option, none, some, List, [], ◌∷◌, length, any,
  if◌then◌else◌, get_or, ◌⊎◌, inl, inr, ◌≡◌, refl, ap, ◌∙◌, arith, ltb, leb,
}
use dsh_full_remote.Prelude.Text.{Text, codes, text_eq, text_eq_iff, starts_with}
use dsh_full_remote.Net.Headers.{member}
use dsh_full_remote.Compress.Body.{upper_char}

-- What `JSON.parse` gives; a key stands once among the members.
mutual
  pub data Value : Type 0 where
    null : Value
    boolean : Bool → Value
    numeric : Value
    string : Text → Value
    array : Values → Value
    object : Members → Value

  pub data Values : Type 0 where
    no_values : Values
    value_then : Value → Values → Values

  pub data Members : Type 0 where
    no_members : Members
    member_then : Text → Value → Members → Members

-- `record[key]`; none is `undefined`.
unfoldable pub field : Text → Members → Option Value
field key no_members = none
field key (member_then name value members) =
    let rest = field key members in if text_eq name key then some value else rest

-- The first that is found.
unfoldable pub or_else {ℓ} : {A : Type ℓ} → Option A → Option A → Option A
or_else none second = second
or_else (some found) second = some found

-- `contentArrayOf`, where the number is how many objects may still be opened.
unfoldable pub content_array_of : ℕ → Option Value → Option Values
content_array_of zero value = none
content_array_of (suc n) (some (object members)) =
    let nested = or_else (content_array_of n (field (codes "payload") members)) (
      or_else (content_array_of n (field (codes "request") members))
        (content_array_of n (field (codes "args") members))) in
    elim (field (codes "content") members) [
      | some (array content) ↦ some content
      | some _ ↦ nested
      | none ↦ nested
    ]
content_array_of (suc n) _ = none

abbrev pub is_text : Option Value → Text → Bool
is_text (some (string text)) expected = text_eq text expected
is_text _ expected = false

abbrev pub is_slash_text : Option Value → Bool
is_slash_text (some (string text)) = starts_with (codes "/") text
is_slash_text _ = false

-- The one part of a command line.
abbrev pub is_command_part : Option Values → Bool
is_command_part (some (value_then (object part) no_values)) =
    is_text (field (codes "type") part) (codes "text") && is_slash_text (field (codes "text") part)
is_command_part _ = false

-- The depths 0 to 3.
abbrev pub content_depth : ℕ
content_depth = 4

-- `promptBodyIsSlashCommand`, of a parsed body; none is a body that `JSON.parse` throws at.
unfoldable pub prompt_body_is_slash_command : Option Value → Bool
prompt_body_is_slash_command parsed = is_command_part (content_array_of content_depth parsed)

-- `isCommandExecutePath`
unfoldable pub is_command_execute_path : Text → Bool
is_command_execute_path pathname = text_eq pathname (codes "/api/commands/execute")

-- `PROMPT_CARRIER_PATHS`
unfoldable pub prompt_carrier_paths : List Text
prompt_carrier_paths = codes "/api/session.prompt" ∷ codes "/api/session/prompt" ∷ []

-- `isPromptCarrierPath`
unfoldable pub is_prompt_carrier_path : Text → Bool
is_prompt_carrier_path pathname = member pathname prompt_carrier_paths

-- `COMMAND_SNIFF_LIMIT_BYTES`
abbrev pub command_sniff_limit_bytes : ℕ
command_sniff_limit_bytes = 64 * 1024

abbrev pub upper : Text → Text
upper [] = []
upper (c ∷ s) = upper_char c ∷ upper s

-- `inboundMethodHasBody`
unfoldable pub inbound_method_has_body : Option Text → Bool
inbound_method_has_body method =
    let verb = upper (get_or method (codes "GET")) in
    not (text_eq verb (codes "GET")) && not (text_eq verb (codes "HEAD"))

-- An object of one member.
abbrev pub only : Text → Value → Value
only key value = object (member_then key value no_members)

-- A body in objects of one member each, the outermost one's key first.
abbrev pub wrapped : List Text → Value → Value
wrapped [] value = value
wrapped (key ∷ keys) value = only key (wrapped keys value)

-- The keys that are searched.
abbrev pub carrier_keys : List Text
carrier_keys = codes "payload" ∷ codes "request" ∷ codes "args" ∷ []

abbrev pub are_carriers : List Text → Bool
are_carriers [] = true
are_carriers (key ∷ keys) = any (text_eq key) carrier_keys && are_carriers keys

-- `{ content: [{ type: 'text', text }] }`
abbrev pub command_body : Text → Value
command_body text = only (codes "content") (
    array (
      value_then
        (object (
          member_then (codes "type") (string (codes "text"))
            (member_then (codes "text") (string text) no_members)))
        no_values))

content_array_of-none : (n : ℕ) → content_array_of n none ≡ none
unfolding content_array_of
content_array_of-none zero = refl
content_array_of-none (suc n) = refl

or_else-none : {A : Type 0} (o : Option A) → or_else o none ≡ o
unfolding or_else
or_else-none none = refl
or_else-none (some a) = refl

-- What is found under one key only is found.
found_once :
    (a b c o : Option Values)
    → ((a ≡ o) × (b ≡ none) × (c ≡ none))
      ⊎ ((a ≡ none) × (b ≡ o) × (c ≡ none))
      ⊎ ((a ≡ none) × (b ≡ none) × (c ≡ o))
    → or_else a (or_else b c) ≡ o
unfolding or_else
found_once a b c o (inl (p, q, r)) = rw (p, q, r) (or_else-none o)
found_once a b c o (inr (inl (p, q, r))) = rw (p, q, r) (or_else-none o)
found_once a b c o (inr (inr (p, q, r))) = rw (p, q, r) refl

carrier-cases :
    (key : Text)
    → any (text_eq key) carrier_keys ≡ true
    → (key ≡ codes "payload") ⊎ (key ≡ codes "request") ⊎ (key ≡ codes "args")
carrier-cases key h = ground (
  arith,
  h,
  text_eq_iff key (codes "payload"),
  text_eq_iff key (codes "request"),
  text_eq_iff key (codes "args"),
)

-- One object of a carrier's key is opened at each depth.
content_array_of-only :
    (n : ℕ) (key : Text) (value : Value)
    → any (text_eq key) carrier_keys ≡ true
    → content_array_of (suc n) (some (only key value)) ≡ content_array_of n (some value)
unfolding content_array_of field text_eq
content_array_of-only n key value h =
    let nothing = content_array_of-none n in
    let o = content_array_of n (some value) in
    elim (carrier-cases key h) [
      | inl e ↦ rw e (
          found_once o (content_array_of n none) (content_array_of n none) o
            (inl (refl, nothing, nothing)))
      | inr (inl e) ↦ rw e (
          found_once (content_array_of n none) o (content_array_of n none) o
            (inr (inl (nothing, refl, nothing))))
      | inr (inr e) ↦ rw e (
          found_once (content_array_of n none) (content_array_of n none) o o
            (inr (inr (nothing, nothing, refl))))
    ]

is_command_part-wrapped :
    (n : ℕ) (keys : List Text) (text : Text)
    → are_carriers keys ≡ true
    → is_command_part (content_array_of n (some (wrapped keys (command_body text))))
      ≡ (ltb (length keys) n && starts_with (codes "/") text)
unfolding content_array_of field text_eq
is_command_part-wrapped zero keys text h = ground arith
is_command_part-wrapped (suc n) [] text h = ground arith
is_command_part-wrapped (suc n) (key ∷ keys) text h =
    let rest = is_command_part-wrapped n keys text (ground (arith, h)) in
    ap is_command_part
      (content_array_of-only n key (wrapped keys (command_body text)) (ground (arith, h)))
    ∙ rest
    ∙ ground arith

-- A body that is a text of a prompt in no more than three objects of the searched keys is a command line
-- exactly if the text begins with a slash; in more of them it is never one.
pub prompt_body_is_slash_command-wrapped :
    (keys : List Text) (text : Text)
    → are_carriers keys ≡ true
    → prompt_body_is_slash_command (some (wrapped keys (command_body text)))
      ≡ (leb (length keys) 3 && starts_with (codes "/") text)
unfolding prompt_body_is_slash_command
prompt_body_is_slash_command-wrapped keys text h =
    is_command_part-wrapped 4 keys text h ∙ ground arith
