-- ===== src/Persist.antt =====
-- src/persist.ts: `normalizeState`, what is kept of a parsed state file. Each field is what the parsed
-- value has there; `other` is any value of another type, and `number_other` a number that is no
-- natural one.
use dsh_full_remote.Prelude.{
  ℕ, ◌≡◌, refl, Bool, false, not, ◌&&◌, ◌||◌, Option, none, some, List, arith, ltb, leb, ◌==◌,
  length, any, if◌then◌else◌,
}
use dsh_full_remote.Prelude.Text.{Text, is_space}

-- A value that `JSON.parse` gives; the elements of an array are `A`.
pub data Json (A : Type 0) : Type 0 where
  undefined : Json A
  boolean : Bool → Json A
  string : Text → Json A
  natural : ℕ → Json A
  number_other : Json A
  array : List A → Json A
  other : Json A

-- The fields that `normalizeState` reads; a parsed `null` has `undefined` in each.
pub record Parsed (A : Type 0) : Type 0 where
  pub enabled : Json A
  pub access_token : Json A
  pub listen_host : Json A
  pub listen_port : Json A
  pub sessions : Json A

-- `PersistedState`
pub record PersistedState (A : Type 0) : Type 0 where
  pub enabled : Bool
  pub access_token : Option Text
  pub listen_host : Option Text
  pub listen_port : Option ℕ
  pub sessions : Option (List A)

-- `/[\s/\\]/.test(listenHost)` finds one of these.
unfoldable pub is_forbidden : ℕ → Bool
unfolding is_space
is_forbidden c = is_space c || (c == b'/') || (c == 92)

module _ {A : Type 0} where
  unfoldable pub kept_token : Json A → Option Text
  kept_token (string t) = if leb 24 (length t) then some t else none
  kept_token _ = none

  unfoldable pub kept_host : Json A → Option Text
  kept_host (string h) =
      if ltb 0 (length h) && (leb (length h) 253 && not (any is_forbidden h)) then some h else none
  kept_host _ = none

  unfoldable pub kept_port : Json A → Option ℕ
  kept_port (natural n) = if leb n 65535 then some n else none
  kept_port _ = none

  unfoldable pub kept_sessions : Json A → Option (List A)
  kept_sessions (array l) = some l
  kept_sessions _ = none

  unfoldable pub is_true : Json A → Bool
  is_true (boolean b) = b
  is_true _ = false

  -- `normalizeState`
  unfoldable pub normalize_state : Parsed A → PersistedState A
  unfolding kept_token kept_host kept_port kept_sessions is_true
  normalize_state p = record {
    enabled = is_true p.enabled;
    access_token = kept_token p.access_token;
    listen_host = kept_host p.listen_host;
    listen_port = kept_port p.listen_port;
    sessions = kept_sessions p.sessions;
  }

  -- What `JSON.stringify` of a state leaves for the next `JSON.parse`: a missing field is absent.
  abbrev pub text_field : Option Text → Json A
  text_field none = undefined
  text_field (some t) = string t

  abbrev pub number_field : Option ℕ → Json A
  number_field none = undefined
  number_field (some n) = natural n

  abbrev pub array_field : Option (List A) → Json A
  array_field none = undefined
  array_field (some l) = array l

  abbrev pub written : PersistedState A → Parsed A
  written s = record {
    enabled = boolean s.enabled;
    access_token = text_field s.access_token;
    listen_host = text_field s.listen_host;
    listen_port = number_field s.listen_port;
    sessions = array_field s.sessions;
  }

  token_again : (j : Json A) → kept_token (text_field (kept_token j)) ≡ kept_token j
  unfolding kept_token
  token_again (string t) = ground arith
  token_again undefined = refl
  token_again (boolean b) = refl
  token_again (natural n) = refl
  token_again number_other = refl
  token_again (array l) = refl
  token_again other = refl

  host_again : (j : Json A) → kept_host (text_field (kept_host j)) ≡ kept_host j
  unfolding kept_host
  host_again (string t) = ground arith
  host_again undefined = refl
  host_again (boolean b) = refl
  host_again (natural n) = refl
  host_again number_other = refl
  host_again (array l) = refl
  host_again other = refl

  port_again : (j : Json A) → kept_port (number_field (kept_port j)) ≡ kept_port j
  unfolding kept_port
  port_again (natural n) = ground arith
  port_again undefined = refl
  port_again (boolean b) = refl
  port_again (string t) = refl
  port_again number_other = refl
  port_again (array l) = refl
  port_again other = refl

  sessions_again : (o : Option (List A)) → kept_sessions (array_field o) ≡ o
  unfolding kept_sessions
  sessions_again none = refl
  sessions_again (some l) = refl

  -- A state that was read, written and read again is the same state, whatever the file held.
  pub normalize_state-written :
      (p : Parsed A) → normalize_state (written (normalize_state p)) ≡ normalize_state p
  unfolding normalize_state is_true
  normalize_state-written p = cc (
    token_again p.access_token,
    host_again p.listen_host,
    port_again p.listen_port,
    sessions_again (kept_sessions p.sessions),
  )
