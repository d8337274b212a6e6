-- ===== src/Sessions/Record.antt =====
-- src/sessions.ts: the state of the store. Times are milliseconds as natural numbers; an earlier
-- time than the one it is compared with gives an age of 0, as a negative age passes the same tests.
-- `ref` is the identity of the record object: it is fresh for each object that is created.
-- `changes` counts the calls of `onChange`.
use dsh_full_remote.Prelude.{
  ℕ, suc, ◌-◌, ◌*◌, ◌<◌, ◌≤◌, ◌≡◌, Bool, true, false, ◌&&◌, Option, none, some, [], ◌∷◌, ltb, ◌==◌,
  if◌then◌else◌,
}
use dsh_full_remote.Prelude.Text.{Text}
use dsh_full_remote.Prelude.StrMap.{StrMap, get, set, delete_where, Unique, Every}
use dsh_full_remote.Security.{safe_equal}
use dsh_full_remote.Sessions.Cookie.{decode_session_cookie}

-- 'active' | 'pending' | 'rejected'
pub data Status : Type 0 where
  active pending rejected : Status

abbrev pub is_active_status : Status → Bool
is_active_status active = true
is_active_status pending = false
is_active_status rejected = false

abbrev pub is_pending_status : Status → Bool
is_pending_status active = false
is_pending_status pending = true
is_pending_status rejected = false

abbrev pub is_rejected_status : Status → Bool
is_rejected_status active = false
is_rejected_status pending = false
is_rejected_status rejected = true

-- `SessionRecord`
pub record Session : Type 0 where
  pub id : Text
  pub secret_hash : Text
  pub label : Text
  pub status : Status
  pub created_at : ℕ
  pub last_seen_at : ℕ
  pub created_ip : Option Text
  pub last_seen_ip : Option Text
  pub ref : ℕ

-- The options of `createSessionStore`, defaults filled in.
pub record Config : Type 0 where
  pub max_sessions : ℕ
  pub max_age_seconds : ℕ
  pub idle_seconds : ℕ
  pub approval_required : Bool

abbrev pub default_config : Config
default_config = record {
  max_sessions = 16;
  max_age_seconds = 30 * 24 * 3600;
  idle_seconds = 0;
  approval_required = false;
}

pub record Store : Type 0 where
  pub sessions : StrMap Session
  pub changes : ℕ
  pub next_ref : ℕ

unfoldable pub empty_store : Store
empty_store = record { sessions = []; changes = 0; next_ref = 0 }

-- `onChange?.()`
abbrev pub changed : Store → Store
changed st = record st { changes = suc st.changes }

abbrev pub with_sessions : Store → StrMap Session → Store
with_sessions st m = record st { sessions = m }

-- Put the record object back under its id: the map holds the object itself.
abbrev pub update_session : Store → Session → Store
update_session st s = record st { sessions = set s.id s st.sessions }

-- `expired`
unfoldable pub expired : Config → Session → ℕ → Bool
expired cfg s at =
    let max_age_ms = cfg.max_age_seconds * 1000 in
    let idle_ms = cfg.idle_seconds * 1000 in
    if ltb max_age_ms (at - s.created_at)
    then true
    else if ltb 0 idle_ms && ltb idle_ms (at - s.last_seen_at)
    then true
    else if idle_ms == 0 && ltb max_age_ms (at - s.last_seen_at)
    then true
    else false

-- `sweep`
unfoldable pub sweep : Config → Store → ℕ → Store
sweep cfg st at = with_sessions st (delete_where (λ s. expired cfg s at) st.sessions)

-- An ip argument that is present: `ip !== undefined && ip !== ''`.
abbrev pub known_ip : Option Text → Option Text
known_ip none = none
known_ip (some []) = none
known_ip (some (c ∷ t)) = some (c ∷ t)

-- `hashSessionSecret` stands on SHA-256, which the program takes from its runtime.
module _ (hash_session_secret : Text → Text) where
  -- `find`
  unfoldable pub find : Store → Option Text → Option Session
  find st cookie_value = elim (decode_session_cookie cookie_value) [
    | none ↦ none
    | some (id, secret) ↦ elim (get id st.sessions) [
      | none ↦ none
      | some s ↦ if safe_equal (hash_session_secret secret) s.secret_hash then some s else none
    ]
  ]

-- An identity that was given out, and of which `G` holds.
abbrev pub Known : (ℕ → Type 0) → ℕ → ℕ → Type 0
Known G next_ref ref = (ref < next_ref) × G ref

-- What the invariant says of one entry.
abbrev pub Fits : (ℕ → Type 0) → ℕ → Text → Session → Type 0
Fits G next_ref k s = (k ≡ s.id) × Known G next_ref s.ref

-- The invariant: ids are distinct keys, each entry stands under its own id, every object's identity
-- is older than the next one, and `G` holds of the identities in use and of those to come.
pub record IsValidFor (G : ℕ → Type 0) (st : Store) : Type 0 where
  pub unique : Unique st.sessions
  pub keyed : Every (Fits G st.next_ref) st.sessions
  pub fresh : (n : ℕ) → st.next_ref ≤ n → G n

abbrev pub IsValid : Store → Type 0
IsValid = IsValidFor (λ _. Unit {0})
