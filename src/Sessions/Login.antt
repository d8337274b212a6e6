-- ===== src/Sessions/Login.antt =====
-- src/sessions.ts: `login`, `reissue` and the eviction of the oldest entry. The random id and
-- secret are arguments, and so is the time.
use dsh_full_remote.Prelude.{
  ℕ, zero, suc, ◌&&◌, ◌||◌, Option, none, some, List, [], ◌∷◌, ltb, leb, ◌==◌, if◌then◌else◌,
}
use dsh_full_remote.Prelude.Text.{Text, text_eq}
use dsh_full_remote.Prelude.StrMap.{get, set, delete, size}
use dsh_full_remote.Sessions.Label.{device_label}
use dsh_full_remote.Sessions.Record.{
  Status, active, pending, is_rejected_status, Session, Config, Store, changed, update_session,
  expired, sweep, known_ip,
}

-- What a login answers: the id, the secret for the cookie, the status and the label.
pub record Credential : Type 0 where
  pub id : Text
  pub secret : Text
  pub status : Status
  pub label : Text

-- `throw new SessionCapacityError()`, or the credential.
pub data LoginResult : Type 0 where
  capacity_error : LoginResult
  logged_in : Credential → LoginResult

-- One round of the loop of `evictOldest`: the protected id is passed over, an older entry wins.
unfoldable pub older_of : Text → Text → Session → Option (Text × Session) → Option (Text × Session)
older_of except_id k s none = if text_eq k except_id then none else some (k, s)
older_of except_id k s (some (j, o)) =
    if text_eq k except_id
    then some (j, o)
    else if ltb s.last_seen_at o.last_seen_at
    then some (k, s)
    else some (j, o)

-- The loop of `evictOldest`: the first entry with the least `lastSeenAt`, not the protected id.
unfoldable pub oldest_entry :
    Text → Option (Text × Session) → List (Text × Session) → Option (Text × Session)
unfolding older_of
oldest_entry except_id oldest [] = oldest
oldest_entry except_id oldest ((k, s) ∷ m) =
    oldest_entry except_id (older_of except_id k s oldest) m

-- `evictOldest`
unfoldable pub evict_oldest : Text → List (Text × Session) → List (Text × Session)
unfolding oldest_entry
evict_oldest except_id m = elim (oldest_entry except_id none m) [
  | none ↦ m
  | some (k, s) ↦ delete k m
]

-- The `while` loop of `login` in normal mode, with fuel: one eviction a round.
unfoldable pub evict_loop : ℕ → ℕ → Text → List (Text × Session) → List (Text × Session)
evict_loop zero max_sessions id m = m
evict_loop (suc fuel) max_sessions id m =
    let smaller = evict_oldest id m in
    let rest = evict_loop fuel max_sessions id smaller in
    if ltb max_sessions (size m) then (if size smaller == size m then smaller else rest) else m

-- `[...sessions.values()].filter(session => session.status !== 'rejected').length`
unfoldable pub live_count : List (Text × Session) → ℕ
live_count [] = 0
live_count ((k, s) ∷ m) =
    let rest = live_count m in if is_rejected_status s.status then rest else suc rest

-- `if (ip !== undefined && ip !== '') session.lastSeenIp = ip`
abbrev pub note_ip : Option Text → Option Text → Option Text
note_ip none old = old
note_ip (some ip) old = some ip

module _ (hash_session_secret : Text → Text) (cfg : Config) where
  -- The record that `login` creates; its object identity is the next one.
  unfoldable pub new_session : Store → ℕ → Text → Text → Option Text → Option Text → Session
  new_session st at id secret user_agent ip = record {
    id = id;
    secret_hash = hash_session_secret secret;
    label = device_label user_agent;
    status = if cfg.approval_required then pending else active;
    created_at = at;
    last_seen_at = at;
    created_ip = known_ip ip;
    last_seen_ip = known_ip ip;
    ref = st.next_ref;
  }

  -- `login` behind the admission test. The loop's fuel is the number of entries.
  unfoldable pub admit : Store → Session → Text → Store × LoginResult
  admit st s secret =
      let m = set s.id s st.sessions in
      let kept = if cfg.approval_required then m else evict_loop (size m) cfg.max_sessions s.id m in
      (
        changed (record st { sessions = kept; next_ref = suc st.next_ref }),
        logged_in (record { id = s.id; secret = secret; status = s.status; label = s.label }),
      )

  -- `login`
  unfoldable pub login : Store → ℕ → Text → Text → Option Text → Option Text → Store × LoginResult
  unfolding admit new_session
  login st at id secret user_agent ip =
      let swept = sweep cfg st at in
      if cfg.approval_required && leb cfg.max_sessions (live_count swept.sessions)
      then (swept, capacity_error)
      else admit swept (new_session swept at id secret user_agent ip) secret

  -- `reissue`
  unfoldable pub reissue : Store → ℕ → Text → Text → Option Text → Store × Option Credential
  reissue st at id secret ip =
      let swept = sweep cfg st at in
      elim (get id swept.sessions) [
        | none ↦ (swept, none)
        | some s ↦
            if expired cfg s at || is_rejected_status s.status
            then (swept, none)
            else let s' = record s {
              secret_hash = hash_session_secret secret;
              last_seen_at = at;
              last_seen_ip = note_ip (known_ip ip) s.last_seen_ip;
            } in
              (
                changed (update_session swept s'),
                some (record { id = id; secret = secret; status = s.status; label = s.label }),
              )
      ]
