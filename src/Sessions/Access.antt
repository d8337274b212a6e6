-- ===== src/Sessions/Access.antt =====
-- src/sessions.ts: `validate`, `isActive` and `pending`. Where the code reads the clock twice the
-- model takes two times.
use dsh_full_remote.Prelude.{ℕ, Bool, false, not, ◌&&◌, Option, none, some, if◌then◌else◌}
use dsh_full_remote.Prelude.Text.{Text, text_eq}
use dsh_full_remote.Prelude.StrMap.{delete}
use dsh_full_remote.Sessions.Cookie.{decode_session_cookie}
use dsh_full_remote.Sessions.Record.{
  Status, is_active_status, Session, Config, Store, changed, with_sessions, update_session, expired,
  known_ip, find,
}

-- `publicShape`: the record without its secret hash.
pub record PublicSession : Type 0 where
  pub id : Text
  pub label : Text
  pub status : Status
  pub created_at : ℕ
  pub last_seen_at : ℕ
  pub created_ip : Option Text
  pub last_seen_ip : Option Text

unfoldable pub public_shape : Session → PublicSession
public_shape s = record {
  id = s.id;
  label = s.label;
  status = s.status;
  created_at = s.created_at;
  last_seen_at = s.last_seen_at;
  created_ip = s.created_ip;
  last_seen_ip = s.last_seen_ip;
}

-- `ip !== undefined && ip !== '' && session.lastSeenIp !== ip`: the new ip, if it differs.
unfoldable pub new_ip : Option Text → Option Text → Option Text
new_ip none old = none
new_ip (some ip) none = some ip
new_ip (some ip) (some old) = if text_eq old ip then none else some ip

-- A changed source ip is recorded at once, with its own notice.
unfoldable pub move_ip : Option Text → Store → Session → Store × Session
move_ip none st s = (st, s)
move_ip (some ip) st s =
    let s' = record s { last_seen_ip = some ip } in (changed (update_session st s'), s')

-- `touch`
unfoldable pub touch : Store → Session → ℕ → Store × Session
touch st s at = let s' = record s { last_seen_at = at } in (changed (update_session st s'), s')

-- `sessions.delete(session.id); changed()`
abbrev pub drop_session : Store → Session → Store
drop_session st s = changed (with_sessions st (delete s.id st.sessions))

-- The end of `validate`, for an active session.
unfoldable pub renew : Store → Session → Option Text → ℕ → Store × Option PublicSession
unfolding move_ip touch new_ip
renew st s ip touched_at =
    let (st', s') = move_ip (new_ip (known_ip ip) s.last_seen_ip) st s in
    let (st'', s'') = touch st' s' touched_at in (st'', some (public_shape s''))

module _ (hash_session_secret : Text → Text) (cfg : Config) where
  -- `validate`: `at` is the time of the expiry test, `touched_at` that of `touch`.
  unfoldable pub validate : Store → Option Text → Option Text → ℕ → ℕ → Store × Option PublicSession
  unfolding renew
  validate st cookie_value ip at touched_at = elim (find hash_session_secret st cookie_value) [
    | none ↦ (st, none)
    | some s ↦
        if expired cfg s at
        then (drop_session st s, none)
        else if not (is_active_status s.status)
        then (st, none)
        else renew st s ip touched_at
  ]

  -- `isActive`
  unfoldable pub is_active : Store → Option Text → ℕ → Bool
  is_active st cookie_value at = elim (find hash_session_secret st cookie_value) [
    | none ↦ false
    | some s ↦ is_active_status s.status && not (expired cfg s at)
  ]

  -- `pending`
  unfoldable pub pending_session : Store → Option Text → Text → ℕ → Store × Option Session
  pending_session st cookie_value id at = elim (decode_session_cookie cookie_value) [
    | none ↦ (st, none)
    | some (cookie_id, secret) ↦
        if not (text_eq cookie_id id)
        then (st, none)
        else elim (find hash_session_secret st cookie_value) [
          | none ↦ (st, none)
          | some s ↦ if expired cfg s at then (drop_session st s, none) else (st, some s)
        ]
  ]
