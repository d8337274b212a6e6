-- ===== src/Sessions/Track.antt =====
-- src/sessions.ts: `trackActivity`. The callback that it returns is a record of what the closure
-- holds; each call takes the store and the time and gives the new state of both.
use dsh_full_remote.Prelude.{
  ℕ, ◌-◌, Bool, true, false, not, ◌||◌, Option, none, some, leb, ◌==◌, if◌then◌else◌,
}
use dsh_full_remote.Prelude.Text.{Text, text_eq}
use dsh_full_remote.Prelude.StrMap.{get}
use dsh_full_remote.Sessions.Access.{drop_session}
use dsh_full_remote.Sessions.Record.{
  is_active_status, Session, Config, Store, changed, update_session, expired, find,
}

-- The variables of the closure: the session object (its id never changes), the secret's hash at
-- the start, and `lastNotifiedAt`.
pub record Tracker : Type 0 where
  pub id : Text
  pub ref : ℕ
  pub secret_hash : Text
  pub last_notified_at : Option ℕ

-- `lastNotifiedAt === undefined || at - lastNotifiedAt >= 1000`
notice_due : Option ℕ → ℕ → Bool
notice_due none at = true
notice_due (some last) at = leb 1000 (at - last)

-- The callback's answer: the new store, the new closure, and whether the stream may go on.
pub record Tracked : Type 0 where
  pub store : Store
  pub tracker : Tracker
  pub alive : Bool

-- The body of the callback behind its guard; `s` is the object that both the closure and the map
-- hold.
track_live : Config → Store → Tracker → Session → ℕ → Tracked
unfolding notice_due
track_live cfg st t s at =
    if expired cfg s at
    then record { store = drop_session st s; tracker = t; alive = false }
    else let st' = update_session st (record s { last_seen_at = at }) in
      if notice_due t.last_notified_at at
      then record {
        store = changed st';
        tracker = record t { last_notified_at = some at };
        alive = true;
      }
      else record { store = st'; tracker = t; alive = true }

-- One call of the callback.
unfoldable pub track : Config → Store → Tracker → ℕ → Tracked
unfolding track_live
track cfg st t at = elim (get t.id st.sessions) [
  | none ↦ record { store = st; tracker = t; alive = false }
  | some s ↦
      if not (s.ref == t.ref)
        || not (text_eq s.secret_hash t.secret_hash)
        || not (is_active_status s.status)
      then record { store = st; tracker = t; alive = false }
      else track_live cfg st t s at
]

-- `trackActivity`: `none` is the callback `() => false`.
unfoldable pub track_activity : (Text → Text) → Config → Store → Option Text → ℕ → Option Tracker
track_activity hash_session_secret cfg st cookie_value at =
    elim (find hash_session_secret st cookie_value) [
      | none ↦ none
      | some s ↦
          if not (is_active_status s.status) || expired cfg s at
          then none
          else some (record {
            id = s.id;
            ref = s.ref;
            secret_hash = s.secret_hash;
            last_notified_at = none;
          })
    ]
