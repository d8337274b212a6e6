-- ===== src/Sessions/Admin.antt =====
-- src/sessions.ts: `list`, `revoke`, `approve`, `rename` and `clear`.
use dsh_full_remote.Prelude.{
  ℕ, Bool, true, false, not, ◌||◌, Option, none, some, List, [], ◌∷◌, map, ltb, ◌==◌, if◌then◌else◌,
  get_or, length,
}
use dsh_full_remote.Prelude.Text.{Text, text_eq, trim}
use dsh_full_remote.Prelude.StrMap.{get, delete, size, values}
use dsh_full_remote.Sessions.Access.{PublicSession, public_shape}
use dsh_full_remote.Sessions.Record.{
  active, rejected, is_pending_status, is_rejected_status, Session, Config, Store, changed,
  with_sessions, update_session, sweep,
}

-- `.filter(session => session.status !== 'rejected')`
unfoldable pub not_rejected : List Session → List Session
not_rejected [] = []
not_rejected (s ∷ l) =
    let rest = not_rejected l in if is_rejected_status s.status then rest else s ∷ rest

-- The stable sort of `list`, latest `lastSeenAt` first: an entry goes behind those as late.
unfoldable pub insert_latest : PublicSession → List PublicSession → List PublicSession
insert_latest p [] = p ∷ []
insert_latest p (q ∷ l) =
    if ltb q.last_seen_at p.last_seen_at then p ∷ q ∷ l else q ∷ insert_latest p l

sort_from : List PublicSession → List PublicSession → List PublicSession
sort_from acc [] = acc
sort_from acc (p ∷ l) = sort_from (insert_latest p acc) l

-- `.sort((a, b) => b.lastSeenAt - a.lastSeenAt)`
unfoldable pub sort_latest : List PublicSession → List PublicSession
unfolding sort_from insert_latest
sort_latest l = sort_from [] l

-- `list`
unfoldable pub list : Config → Store → ℕ → Store × List PublicSession
list cfg st at =
    let swept = sweep cfg st at in
    (swept, sort_latest (map public_shape (not_rejected (values swept.sessions))))

-- `revoke`
unfoldable pub revoke : Store → Text → ℕ → Store × Bool
revoke st id at = elim (get id st.sessions) [
  | none ↦ (st, false)
  | some s ↦
      if is_pending_status s.status
      then (changed (update_session st (record s { status = rejected; last_seen_at = at })), true)
      else (changed (with_sessions st (delete id st.sessions)), true)
]

-- `approve`
unfoldable pub approve : Store → Text → ℕ → Store × Bool
approve st id at = elim (get id st.sessions) [
  | none ↦ (st, false)
  | some s ↦
      if not (is_pending_status s.status)
      then (st, false)
      else (changed (update_session st (record s { status = active; last_seen_at = at })), true)
]

-- `rename`
unfoldable pub rename : Store → Text → Option Text → Store × Bool
rename st id label = elim (get id st.sessions) [
  | none ↦ (st, false)
  | some s ↦
      let next = trim (get_or label []) in
      if length next == 0 || ltb 64 (length next)
      then (st, false)
      else if text_eq s.label next
      then (st, true)
      else (changed (update_session st (record s { label = next })), true)
]

-- `clear`
unfoldable pub clear : Store → Store
clear st = if ltb 0 (size st.sessions) then changed (with_sessions st []) else st
