-- ===== src/Sessions/Preservation.antt =====
-- Every operation of the session store keeps its invariant, so every history does.
use dsh_full_remote.Prelude.{
  ℕ, suc, ◌≡◌, refl, Bool, not, ◌&&◌, ◌||◌, Option, none, some, List, [], ◌∷◌, leb, length, get_or,
  if_both, Option-cases, inl, inr, take, ◌==◌, ltb,
}
use dsh_full_remote.Prelude.Text.{Text, text_eq, trim}
use dsh_full_remote.Prelude.StrMap.{StrMap, get, size}
use dsh_full_remote.Sessions.Record.{
  Session, Config, Store, Known, IsValid, IsValidFor, known_ip, is_active_status, is_pending_status,
  is_rejected_status, empty_store, with_sessions, expired, sweep, find,
}
use dsh_full_remote.Sessions.Login.{live_count, admit, login, reissue, LoginResult, Credential}
use dsh_full_remote.Sessions.Access.{
  PublicSession, drop_session, renew, move_ip, new_ip, touch, validate, pending_session,
}
use dsh_full_remote.Sessions.Track.{Tracker, Tracked, track}
use dsh_full_remote.Sessions.Admin.{revoke, approve, rename, clear}
use dsh_full_remote.Sessions.Disk.{
  RawSession, read_session, read_session-ref, hydrate_entry, hydrate_entries, hydrate,
}
use dsh_full_remote.Sessions.Cookie.{decode_session_cookie}
use dsh_full_remote.Sessions.Find.{find-split}
use dsh_full_remote.Sessions.Invariant.{
  Keeps, changed-IsValid, get-Fits, update-IsValid, delete-IsValid, sweep-IsValid, insert-IsValid,
  evict_loop-IsValid,
}
use dsh_full_remote.Sessions.Steps.{
  Op, logs_in, reissues, validates, polls, tracks, lists, revokes, approves, renames, clears,
  hydrates, step, run,
}

module _ {G : ℕ → Type 0} where
  move_ip-IsValid :
      (ip : Option Text) (st : Store) (s : Session)
      → IsValidFor G st
      → Known G st.next_ref s.ref
      → IsValidFor G (move_ip ip st s).0
        × Known G (move_ip ip st s).0.next_ref (move_ip ip st s).1.ref
  unfolding move_ip
  move_ip-IsValid none st s v lt = (v, lt)
  move_ip-IsValid (some ip) st s v lt = (changed-IsValid (update-IsValid _ v lt), lt)

  renew-IsValid :
      (st : Store) (s : Session) (ip : Option Text) (touched_at : ℕ)
      → IsValidFor G st
      → Known G st.next_ref s.ref
      → IsValidFor G (renew st s ip touched_at).0
  unfolding renew touch
  renew-IsValid st s ip touched_at v lt =
      let moved = move_ip-IsValid (new_ip (known_ip ip) s.last_seen_ip) st s v lt in
      changed-IsValid (update-IsValid _ moved.0 moved.1)

  drop_session-IsValid :
      (st : Store) (s : Session) → IsValidFor G st → IsValidFor G (drop_session st s)
  drop_session-IsValid st s v = changed-IsValid (delete-IsValid s.id v)

  track-IsValid :
      (cfg : Config) (st : Store) (t : Tracker) (at : ℕ)
      → IsValidFor G st
      → IsValidFor G (track cfg st t at).store
  unfolding track
  track-IsValid cfg st t at v = elim (Option-cases (get t.id st.sessions)) [
    | inl e ↦ rw (e, track) v
    | inr (s, e) ↦
        rw (e, track)
          (if_both (λ (r : Tracked). IsValidFor G r.store) _ v
            (if_both (λ (r : Tracked). IsValidFor G r.store) (expired cfg s at)
              (drop_session-IsValid st s v)
              (let touched = update-IsValid (record s { last_seen_at = at }) v (get-Fits v e).1 in
                if_both (λ (r : Tracked). IsValidFor G r.store) _ (changed-IsValid touched)
                  touched)))
  ]

  revoke-IsValid :
      (st : Store) (id : Text) (at : ℕ) → IsValidFor G st → IsValidFor G (revoke st id at).0
  unfolding revoke
  revoke-IsValid st id at v = elim (Option-cases (get id st.sessions)) [
    | inl e ↦ rw (e, revoke) v
    | inr (s, e) ↦
        rw (e, revoke)
          (if_both (Keeps G {R = Bool}) (is_pending_status s.status)
            (changed-IsValid (update-IsValid _ v (get-Fits v e).1))
            (changed-IsValid (delete-IsValid id v)))
  ]

  approve-IsValid :
      (st : Store) (id : Text) (at : ℕ) → IsValidFor G st → IsValidFor G (approve st id at).0
  unfolding approve
  approve-IsValid st id at v = elim (Option-cases (get id st.sessions)) [
    | inl e ↦ rw (e, approve) v
    | inr (s, e) ↦
        rw (e, approve)
          (if_both (Keeps G {R = Bool}) (not (is_pending_status s.status)) v
            (changed-IsValid (update-IsValid _ v (get-Fits v e).1)))
  ]

  rename-IsValid :
      (st : Store) (id : Text) (label : Option Text)
      → IsValidFor G st
      → IsValidFor G (rename st id label).0
  unfolding rename
  rename-IsValid st id label v = elim (Option-cases (get id st.sessions)) [
    | inl e ↦ rw (e, rename) v
    | inr (s, e) ↦
        let next = trim (get_or label []) in
        rw (e, rename)
          (if_both (Keeps G {R = Bool}) (length next == 0 || ltb 64 (length next)) v (
            if_both (Keeps G {R = Bool}) (text_eq s.label next) v
              (changed-IsValid (update-IsValid (record s { label = next }) v (get-Fits v e).1))))
  ]

  emptied-IsValid : (st : Store) → IsValidFor G st → IsValidFor G (with_sessions st [])
  emptied-IsValid st v = record { unique = tt; keyed = tt; fresh = v.fresh }

  clear-IsValid : (st : Store) → IsValidFor G st → IsValidFor G (clear st)
  unfolding clear
  clear-IsValid st v =
      if_both (IsValidFor G) (ltb 0 (size st.sessions)) (changed-IsValid (emptied-IsValid st v)) v

  hydrate_entries-IsValid :
      (st : Store) (l : List RawSession) → IsValidFor G st → IsValidFor G (hydrate_entries st l)
  unfolding hydrate_entries hydrate_entry
  hydrate_entries-IsValid st [] v = v
  hydrate_entries-IsValid st (raw ∷ l) v =
      hydrate_entries-IsValid (hydrate_entry st raw) l
        (elim (Option-cases (read_session raw st.next_ref)) [
          | inl e ↦ rw (e, hydrate_entry) v
          | inr (s, e) ↦
              rw (e, hydrate_entry) (insert-IsValid s v (read_session-ref raw st.next_ref e))
        ])

  hydrate-IsValid :
      (cfg : Config) (st : Store) (entries : Option (List RawSession))
      → IsValidFor G st
      → IsValidFor G (hydrate cfg st entries)
  unfolding hydrate
  hydrate-IsValid cfg st none v = emptied-IsValid st v
  hydrate-IsValid cfg st (some l) v =
      hydrate_entries-IsValid _ (take cfg.max_sessions l) (emptied-IsValid st v)

module _ {G : ℕ → Type 0} (hash_session_secret : Text → Text) (cfg : Config) where
  admit-IsValid :
      (st : Store) (s : Session) (secret : Text)
      → IsValidFor G st
      → s.ref ≡ st.next_ref
      → IsValidFor G (admit hash_session_secret cfg st s secret).0
  unfolding admit
  admit-IsValid st s secret v e =
      let P = λ (m : StrMap Session).
        IsValidFor G (record st { sessions = m; next_ref = suc st.next_ref }) in
      let inserted = insert-IsValid s v e in
      changed-IsValid
        (if_both P cfg.approval_required inserted (evict_loop-IsValid _ _ s.id inserted))

  login-IsValid :
      (st : Store) (at : ℕ) (id secret : Text) (user_agent ip : Option Text)
      → IsValidFor G st
      → IsValidFor G (login hash_session_secret cfg st at id secret user_agent ip).0
  unfolding login
  login-IsValid st at id secret user_agent ip v =
      let swept = sweep-IsValid cfg st at v in
      if_both (Keeps G {R = LoginResult})
        (cfg.approval_required && leb cfg.max_sessions (live_count (sweep cfg st at).sessions))
        swept (admit-IsValid (sweep cfg st at) _ secret swept refl)

  reissue-IsValid :
      (st : Store) (at : ℕ) (id secret : Text) (ip : Option Text)
      → IsValidFor G st
      → IsValidFor G (reissue hash_session_secret cfg st at id secret ip).0
  unfolding reissue
  reissue-IsValid st at id secret ip v =
      let swept = sweep-IsValid cfg st at v in
      elim (Option-cases (get id (sweep cfg st at).sessions)) [
        | inl e ↦ rw (e, reissue) swept
        | inr (s, e) ↦
            rw (e, reissue)
              (if_both (Keeps G {R = Option Credential})
                (expired cfg s at || is_rejected_status s.status) swept
                (changed-IsValid (update-IsValid _ swept (get-Fits swept e).1)))
      ]

  pub validate-IsValid :
      (st : Store) (cookie_value ip : Option Text) (at touched_at : ℕ)
      → IsValidFor G st
      → IsValidFor G (validate hash_session_secret cfg st cookie_value ip at touched_at).0
  unfolding validate
  validate-IsValid st cookie_value ip at touched_at v =
      elim (Option-cases (find hash_session_secret st cookie_value)) [
        | inl e ↦ rw (e, validate) v
        | inr (s, e) ↦
            let (id, secret, _, g, _) = find-split hash_session_secret st cookie_value e in
            rw (e, validate)
              (if_both (Keeps G {R = Option PublicSession}) (expired cfg s at)
                (drop_session-IsValid st s v)
                (if_both (Keeps G {R = Option PublicSession}) (not (is_active_status s.status)) v
                  (renew-IsValid st s ip touched_at v (get-Fits v g).1)))
      ]

  pending_session-IsValid :
      (st : Store) (cookie_value : Option Text) (id : Text) (at : ℕ)
      → IsValidFor G st
      → IsValidFor G (pending_session hash_session_secret cfg st cookie_value id at).0
  unfolding pending_session
  pending_session-IsValid st cookie_value id at v =
      elim (Option-cases (decode_session_cookie cookie_value)) [
        | inl d ↦ rw (d, pending_session) v
        | inr ((cookie_id, secret), d) ↦
            rw (d, pending_session)
              (if_both (Keeps G {R = Option Session}) (not (text_eq cookie_id id)) v
                (elim (Option-cases (find hash_session_secret st cookie_value)) [
                  | inl e ↦ rw e v
                  | inr (s, e) ↦ rw e (
                      if_both (Keeps G {R = Option Session}) (expired cfg s at)
                        (drop_session-IsValid st s v) v)
                ]))
      ]

  -- Every operation keeps the store valid: distinct ids, each entry under its own id, and object
  -- identities that are never used again.
  pub step-IsValid :
      (st : Store) (o : Op) → IsValidFor G st → IsValidFor G (step hash_session_secret cfg st o)
  unfolding step
  step-IsValid st (logs_in at id secret user_agent ip) v =
      login-IsValid st at id secret user_agent ip v
  step-IsValid st (reissues at id secret ip) v = reissue-IsValid st at id secret ip v
  step-IsValid st (validates cookie_value ip at touched_at) v =
      validate-IsValid st cookie_value ip at touched_at v
  step-IsValid st (polls cookie_value id at) v = pending_session-IsValid st cookie_value id at v
  step-IsValid st (tracks tracker at) v = track-IsValid cfg st tracker at v
  step-IsValid st (lists at) v = sweep-IsValid cfg st at v
  step-IsValid st (revokes id at) v = revoke-IsValid st id at v
  step-IsValid st (approves id at) v = approve-IsValid st id at v
  step-IsValid st (renames id label) v = rename-IsValid st id label v
  step-IsValid st clears v = clear-IsValid st v
  step-IsValid st (hydrates entries) v = hydrate-IsValid cfg st entries v

  pub run-IsValid :
      (st : Store) (os : List Op)
      → IsValidFor G st
      → IsValidFor G (run hash_session_secret cfg st os)
  unfolding run
  run-IsValid st [] v = v
  run-IsValid st (o ∷ os) v =
      run-IsValid (step hash_session_secret cfg st o) os (step-IsValid st o v)

pub empty_store-IsValid : IsValid empty_store
unfolding empty_store
empty_store-IsValid = record { unique = tt; keyed = tt; fresh = λ n h. tt }
