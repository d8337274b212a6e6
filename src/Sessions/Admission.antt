-- ===== src/Sessions/Admission.antt =====
-- Revocation and approval: who passes after `revoke`, `login` and `approve`.
use dsh_full_remote.Prelude.{
  ℕ, ◌≡◌, ◌≢◌, true, false, not, Option, some, arith, Option-cases, inl, inr, leb,
}
use dsh_full_remote.Prelude.Text.{Text, text_eq_iff}
use dsh_full_remote.Prelude.StrMap.{get, get-set, get-delete, get-set_self, get-delete_self}
use dsh_full_remote.Security.{safe_equal_refl}
use dsh_full_remote.Sessions.Access.{is_active}
use dsh_full_remote.Sessions.Admin.{revoke, approve}
use dsh_full_remote.Sessions.Cookie.{decode_session_cookie}
use dsh_full_remote.Sessions.Invariant.{get-Fits}
use dsh_full_remote.Sessions.Login.{live_count, new_session, admit, login}
use dsh_full_remote.Sessions.Record.{
  active, rejected, is_active_status, Session, Config, Store, IsValid, expired, sweep, find,
}

module _ (hash_session_secret : Text → Text) (cfg : Config) where
  -- An id under which no active record stands lets no cookie of that id pass.
  is_active_needs :
      (st : Store) (cookie_value : Option Text) (id secret : Text) (at : ℕ)
      → decode_session_cookie cookie_value ≡ some (id, secret)
      → ((s : Session) → get id st.sessions ≡ some s → is_active_status s.status ≡ false)
      → is_active hash_session_secret cfg st cookie_value at ≡ false
  unfolding is_active find
  is_active_needs st cookie_value id secret at d h = elim (Option-cases (get id st.sessions)) [
    | inl g ↦ ground (arith, d, g)
    | inr (s, g) ↦ ground (arith, d, g, h s g)
  ]

  -- After `revoke` in a valid store no cookie of that id passes, whatever its secret and the
  -- time.
  pub revoke-is_active :
      (st : Store) (id secret : Text) (cookie_value : Option Text) (at later : ℕ)
      → IsValid st
      → decode_session_cookie cookie_value ≡ some (id, secret)
      → is_active hash_session_secret cfg (revoke st id at).0 cookie_value later ≡ false
  unfolding revoke
  revoke-is_active st id secret cookie_value at later v d =
      is_active_needs (revoke st id at).0 cookie_value id secret later d λ s g.
        elim (Option-cases (get id st.sessions)) [
          | inl e ↦ absurd (ground (arith, e, g))
          | inr (t, e) ↦
              let named = (get-Fits v e).0 in
              ground (
                arith,
                e,
                g,
                named,
                get-delete_self id st.sessions,
                get-set_self t.id (record t { status = rejected; last_seen_at = at }) st.sessions,
              )
        ]

  -- `revoke` in a valid store leaves every other id's record as it was.
  pub revoke_others :
      (st : Store) (id k : Text) (at : ℕ)
      → IsValid st
      → id ≢ k
      → get k (revoke st id at).0.sessions ≡ get k st.sessions
  unfolding revoke
  revoke_others st id k at v ne = elim (Option-cases (get id st.sessions)) [
    | inl e ↦ rw (e, revoke)
    | inr (s, e) ↦
        let named = (get-Fits v e).0 in
        ground (
          arith,
          e,
          named,
          text_eq_iff id k,
          text_eq_iff s.id k,
          get-delete id k st.sessions,
          get-set s.id k (record s { status = rejected; last_seen_at = at }) st.sessions,
        )
  ]

  login_waits :
      (st : Store) (at : ℕ) (id secret : Text) (user_agent ip : Option Text)
      → cfg.approval_required ≡ true
      → leb cfg.max_sessions (live_count (sweep cfg st at).sessions) ≡ false
      → get id (login hash_session_secret cfg st at id secret user_agent ip).0.sessions
        ≡ some (new_session hash_session_secret cfg (sweep cfg st at) at id secret user_agent ip)
  unfolding login admit new_session
  login_waits st at id secret user_agent ip mode room =
      simp (room, mode) (get-set_self id _ (sweep cfg st at).sessions)

  -- In approval mode a login that is admitted gives a record that waits: its own cookie does not
  -- pass until `approve`, and then it passes until the record expires.
  pub login-approve-is_active :
      (st : Store) (at approved_at later : ℕ) (id secret : Text)
      (user_agent ip cookie_value : Option Text)
      → cfg.approval_required ≡ true
      → leb cfg.max_sessions (live_count (sweep cfg st at).sessions) ≡ false
      → decode_session_cookie cookie_value ≡ some (id, secret)
      → let waiting = (login hash_session_secret cfg st at id secret user_agent ip).0 in
        let s = new_session hash_session_secret cfg (sweep cfg st at) at id secret user_agent ip in
        (is_active hash_session_secret cfg waiting cookie_value later ≡ false)
        × (is_active hash_session_secret cfg (approve waiting id approved_at).0 cookie_value later
            ≡ not (expired cfg (record s { status = active; last_seen_at = approved_at }) later))
  unfolding approve is_active find new_session
  login-approve-is_active st at approved_at later id secret user_agent ip cookie_value mode room d =
      let s = new_session hash_session_secret cfg (sweep cfg st at) at id secret user_agent ip in
      let waiting = (login hash_session_secret cfg st at id secret user_agent ip).0 in
      let g = login_waits st at id secret user_agent ip mode room in
      let s' = record s { status = active; last_seen_at = approved_at } in
      (
        is_active_needs waiting cookie_value id secret later d (λ t h. ground (arith, g, h, mode)),
        ground (
          arith,
          g,
          d,
          mode,
          get-set_self id s' waiting.sessions,
          safe_equal_refl (hash_session_secret secret),
        ),
      )
