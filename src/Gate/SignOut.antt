-- ===== src/Gate/SignOut.antt =====
-- What signing out takes away, and what a login needs.
use dsh_full_remote.Prelude.{
  ℕ, ◌≡◌, subst, sym, Bool, true, false, not, Option, none, some, List, [], arith, ap, get_or,
  if◌then◌else◌, Option-cases, inl, inr,
}
use dsh_full_remote.Prelude.Text.{Text, codes, text_eq, text_eq_iff}
use dsh_full_remote.Prelude.StrMap.{get}
use dsh_full_remote.Cache.Accounts.{IsBounded}
use dsh_full_remote.Cache.Reads.{get-delete_session}
use dsh_full_remote.Cache.Store
use dsh_full_remote.Cache.Store.{Entry}
use dsh_full_remote.Net.Headers.{Headers}
use dsh_full_remote.Gate.Login.{
  is_allowed, handle_login, attempt_login, login_with_form, deny_login, consume_invite, is_refused,
}
use dsh_full_remote.Gate.Routes.{cookie_of, with_store, sign_out, validated, handle_logout}
use dsh_full_remote.Gate.State.{
  Spec, Gate, Form, Request, Reply, redirected, close_session_connections,
}
use dsh_full_remote.Relay.Connections.{Connections, has, members, close_session}
use dsh_full_remote.Relay.Leases.{close_session_lem, close_session-none}
use dsh_full_remote.Security.{safe_equal}
use dsh_full_remote.Sessions.Access.{PublicSession, validate, is_active}
use dsh_full_remote.Sessions.Admission.{revoke-is_active}
use dsh_full_remote.Sessions.Auth.{is_some-validate, validate-id}
use dsh_full_remote.Sessions.Cookie.{decode_session_cookie}
use dsh_full_remote.Sessions.Record.{IsValid}
use dsh_full_remote.Sessions.Preservation.{validate-IsValid}
use dsh_full_remote.Tracker.Buckets.{reserve}

-- Is the entry another device's?
abbrev pub is_other : Text → Option (Entry Headers) → Bool
is_other id none = true
is_other id (some e) = not (text_eq e.session_id id)

-- The connections that are tracked for a session.
abbrev pub tracked : Connections → Text → List ℕ
tracked s id = elim (get id s.session_connections) [ none ↦ [] | some ref ↦ members ref s.sets ]

-- What a login form must show: the access token, or an invite that is not refused.
abbrev pub shows_credential : Spec → Gate → Request → Form → Bool
shows_credential spec g r form =
    if not (text_eq (get_or form.invite []) [])
    then not
        (is_refused (consume_invite spec g.invites (get_or form.invite []) r.remote r.resumed_at).1)
    else safe_equal (get_or form.token []) spec.access_token

-- Does the answer carry a cookie?
abbrev pub sets_cookie : Reply → Bool
sets_cookie (redirected location (some cookie)) = true
sets_cookie _ = false

close_session-tracked :
    (s : Connections) (id : Text)
    → ((n : ℕ)
        → has n (tracked s id) ≡ true
        → (has n (close_session s id).closed ≡ true) × (has n (close_session s id).leases ≡ false))
      × (tracked (close_session s id) id ≡ [])
close_session-tracked s id = elim (Option-cases (get id s.session_connections)) [
  | inl e ↦ (
    λ n h. absurd (ground (arith, h, e)),
    ground (arith, e, ap (λ t. get id t.session_connections) (close_session-none s id e)),
  )
  | inr (ref, e) ↦
      let lem = close_session_lem s id ref e in
      (
        λ n h. (ground (arith, h, e, lem.0 n), ground (arith, h, e, lem.1 n)),
        ground (arith, lem.2 id, text_eq_iff id id),
      )
]

module _ (hash_session_secret : Text → Text) (spec : Spec) where
  -- No cookie of the id passes later, the connections that were tracked before are closed and have
  -- no lease, none is tracked, and no key of the cache answers with a response of that device.
  abbrev pub IsSignedOut : Connections → Text → Option Text → ℕ → Gate → Type 0
  IsSignedOut before id later_cookie later g =
      (is_active hash_session_secret spec.sessions_config g.sessions later_cookie later ≡ false)
      × ((n : ℕ)
          → has n (tracked before id) ≡ true
          → (has n g.connections.closed ≡ true) × (has n g.connections.leases ≡ false))
      × (tracked g.connections id ≡ [])
      × ((k : Text) → is_other id (get k g.cache.entries) ≡ true)

  -- What `logout` leaves for a session that was validated.
  sign_out_lem :
      (o : Store.Options) (g : Gate) (p : PublicSession) (id secret : Text)
      (later_cookie : Option Text) (at later : ℕ)
      → p.id ≡ id
      → IsValid g.sessions
      → IsBounded o g.cache
      → decode_session_cookie later_cookie ≡ some (id, secret)
      → IsSignedOut g.connections id later_cookie later (sign_out g p at)
  unfolding sign_out close_session_connections
  sign_out_lem o g p id secret later_cookie at later named v b d =
      let (closed, gone) = close_session-tracked g.connections id in
      rw named (
        revoke-is_active hash_session_secret spec.sessions_config g.sessions id secret later_cookie
            at later v d,
        closed,
        gone,
        λ k. elim (Option-cases (get k g.cache.entries)) [
          | inl e ↦ ground (arith, get-delete_session o g.cache id k b, e)
          | inr (c, e) ↦ ground (arith, get-delete_session o g.cache id k b, e)
        ],
      )

  handle_logout-some :
      (g : Gate) (r : Request) (p : PublicSession)
      → (validated hash_session_secret spec g r).1 ≡ some p
      → (handle_logout hash_session_secret spec g r).0
        ≡ sign_out (validated hash_session_secret spec g r).0 p r.at
  unfolding handle_logout
  handle_logout-some g r p e = ground (arith, e)

  -- A sign-out by a request whose cookie is that of an active session, in a valid session store and
  -- a bounded cache: afterwards no cookie of that session passes at any time; each connection that
  -- was tracked for it is closed and has no lease, and the session has no tracked connections; and
  -- no key of the cache answers with a response of that device.
  pub handle_logout_lem :
      (o : Store.Options) (g : Gate) (r : Request) (id secret later_secret : Text)
      (later_cookie : Option Text) (later : ℕ)
      → IsValid g.sessions
      → IsBounded o g.cache
      → decode_session_cookie (cookie_of spec r) ≡ some (id, secret)
      → is_active hash_session_secret spec.sessions_config g.sessions (cookie_of spec r) r.at ≡ true
      → decode_session_cookie later_cookie ≡ some (id, later_secret)
      → let g' = (handle_logout hash_session_secret spec g r).0 in
        (is_active hash_session_secret spec.sessions_config g'.sessions later_cookie later ≡ false)
        × ((n : ℕ)
            → has n (tracked g.connections id) ≡ true
            → (has n g'.connections.closed ≡ true) × (has n g'.connections.leases ≡ false))
        × (tracked g'.connections id ≡ [])
        × ((k : Text) → is_other id (get k g'.cache.entries) ≡ true)
  unfolding handle_logout validated
  handle_logout_lem o g r id secret later_secret later_cookie later v b d a d' =
      let out =
        validate hash_session_secret spec.sessions_config g.sessions (cookie_of spec r)
          (some r.remote) r.at r.at in
      elim (Option-cases (out.1)) [
        | inl e ↦ absurd (
            ground (
              arith,
              e,
              a,
              is_some-validate hash_session_secret spec.sessions_config g.sessions
                  (cookie_of spec r) (some r.remote) r.at r.at,
            ))
        | inr (p, e) ↦
            let named =
              validate-id hash_session_secret spec.sessions_config g.sessions (cookie_of spec r)
                (some r.remote) id secret r.at r.at p v d e in
            let v' =
              validate-IsValid hash_session_secret spec.sessions_config g.sessions
                (cookie_of spec r) (some r.remote) r.at r.at v in
            subst (IsSignedOut g.connections id later_cookie later)
              (sym (handle_logout-some g r p e))
              (sign_out_lem o (with_store g out.0) p id later_secret later_cookie r.at later named
                v' b d')
      ]

  -- A login answers with a cookie only to a POST of an allowed address that is not locked out, whose
  -- form shows the access token, or an invite code that the invite store does not refuse.
  pub login_needs_credential :
      (g : Gate) (r : Request)
      → sets_cookie (handle_login hash_session_secret spec g r).1 ≡ true
      → (text_eq r.method (codes "POST") ≡ true)
        × (is_allowed spec r.remote ≡ true)
        × ((reserve spec.login_limits g.logins r.remote r.at).1 ≡ 0)
        × ((form : Form) × (r.form ≡ some form) × (shows_credential spec g r form ≡ true))
  unfolding handle_login attempt_login login_with_form deny_login
  login_needs_credential g r h = elim (Option-cases r.form) [
    | inl e ↦ absurd (ground (arith, e, h))
    | inr (form, e) ↦ (
      ground (arith, e, h),
      ground (arith, e, h),
      ground (arith, e, h),
      (form, e, ground (arith, e, h)),
    )
  ]
