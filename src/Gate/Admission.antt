-- ===== src/Gate/Admission.antt =====
-- Who reaches the backend.
use dsh_full_remote.Prelude.{
  ◌≡◌, ◌↔◌, Bool, true, false, ◌||◌, some, arith, is_some, Option-cases, inl, inr,
}
use dsh_full_remote.Prelude.Text.{Text, text_eq, starts_with}
use dsh_full_remote.Gate.Login.{is_allowed}
use dsh_full_remote.Gate.Paths.{login_path, healthz_path}
use dsh_full_remote.Gate.Routes.{
  cookie_of, validated, handle_wait_routes, handle_device_pages, handle_proxied, on_request,
  on_upgrade, authenticate_upgrade,
}
use dsh_full_remote.Gate.State.{Spec, Gate, Request}
use dsh_full_remote.Sessions.Access.{validate, is_active}
use dsh_full_remote.Sessions.Auth.{is_some-validate}
use dsh_full_remote.Tracker.Buckets.{check}
use dsh_full_remote.Gate.Own.{
  is_forwarded, handle_login-not_forwarded, handle_wait_routes-not_forwarded,
  handle_device_pages-not_forwarded,
}

module _ (hash_session_secret : Text → Text) (spec : Spec) where
  handle_proxied_iff :
      (g : Gate) (r : Request)
      → (is_forwarded (handle_proxied hash_session_secret spec g r).1 ≡ true) ↔ (
          (starts_with spec.control_prefix r.path ≡ false)
          × (is_active hash_session_secret spec.sessions_config g.sessions (cookie_of spec r) r.at
              ≡ true))
  unfolding handle_proxied validated
  handle_proxied_iff g r =
      let cookie = cookie_of spec r in
      elim (Option-cases
        (validate hash_session_secret spec.sessions_config g.sessions cookie (some r.remote) r.at
          r.at).1) [
            | inl e ↦ ground (
              arith,
              e,
              is_some-validate hash_session_secret spec.sessions_config g.sessions cookie
                  (some r.remote) r.at r.at,
            )
            | inr (p, e) ↦ ground (
              arith,
              e,
              is_some-validate hash_session_secret spec.sessions_config g.sessions cookie
                  (some r.remote) r.at r.at,
            )
          ]

  -- The paths that the gate answers itself.
  abbrev pub is_gate_request : Gate → Request → Bool
  is_gate_request g r =
      text_eq r.path healthz_path
      || text_eq r.path login_path
      || is_some (handle_wait_routes hash_session_secret spec g r)
      || is_some (handle_device_pages hash_session_secret spec g r)

  -- A request reaches the backend exactly when its address is allowed, its path is neither one that
  -- the gate answers itself nor under the control prefix, and its cookie is that of an active session
  -- that has not expired.
  pub is_forwarded_iff :
      (g : Gate) (r : Request)
      → (is_forwarded (on_request hash_session_secret spec g r).1 ≡ true) ↔ (
          (is_allowed spec r.remote ≡ true)
          × (is_gate_request g r ≡ false)
          × (starts_with spec.control_prefix r.path ≡ false)
          × (is_active hash_session_secret spec.sessions_config g.sessions (cookie_of spec r) r.at
              ≡ true))
  unfolding on_request
  is_forwarded_iff g r = elim (Option-cases (handle_wait_routes hash_session_secret spec g r)) [
    | inr (a, e) ↦ ground (
      arith,
      e,
      handle_login-not_forwarded hash_session_secret spec g r,
      handle_wait_routes-not_forwarded hash_session_secret spec g r,
    )
    | inl e ↦ elim (Option-cases (handle_device_pages hash_session_secret spec g r)) [
      | inr (a, f) ↦ ground (
        arith,
        e,
        f,
        handle_login-not_forwarded hash_session_secret spec g r,
        handle_device_pages-not_forwarded hash_session_secret spec g r,
      )
      | inl f ↦ ground (
        arith,
        e,
        f,
        handle_login-not_forwarded hash_session_secret spec g r,
        handle_proxied_iff g r,
      )
    ]
  ]

  -- An upgrade reaches the backend exactly when its address is allowed and not locked, its path is not
  -- under the control prefix, and its cookie is that of an active session that has not expired.
  pub is_forwarded-on_upgrade_iff :
      (g : Gate) (r : Request)
      → (is_forwarded (on_upgrade hash_session_secret spec g r).1 ≡ true) ↔ (
          (is_allowed spec r.remote ≡ true)
          × ((check g.upgrades r.remote r.at).1 ≡ 0)
          × (starts_with spec.control_prefix r.path ≡ false)
          × (is_active hash_session_secret spec.sessions_config g.sessions (cookie_of spec r) r.at
              ≡ true))
  unfolding on_upgrade authenticate_upgrade validated
  is_forwarded-on_upgrade_iff g r =
      let cookie = cookie_of spec r in
      elim (Option-cases
        (validate hash_session_secret spec.sessions_config g.sessions cookie (some r.remote) r.at
          r.at).1) [
            | inl e ↦ ground (
              arith,
              e,
              is_some-validate hash_session_secret spec.sessions_config g.sessions cookie
                  (some r.remote) r.at r.at,
            )
            | inr (p, e) ↦ ground (
              arith,
              e,
              is_some-validate hash_session_secret spec.sessions_config g.sessions cookie
                  (some r.remote) r.at r.at,
            )
          ]
