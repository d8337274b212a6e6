-- ===== src/Gate/Routes.antt =====
-- src/proxy.ts: `handleWaitRoutes`, `handleDevicePages`, `onRequest` and the admission of an upgrade.
use dsh_full_remote.Prelude.{ℕ, Bool, not, ◌&&◌, ◌||◌, Option, none, some, [], ltb, if◌then◌else◌}
use dsh_full_remote.Prelude.Text.{Text, codes, text_eq, starts_with}
use dsh_full_remote.Prelude.StrMap.{get}
use dsh_full_remote.Gate.Login.{is_allowed, handle_login}
use dsh_full_remote.Gate.Paths.{
  login_path, home_path, home_rename_path, logout_path, healthz_path, parse_wait_path, WaitKind,
  page, status,
}
use dsh_full_remote.Gate.State.{
  Spec, Gate, Form, Request, Reply, forbidden, healthy, redirected, wait_status, wait_page,
  home_page, authentication_required, forwarded, too_many_attempts, close_session_connections,
}
use dsh_full_remote.Security.{parse_cookies}
use dsh_full_remote.Sessions.Access.{PublicSession, validate, pending_session}
use dsh_full_remote.Sessions.Admin.{rename, revoke}
use dsh_full_remote.Sessions.Record.{Session, Store, is_active_status}
use dsh_full_remote.Tracker.Buckets.{check, fail, prune}

-- `parseCookies(req.headers.cookie)[spec.cookieName]`
unfoldable pub cookie_of : Spec → Request → Option Text
cookie_of spec r = get spec.cookie_name (parse_cookies r.cookie_header)

abbrev pub is_method : Request → Text → Bool
is_method r method = text_eq r.method method

abbrev pub with_store : Gate → Store → Gate
with_store g st = record g { sessions = st }

-- What `handleWaitRoutes` answers for the session that waits.
unfoldable pub wait_reply : WaitKind → Option Session → Reply
wait_reply status none = wait_status none
wait_reply status (some s) = wait_status (some s.status)
wait_reply page none = redirected login_path none
wait_reply page (some s) =
    if is_active_status s.status then redirected (codes "/") none else wait_page s.id s.label

-- The label that `form.get('label') ?? undefined` gives, and no rename when the body is refused.
unfoldable pub rename_self : Gate → Option Form → PublicSession → Gate
rename_self g none p = g
rename_self g (some form) p = with_store g (rename g.sessions p.id form.label).0

-- `logout` of a session: `revoke`, then its connections are closed.
unfoldable pub sign_out : Gate → PublicSession → ℕ → Gate
sign_out g p at = close_session_connections (with_store g (revoke g.sessions p.id at).0) p.id

module _ (hash_session_secret : Text → Text) (spec : Spec) where
  -- `spec.sessionStore.validate(cookie, effectiveRemoteAddress(req, spec))`
  unfoldable pub validated : Gate → Request → Gate × Option PublicSession
  validated g r =
      let (st, session) =
        validate hash_session_secret spec.sessions_config g.sessions (cookie_of spec r)
          (some r.remote) r.at r.at in
      (with_store g st, session)

  -- `handleWaitRoutes`: `none` when the request is not for it.
  unfoldable pub handle_wait_routes : Gate → Request → Option (Gate × Reply)
  handle_wait_routes g r = elim (parse_wait_path r.path) [
    | none ↦ none
    | some (id, kind) ↦
        if not (is_method r (codes "GET"))
        then none
        else some (
            let (st, session) =
              pending_session hash_session_secret spec.sessions_config g.sessions (cookie_of spec r)
                id r.at in
            (with_store g st, wait_reply kind session))
  ]

  -- The three routes of `handleDevicePages`.
  unfoldable pub handle_home : Gate → Request → Gate × Reply
  handle_home g r =
      let (g', session) = validated g r in
      elim session [ none ↦ (g', redirected login_path none) | some p ↦ (g', home_page p) ]

  unfoldable pub handle_rename : Gate → Request → Gate × Reply
  handle_rename g r =
      let (g', session) = validated g r in
      elim session [
        | none ↦ (g', redirected login_path none)
        | some p ↦ (rename_self g' r.form p, redirected home_path none)
      ]

  unfoldable pub handle_logout : Gate → Request → Gate × Reply
  handle_logout g r =
      let (g', session) = validated g r in
      elim session [
        | none ↦ (g', redirected login_path (some []))
        | some p ↦ (sign_out g' p r.at, redirected login_path (some []))
      ]

  -- `handleDevicePages`
  unfoldable pub handle_device_pages : Gate → Request → Option (Gate × Reply)
  handle_device_pages g r =
      if text_eq r.path home_path && is_method r (codes "GET")
      then some (handle_home g r)
      else if text_eq r.path home_rename_path && is_method r (codes "POST")
      then some (handle_rename g r)
      else if text_eq r.path logout_path && is_method r (codes "POST")
      then some (handle_logout g r)
      else none

  -- The end of `onRequest`: the backend, for a session.
  unfoldable pub handle_proxied : Gate → Request → Gate × Reply
  handle_proxied g r =
      if starts_with spec.control_prefix r.path
      then (g, forbidden)
      else (let (g', session) = validated g r in
          elim session [
            | some p ↦ (g', forwarded p.id)
            | none ↦
                if is_method r (codes "GET") || is_method r (codes "HEAD")
                then (g', redirected login_path none)
                else (g', authentication_required)
          ])

  -- `onRequest`
  unfoldable pub on_request : Gate → Request → Gate × Reply
  on_request g r =
      if not (is_allowed spec r.remote)
      then (g, forbidden)
      else if text_eq r.path healthz_path
      then (g, healthy)
      else if text_eq r.path login_path
      then handle_login hash_session_secret spec g r
      else elim (handle_wait_routes g r) [
        | some answer ↦ answer
        | none ↦ elim (handle_device_pages g r) [ some answer ↦ answer | none ↦ handle_proxied g r ]
      ]

  -- A refused upgrade counts against its address.
  unfoldable pub deny_upgrade : Gate → Request → Gate
  deny_upgrade g r = record g {
    upgrades = prune spec.upgrade_limits (fail spec.upgrade_limits g.upgrades r.remote r.at) r.at;
  }

  -- An upgrade behind the address and the rate tests.
  unfoldable pub authenticate_upgrade : Gate → Request → Gate × Reply
  unfolding deny_upgrade
  authenticate_upgrade g r =
      let (g', session) = validated g r in
      elim session [
        | none ↦ (deny_upgrade g' r, authentication_required)
        | some p ↦
            if starts_with spec.control_prefix r.path
            then (deny_upgrade g' r, authentication_required)
            else (g', forwarded p.id)
      ]

  -- The admission of an `upgrade`: `forwarded` is the request to the backend, `too_many_attempts` and
  -- `authentication_required` are the refusals with 429 and 401.
  unfoldable pub on_upgrade : Gate → Request → Gate × Reply
  on_upgrade g r =
      if not (is_allowed spec r.remote)
      then (g, forbidden)
      else (let (upgrades, retry_after) = check g.upgrades r.remote r.at in
          let g' : Gate = record g { upgrades = upgrades } in
          if ltb 0 retry_after
          then (g', too_many_attempts retry_after)
          else authenticate_upgrade g' r)
