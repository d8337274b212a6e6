-- ===== src/Gate/Login.antt =====
-- src/proxy.ts: `handleLogin`. Pages, headers and the audit lines are left out of the answers; what
-- `loginPage` and `sendHtml` do with them changes no state.
use dsh_full_remote.Prelude.{
  ℕ, Bool, true, false, not, Option, none, some, [], ltb, get_or, if◌then◌else◌,
}
use dsh_full_remote.Prelude.Text.{Text, codes, text_eq}
use dsh_full_remote.Gate.Paths.{home_path, wait_page_path}
use dsh_full_remote.Gate.State.{
  Spec, Gate, Form, Request, Reply, forbidden, login_page, method_not_allowed, too_many_attempts,
  too_many_devices, denied, bad_request, redirected,
}
use dsh_full_remote.Invites.Codes.{Codes, Consume, refused, first, retry, consume, bind_session}
use dsh_full_remote.Security.{safe_equal}
use dsh_full_remote.Sessions.Cookie.{encode_session_cookie}
use dsh_full_remote.Sessions.Login.{Credential, capacity_error, logged_in, login, reissue}
use dsh_full_remote.Sessions.Record.{is_pending_status}
use dsh_full_remote.Tracker.Buckets.{reserve, fail, success, prune}

-- `spec.ipAllowed === undefined || spec.ipAllowed(remote)`
unfoldable pub is_allowed : Spec → Text → Bool
is_allowed spec remote = elim spec.ip_allowed [ none ↦ true | some allowed ↦ allowed remote ]

-- `spec.inviteStore?.consume(inviteCode, remote)`
unfoldable pub consume_invite : Spec → Option Codes → Text → Text → ℕ → Option Codes × Consume
consume_invite spec none code remote at = (none, refused)
consume_invite spec (some codes) code remote at =
    let (kept, answer) = consume spec.invite_options codes code (some remote) at in
    (some kept, answer)

unfoldable pub is_refused : Consume → Bool
is_refused refused = true
is_refused first = false
is_refused (retry id) = false

-- `spec.inviteStore?.bindSession?.(inviteCode, session.id)` for an invite.
unfoldable pub bind_invite : Option Codes → Text → Text → Option Codes
bind_invite none code session_id = none
bind_invite (some codes) code session_id =
    if text_eq code [] then some codes else some (bind_session codes code session_id)

-- `form.get('next') === 'home'`
unfoldable pub wants_home : Option Text → Bool
wants_home none = false
wants_home (some next) = text_eq next (codes "home")

-- The redirect with the cookie.
unfoldable pub welcome : Form → Credential → Reply
welcome form c =
    redirected
      (if is_pending_status c.status
        then wait_page_path c.id
        else if wants_home form.next
        then home_path
        else codes "/")
      (some (encode_session_cookie c.id c.secret))

-- The refusal of a token or an invite.
unfoldable pub deny_login : Spec → Gate → Request → Gate × Reply
deny_login spec g r = (
  record g {
    logins =
        prune spec.login_limits (fail spec.login_limits g.logins r.remote r.resumed_at)
          r.resumed_at;
  },
  denied,
)

module _ (hash_session_secret : Text → Text) (spec : Spec) where
  -- The client of a used invite: its session with a new secret.
  unfoldable pub login_again : Gate → Request → Form → Option Text → Gate × Reply
  login_again g r form none = (g, denied)
  login_again g r form (some session_id) =
      let (sessions, credential) =
        reissue hash_session_secret spec.sessions_config g.sessions r.resumed_at session_id
          r.fresh_secret (some r.remote) in
      let g' : Gate = record g { sessions = sessions } in
      elim credential [ none ↦ (g', denied) | some c ↦ (g', welcome form c) ]

  -- A new session.
  unfoldable pub login_new : Gate → Request → Form → Gate × Reply
  login_new g r form =
      let (sessions, result) =
        login hash_session_secret spec.sessions_config g.sessions r.resumed_at r.fresh_id
          r.fresh_secret r.user_agent (some r.remote) in
      elim result [
        | capacity_error ↦ (record g { sessions = sessions }, too_many_devices)
        | logged_in c ↦ (
          record g {
            sessions = sessions;
            invites = bind_invite g.invites (get_or form.invite []) c.id;
          },
          welcome form c,
        )
      ]

  -- The login that the token or the invite has admitted.
  unfoldable pub admit_login : Gate → Request → Form → Consume → Gate × Reply
  unfolding login_again login_new
  admit_login g r form consumed =
      let g' : Gate = record g { logins = success g.logins r.remote } in
      elim consumed [
        | retry session_id ↦ login_again g' r form session_id
        | _ ↦ login_new g' r form
      ]

  -- From the form on. A token login has consumed no invite, which is written `first` here.
  unfoldable pub login_with_form : Gate → Request → Form → Gate × Reply
  unfolding admit_login
  login_with_form g r form =
      let code = get_or form.invite [] in
      if not (text_eq code [])
      then (let (invites, consumed) = consume_invite spec g.invites code r.remote r.resumed_at in
          let g' : Gate = record g { invites = invites } in
          if is_refused consumed then deny_login spec g' r else admit_login g' r form consumed)
      else (if safe_equal (get_or form.token []) spec.access_token
          then admit_login g r form first
          else deny_login spec g r)

  -- From the reservation of an attempt on.
  unfoldable pub attempt_login : Gate → Request → Gate × Reply
  unfolding login_with_form
  attempt_login g r =
      let (logins, retry_after) = reserve spec.login_limits g.logins r.remote r.at in
      let g' : Gate = record g { logins = logins } in
      if ltb 0 retry_after then (g', too_many_attempts retry_after) else elim r.form [
        | none ↦ (
          record g' { logins = fail spec.login_limits logins r.remote r.resumed_at },
          bad_request,
        )
        | some form ↦ login_with_form g' r form
      ]

  -- `handleLogin`
  unfoldable pub handle_login : Gate → Request → Gate × Reply
  unfolding attempt_login
  handle_login g r =
      if text_eq r.method (codes "GET")
      then (g, login_page)
      else if not (text_eq r.method (codes "POST"))
      then (g, method_not_allowed)
      else if not (is_allowed spec r.remote)
      then (g, forbidden)
      else attempt_login g r
