-- ===== src/Gate/Own.antt =====
-- The answers that the gate gives itself, without the backend.
use dsh_full_remote.Prelude.{
  ◌≡◌, refl, Bool, true, false, not, Option, none, some, [], arith, get_or, if_both, Option-cases,
  inl, inr,
}
use dsh_full_remote.Prelude.Text.{Text, text_eq}
use dsh_full_remote.Gate.Login.{
  handle_login, attempt_login, login_with_form, admit_login, login_again, login_new, deny_login,
  welcome, is_refused,
}
use dsh_full_remote.Gate.Paths.{parse_wait_path, WaitKind, page, status}
use dsh_full_remote.Gate.Routes.{
  cookie_of, wait_reply, handle_wait_routes, handle_home, handle_rename, handle_logout,
  handle_device_pages,
}
use dsh_full_remote.Gate.State.{Spec, Gate, Form, Request, Reply, forwarded}
use dsh_full_remote.Invites.Codes.{Consume, refused, first, retry}
use dsh_full_remote.Security.{safe_equal}
use dsh_full_remote.Sessions.Access.{pending_session}
use dsh_full_remote.Sessions.Record.{Session}
use dsh_full_remote.Tracker.Buckets.{reserve}

-- Does the answer come from the backend?
abbrev pub is_forwarded : Reply → Bool
is_forwarded (forwarded id) = true
is_forwarded _ = false

abbrev pub IsOwn : Gate × Reply → Type 0
IsOwn answer = is_forwarded answer.1 ≡ false

-- The same, of an answer that may be missing.
abbrev pub may_forward : Option (Gate × Reply) → Bool
may_forward none = false
may_forward (some answer) = is_forwarded answer.1

wait_reply-not_forwarded :
    (k : WaitKind) (s : Option Session) → is_forwarded (wait_reply k s) ≡ false
unfolding wait_reply
wait_reply-not_forwarded page none = refl
wait_reply-not_forwarded page (some s) = ground arith
wait_reply-not_forwarded status none = refl
wait_reply-not_forwarded status (some s) = refl

module _ (hash_session_secret : Text → Text) (spec : Spec) where
  login_again-not_forwarded :
      (g : Gate) (r : Request) (form : Form) (id : Option Text)
      → is_forwarded (login_again hash_session_secret spec g r form id).1 ≡ false
  unfolding login_again welcome
  login_again-not_forwarded g r form none = refl
  login_again-not_forwarded g r form (some id) = ground arith

  login_new-not_forwarded :
      (g : Gate) (r : Request) (form : Form)
      → is_forwarded (login_new hash_session_secret spec g r form).1 ≡ false
  unfolding login_new welcome
  login_new-not_forwarded g r form = ground arith

  admit_login-not_forwarded :
      (g : Gate) (r : Request) (form : Form) (c : Consume)
      → is_forwarded (admit_login hash_session_secret spec g r form c).1 ≡ false
  unfolding admit_login
  admit_login-not_forwarded g r form refused = login_new-not_forwarded _ r form
  admit_login-not_forwarded g r form first = login_new-not_forwarded _ r form
  admit_login-not_forwarded g r form (retry id) = login_again-not_forwarded _ r form id

  login_with_form-not_forwarded :
      (g : Gate) (r : Request) (form : Form)
      → is_forwarded (login_with_form hash_session_secret spec g r form).1 ≡ false
  unfolding login_with_form deny_login
  login_with_form-not_forwarded g r form =
      let admitted = admit_login-not_forwarded in
      if_both IsOwn (not (text_eq (get_or form.invite []) []))
        (if_both IsOwn (is_refused _) refl (admitted _ r form _))
        (if_both IsOwn (safe_equal _ _) (admitted g r form first) refl)

  attempt_login-not_forwarded :
      (g : Gate) (r : Request) → is_forwarded (attempt_login hash_session_secret spec g r).1 ≡ false
  unfolding attempt_login
  attempt_login-not_forwarded g r =
      let g' : Gate = record g { logins = (reserve spec.login_limits g.logins r.remote r.at).0 } in
      elim (Option-cases r.form) [
        | inl e ↦ ground (arith, e)
        | inr (form, e) ↦ ground (arith, e, login_with_form-not_forwarded g' r form)
      ]

  pub handle_login-not_forwarded :
      (g : Gate) (r : Request) → is_forwarded (handle_login hash_session_secret spec g r).1 ≡ false
  unfolding handle_login
  handle_login-not_forwarded g r = ground (arith, attempt_login-not_forwarded g r)

  pub handle_wait_routes-not_forwarded :
      (g : Gate) (r : Request)
      → may_forward (handle_wait_routes hash_session_secret spec g r) ≡ false
  unfolding handle_wait_routes
  handle_wait_routes-not_forwarded g r = elim (Option-cases (parse_wait_path r.path)) [
    | inl e ↦ ground (arith, e)
    | inr ((id, kind), e) ↦
        let (_, session) =
          pending_session hash_session_secret spec.sessions_config g.sessions (cookie_of spec r) id
            r.at in
        ground (arith, e, wait_reply-not_forwarded kind session)
  ]

  pub handle_device_pages-not_forwarded :
      (g : Gate) (r : Request)
      → may_forward (handle_device_pages hash_session_secret spec g r) ≡ false
  unfolding handle_device_pages handle_home handle_rename handle_logout
  handle_device_pages-not_forwarded g r = ground arith
