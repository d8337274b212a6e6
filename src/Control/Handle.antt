-- ===== src/Control/Handle.antt =====
-- src/control-routes.ts: the handlers and `handle`. The actions are those of the runtime; the probe of the
-- self-check, the audit file and the lines that are recorded are outside.
use dsh_full_remote.Prelude.{
  ℕ, Bool, true, false, not, ◌||◌, Option, none, some, List, [], ◌++◌, get_or, is_some,
  if◌then◌else◌,
}
use dsh_full_remote.Prelude.Text.{Text, codes, text_eq}
use dsh_full_remote.Prelude.StrMap.{get}
use dsh_full_remote.Net.Hosts.{is_loopback_host}
use dsh_full_remote.Invites.Codes
use dsh_full_remote.Sessions.Access.{PublicSession}
use dsh_full_remote.Sessions.Admin.{list}
use dsh_full_remote.Sessions.Record.{sweep}
use dsh_full_remote.Runtime.State.{RuntimeConfig, Runtime}
use dsh_full_remote.Runtime.Actions.{
  Start, stop_tunnel_manager, start_proxy, stop_proxy, rotate_token,
}
use dsh_full_remote.Runtime.Commands.{
  Mutation, approves, revokes, renames, mutate_session, start_tunnel, set_listen, mutate,
}
use dsh_full_remote.Control.Routes.{
  Route, status, self_check, invite, token, sessions, audit, audit_export, tunnel_start,
  tunnel_stop, listen, routes, Fields, JsonBody, unreadable, null_body, fields, Request,
  audit_query, InviteResult, invalid_base, not_running, invited, build_invite, control_header_value,
}
use dsh_full_remote.Control.Routes
use dsh_full_remote.Control.Snapshot.{
  PanelConfig, RuntimeStatus, SelfCheck, snapshot, run_self_check,
}

-- The answers.
pub data Reply : Type 0 where
  refused : (code : ℕ) (error : Text) → Reply
  displayed : RuntimeStatus → Reply
  checked : SelfCheck → Reply
  invitation : (url code : Text) → Reply
  access_token : Text → Reply
  session_list : List PublicSession → Reply
  audit_events : (limit : ℕ) (event : Option Text) → Reply
  audit_file : (event : Option Text) → Reply
  mutated : Bool → Reply

-- `ControlRouteDeps` as far as it does not change, with the platform's URLs: `hostname_of` is
-- `new URL(origin).hostname`.
pub record ControlSpec : Type 0 where
  pub allow_token_read : Bool
  pub runtime : RuntimeConfig
  pub invite_options : Codes.Options
  pub resolve : Text → Text → Option (Text × Text)
  pub hostname_of : Text → Option Text
  pub panel : PanelConfig

-- How the environment ends an action, and what it draws at random.
pub record Ends : Type 0 where
  pub at : ℕ
  pub first : Start
  pub second : Start
  pub saves : Bool
  pub closes : Bool
  pub writes : Bool
  pub fresh_token : Text
  pub fresh_code : Text

-- `isLoopbackOrigin`
unfoldable pub is_loopback_origin : ControlSpec → Option Text → Bool
is_loopback_origin spec none = true
is_loopback_origin spec (some origin) = elim (spec.hostname_of origin) [
  | none ↦ false
  | some hostname ↦ is_loopback_host hostname
]

-- `snapshot`
abbrev pub spec_snapshot : ControlSpec → Runtime → RuntimeStatus
spec_snapshot spec r = snapshot spec.runtime spec.panel r

-- `sendJson(res, 200, await action())`, where an action that throws gives 500.
abbrev pub acted : ControlSpec → Runtime × Bool → Runtime × Reply
acted spec (r, ok) =
    (r, if ok then displayed (spec_snapshot spec r) else refused 500 (codes "action-failed"))

-- `withJson`
abbrev pub with_json : Runtime → JsonBody → (Fields → Runtime × Reply) → Runtime × Reply
with_json r unreadable f = (r, refused 400 (codes "invalid-request"))
with_json r null_body f = (r, refused 500 (codes "action-failed"))
with_json r (fields body) f = f body

-- The refusals of `startTunnel`.
abbrev pub tunnel_refusal : RuntimeConfig → Runtime → Option Reply
tunnel_refusal c r =
    if r.disposed
    then some (refused 409 (codes "disposed"))
    else if not (is_some r.bound)
    then some (refused 409 (codes "not-running"))
    else if c.https
    then some (refused 400 (codes "tls-unsupported"))
    else none

abbrev pub invite_reply : Runtime × InviteResult → Runtime × Reply
invite_reply (r, invalid_base) = (r, refused 400 (codes "invalid-base"))
invite_reply (r, not_running) = (r, refused 409 (codes "not-running"))
invite_reply (r, invited url code) = (r, invitation url code)

-- Whether the mutation found its session after the sweep, which `mutateSession` returns.
abbrev pub mutation_reply : Bool → Runtime × Bool → Runtime × Reply
mutation_reply found (r, ok) =
    (r, if ok then mutated found else refused 500 (codes "action-failed"))

-- `mutateSession` of the routes.
unfoldable pub mutate_route : ControlSpec → Runtime → Mutation → Ends → Runtime × Reply
mutate_route spec r mutation e =
    mutation_reply (mutate (sweep spec.runtime.sessions r.sessions e.at) mutation e.at).1
      (mutate_session spec.runtime r mutation e.at e.writes)

-- The handler of a route.
unfoldable pub serve : ControlSpec → Runtime → Request → Ends → Route → Runtime × Reply
serve spec r req e status = (r, displayed (spec_snapshot spec r))
serve spec r req e self_check =
    (r, checked (run_self_check spec.runtime spec.panel spec.allow_token_read r))
serve spec r req e invite = with_json r req.body (λ body. invite_reply (
    build_invite spec.invite_options spec.resolve r (spec_snapshot spec r).target body.public_base
      e.fresh_code e.at))
serve spec r req e token = (
  r,
  if not spec.allow_token_read
      then refused 403 (codes "token-read-disabled")
      else access_token r.access_token,
)
serve spec r req e sessions =
    let out = list spec.runtime.sessions r.sessions e.at in
    (record r { sessions = out.0 }, session_list out.1)
serve spec r req e audit = (r, audit_events (audit_query req).0 (audit_query req).1)
serve spec r req e audit_export = (r, audit_file (audit_query req).1)
serve spec r req e tunnel_start = elim (tunnel_refusal spec.runtime r) [
  | some reply ↦ (r, reply)
  | none ↦
      (start_tunnel spec.runtime r, displayed (spec_snapshot spec (start_tunnel spec.runtime r)))
]
serve spec r req e tunnel_stop =
    let stopped : Runtime = record r { tunnel = stop_tunnel_manager r.tunnel } in
    (stopped, displayed (spec_snapshot spec stopped))
serve spec r req e Routes.approve =
    with_json r req.body (λ body. mutate_route spec r (approves (get_or body.id [])) e)
serve spec r req e Routes.revoke =
    with_json r req.body (λ body. mutate_route spec r (revokes (get_or body.id [])) e)
serve spec r req e Routes.rename =
    with_json r req.body (λ body. mutate_route spec r (renames (get_or body.id []) body.label) e)
serve spec r req e Routes.start = acted spec (start_proxy spec.runtime r e.at e.first)
serve spec r req e Routes.stop = acted spec (stop_proxy spec.runtime r e.at e.closes e.writes)
serve spec r req e Routes.rotate_token =
    let out = rotate_token spec.runtime r e.fresh_token e.at e.closes e.writes e.first in
    (out.0, if out.1 then access_token out.0.access_token else refused 500 (codes "action-failed"))
serve spec r req e listen = with_json r req.body (λ body.
    acted spec (
      set_listen spec.runtime r body.host body.port e.at e.saves e.closes e.writes e.first
        e.second))

-- The route of a request.
abbrev pub route_of : Request → Option Route
route_of req = get (req.method ++ codes " " ++ req.path) routes

-- `handle`
unfoldable pub handle : ControlSpec → Runtime → Request → Ends → Runtime × Reply
handle spec r req e =
    if not (is_loopback_host (get_or req.remote_address []))
    then (r, refused 403 (codes "loopback-required"))
    else elim (route_of req) [
      | none ↦ (r, refused 404 (codes "not-found"))
      | some found ↦
          if not (text_eq (get_or req.control_header []) control_header_value)
            || not (is_loopback_origin spec req.origin)
          then (r, refused 403 (codes "forbidden"))
          else serve spec r req e found
    ]
