-- ===== src/Control/Concealed.antt =====
-- What the control API of src/control-routes.ts shows does not depend on the access token.
use dsh_full_remote.Prelude.{
  ◌≡◌, refl, ap, ◌∙◌, sym, Bool, false, Option, some, [], arith, Option-cases, inl, inr, get_or,
}
use dsh_full_remote.Prelude.Text.{Text}
use dsh_full_remote.Runtime.State.{File, Runtime, effective_listen}
use dsh_full_remote.Runtime.Actions.{start_proxy, stop_proxy}
use dsh_full_remote.Runtime.Commands.{
  Mutation, approves, revokes, renames, start_tunnel, set_listen,
}
use dsh_full_remote.Sessions.Admin.{list}
use dsh_full_remote.Control.Routes.{
  Route, status, self_check, invite, token, sessions, audit, audit_export, tunnel_start,
  tunnel_stop, listen, Request, unreadable, null_body, fields, Fields, JsonBody, build_invite,
}
use dsh_full_remote.Control.Routes
use dsh_full_remote.Control.Snapshot.{snapshot, shown_listen, run_self_check}
use dsh_full_remote.Control.Handle.{
  Reply, ControlSpec, Ends, serve, handle, mutate_route, route_of, acted, invite_reply, with_json,
  spec_snapshot,
}
use dsh_full_remote.Control.Guarded.{is_rotation}
use dsh_full_remote.Runtime.Masked.{
  masked, IsAlike, start_proxy-masked, stop_proxy-masked, mutate_session-masked, set_listen-masked,
}

acted-alike :
    (spec : ControlSpec) (a b : Runtime × Bool) → IsAlike a b → (acted spec a).1 ≡ (acted spec b).1
unfolding snapshot shown_listen effective_listen
acted-alike spec a b h = ground (arith, h.1, ap (spec_snapshot spec) h.0)

json-alike :
    (r r' : Runtime) (body : JsonBody) (f f' : Fields → Runtime × Reply)
    → ((b : Fields) → (f b).1 ≡ (f' b).1)
    → (with_json r body f).1 ≡ (with_json r' body f').1
json-alike r r' unreadable f f' h = refl
json-alike r r' null_body f f' h = refl
json-alike r r' (fields b) f f' h = h b

mutate_route-masked :
    (spec : ControlSpec) (r : Runtime) (mutation : Mutation) (e : Ends)
    → (mutate_route spec r mutation e).1 ≡ (mutate_route spec (masked r) mutation e).1
unfolding mutate_route
mutate_route-masked spec r mutation e =
    ground (arith, (mutate_session-masked spec.runtime r mutation e.at e.writes).1)

invite-masked :
    (spec : ControlSpec) (r : Runtime) (base : Option Text) (e : Ends)
    → (invite_reply (
        build_invite spec.invite_options spec.resolve r
          (spec_snapshot spec r).target
          base
          e.fresh_code
          e.at)).1
      ≡ (invite_reply (
          build_invite spec.invite_options spec.resolve
            (masked r)
            (spec_snapshot spec (masked r)).target
            base
            e.fresh_code
            e.at)).1
unfolding build_invite snapshot shown_listen effective_listen
invite-masked spec r base e = ground arith

abbrev set_ends : ControlSpec → Runtime → Fields → Ends → Runtime × Bool
set_ends spec r b e =
    set_listen spec.runtime r b.host b.port e.at e.saves e.closes e.writes e.first e.second

serve-masked :
    (spec : ControlSpec) (r : Runtime) (req : Request) (e : Ends) (found : Route)
    → spec.allow_token_read ≡ false
    → is_rotation (some found) ≡ false
    → (serve spec r req e found).1 ≡ (serve spec (masked r) req e found).1
unfolding serve snapshot shown_listen effective_listen run_self_check start_tunnel list
serve-masked spec r req e status a n = refl
serve-masked spec r req e self_check a n = refl
serve-masked spec r req e invite a n =
    json-alike r (masked r) req.body _ _ (λ b. invite-masked spec r b.public_base e)
serve-masked spec r req e token a n = ground (arith, a)
serve-masked spec r req e sessions a n = refl
serve-masked spec r req e audit a n = refl
serve-masked spec r req e audit_export a n = refl
serve-masked spec r req e tunnel_start a n = ground arith
serve-masked spec r req e tunnel_stop a n = refl
serve-masked spec r req e Routes.approve a n =
    json-alike r (masked r) req.body _ _
      (λ b. mutate_route-masked spec r (approves (get_or b.id [])) e)
serve-masked spec r req e Routes.revoke a n =
    json-alike r (masked r) req.body _ _
      (λ b. mutate_route-masked spec r (revokes (get_or b.id [])) e)
serve-masked spec r req e Routes.rename a n =
    json-alike r (masked r) req.body _ _
      (λ b. mutate_route-masked spec r (renames (get_or b.id []) b.label) e)
serve-masked spec r req e Routes.start a n =
    acted-alike spec (start_proxy spec.runtime r e.at e.first)
      (start_proxy spec.runtime (masked r) e.at e.first)
      (start_proxy-masked spec.runtime r e.at e.first)
serve-masked spec r req e Routes.stop a n =
    acted-alike spec (stop_proxy spec.runtime r e.at e.closes e.writes)
      (stop_proxy spec.runtime (masked r) e.at e.closes e.writes)
      (stop_proxy-masked spec.runtime r e.at e.closes e.writes)
serve-masked spec r req e Routes.rotate_token a n = absurd cc
serve-masked spec r req e listen a n = json-alike r (masked r) req.body _ _ (λ b.
    acted-alike spec (set_ends spec r b e) (set_ends spec (masked r) b e) (
      set_listen-masked spec.runtime r b.host b.port e.at e.saves e.closes e.writes e.first
        e.second))

handle-masked :
    (spec : ControlSpec) (r : Runtime) (req : Request) (e : Ends)
    → spec.allow_token_read ≡ false
    → is_rotation (route_of req) ≡ false
    → (handle spec r req e).1 ≡ (handle spec (masked r) req e).1
unfolding handle
handle-masked spec r req e a n = elim (Option-cases (route_of req)) [
  | inl f ↦ ground (arith, f)
  | inr (found, f) ↦
      let same = serve-masked spec r req e found a (ground (arith, f, n)) in ground (arith, f, same)
]

-- Where reading the token is not allowed, the answer to any request but a rotation is the same
-- whatever the access token is, in memory and in the state file.
pub handle-conceals :
    (spec : ControlSpec) (r : Runtime) (secret : Text) (file : Option File) (req : Request)
    (e : Ends)
    → spec.allow_token_read ≡ false
    → is_rotation (route_of req) ≡ false
    → (handle spec (record r { access_token = secret; file = file }) req e).1
      ≡ (handle spec r req e).1
handle-conceals spec r secret file req e a n =
    handle-masked spec (record r { access_token = secret; file = file }) req e a n
    ∙ sym (handle-masked spec r req e a n)
