-- ===== src/Runtime/Actions.antt =====
-- src/index.ts: start, stop, rotate, the listen address, the sessions and the tunnel. Each action gives the
-- state that it leaves, and false where it throws.
use dsh_full_remote.Prelude.{
  ℕ, Bool, true, false, not, ◌||◌, Option, none, some, List, is_some, if◌then◌else◌,
}
use dsh_full_remote.Prelude.Text.{Text, codes}
use dsh_full_remote.Net.Hosts.{is_self_loop}
use dsh_full_remote.Invites.Codes.{clear_codes}
use dsh_full_remote.Sessions.Admin.{clear}
use dsh_full_remote.Sessions.Disk.{RawSession, hydrate, serialize}
use dsh_full_remote.Tunnel.Manager.{Tunnel, tunnel_trusts_forwarding, start, stop, stop_ends}
use dsh_full_remote.Runtime.State.{Listen, RuntimeConfig, Runtime, save, effective_listen}

-- `await tunnel.stop()`, to its end.
abbrev pub stop_tunnel_manager : Tunnel → Tunnel
stop_tunnel_manager t = let s = stop t in if s.stopping then stop_ends s else s

-- `closeBound`, where `closes` tells whether the listener closes.
unfoldable pub close_bound : Runtime → Bool → Runtime × Bool
close_bound r closes = elim r.bound [
  | none ↦ (r, true)
  | some current ↦ if closes then (record r { bound = none }, true) else (r, false)
]

-- `teardown`
unfoldable pub teardown : Runtime → Bool → Runtime × Bool
unfolding close_bound
teardown r closes = close_bound (record r { tunnel = stop_tunnel_manager r.tunnel }) closes

-- `tunnelLive`
abbrev pub tunnel_live : Runtime → Bool
tunnel_live r = tunnel_trusts_forwarding r.tunnel.state

-- `restartTunnelIfLive`
unfoldable pub restart_tunnel_if_live : RuntimeConfig → Runtime → Bool → Runtime
restart_tunnel_if_live c r was_live =
    if not was_live || not (is_some r.bound) || r.disposed || c.https
    then r
    else record r { tunnel = start r.tunnel }

-- `failStart`
abbrev pub fail_start : Runtime → Text → Runtime × Bool
fail_start r reason = (record r { last_failure = some reason }, true)

-- How a start ends outside: whether the certificate is read, what the listener is bound to or the reason
-- why not, whether the state is written and, if not, whether the listener closes again.
pub record Start : Type 0 where
  pub reads_tls : Bool
  pub binds : Option Listen
  pub refusal : Text
  pub writes : Bool
  pub closes : Bool

-- `start` once the listener is bound.
unfoldable pub bound_start : RuntimeConfig → Runtime → Listen → ℕ → Start → Runtime × Bool
unfolding save teardown
bound_start c r listen at e =
    let saved =
      save c (record r { bound = some listen; last_failure = none; enabled = true }) at e.writes in
    if saved.1 then saved else ((teardown (record saved.0 { enabled = false }) e.closes).0, false)

-- `start`
unfoldable pub start_proxy : RuntimeConfig → Runtime → ℕ → Start → Runtime × Bool
unfolding effective_listen bound_start
start_proxy c r at e =
    let listen = effective_listen c r in
    if r.disposed
    then fail_start r (codes "disposed")
    else if is_some r.bound
    then (record r { last_failure = none }, true)
    else if r.persistence_blocked
    then fail_start r (codes "state-invalid")
    else if is_self_loop listen.host listen.port c.backend_host c.backend_port
    then fail_start r (codes "self-loop")
    else if not e.reads_tls
    then fail_start r (codes "tls-failed")
    else elim e.binds [
      | none ↦ fail_start r e.refusal
      | some listen' ↦ bound_start c r listen' at e
    ]

-- `stop`
unfoldable pub stop_proxy : RuntimeConfig → Runtime → ℕ → (closes writes : Bool) → Runtime × Bool
unfolding teardown save
stop_proxy c r at closes writes =
    let down = teardown r closes in
    if not down.1
    then down
    else save c (record down.0 { enabled = false; last_failure = none }) at writes

-- `rotateToken` once the listener is down: `previous` is what `serialize` gave before.
unfoldable pub rotate_down :
    RuntimeConfig → Runtime → List RawSession → Text → ℕ → Bool → Runtime × Bool
unfolding save hydrate clear clear_codes
rotate_down c r previous token at writes =
    let fresh : Runtime = record r {
      access_token = token;
      sessions = clear r.sessions;
      invites = clear_codes r.invites;
    } in
    let saved = save c fresh at writes in
    if saved.1 then saved else (
      record (saved.0) {
        access_token = r.access_token;
        sessions = hydrate c.sessions saved.0.sessions (some previous);
        last_failure = some (codes "rotate-save-failed");
      },
      false,
    )

-- The part of `rotateToken` behind the save.
unfoldable pub rotate_up :
    RuntimeConfig → Runtime → (restart was_tunnel : Bool) → ℕ → Start → Runtime × Bool
unfolding start_proxy restart_tunnel_if_live
rotate_up c r restart was_tunnel at e =
    let up = if restart then start_proxy c r at e else (r, true) in
    if up.1 then (restart_tunnel_if_live c up.0 was_tunnel, true) else up

-- `rotateToken` behind the teardown.
unfoldable pub rotate_after :
    RuntimeConfig
    → Runtime × Bool
    → List RawSession
    → Text
    → ℕ
    → (writes restart was_tunnel : Bool) → Start
    → Runtime × Bool
rotate_after c down previous token at writes restart was_tunnel e =
    if not down.1
    then down
    else let rotated = rotate_down c down.0 previous token at writes in
      if rotated.1 then rotate_up c rotated.0 restart was_tunnel at e else rotated

-- `rotateToken`
unfoldable pub rotate_token :
    RuntimeConfig → Runtime → Text → ℕ → (closes writes : Bool) → Start → Runtime × Bool
rotate_token c r token at closes writes e =
    let out = serialize c.sessions r.sessions at in
    rotate_after c (teardown (record r { sessions = out.0 }) closes) out.1 token at writes
      (is_some r.bound) (tunnel_live r) e
