-- ===== src/Runtime/Commands.antt =====
-- src/index.ts: `setListen`, the mutation of a session, the tunnel's commands, `restore` and `dispose`, and
-- histories of what passes the write gate.
use dsh_full_remote.Prelude.{
  ℕ, Bool, true, false, not, ◌&&◌, ◌||◌, Option, none, some, List, [], ◌∷◌, ◌++◌, ◌==◌, ltb, any,
  length, is_some, if◌then◌else◌,
}
use dsh_full_remote.Prelude.Text.{Text, text_eq, trim, is_space}
use dsh_full_remote.Sessions.Record.{Store}
use dsh_full_remote.Sessions.Admin.{revoke, approve, rename}
use dsh_full_remote.Sessions.Disk.{hydrate, serialize}
use dsh_full_remote.Tunnel.Manager.{start}
use dsh_full_remote.Runtime.State.{Listen, RuntimeConfig, Runtime, save, effective_listen}
use dsh_full_remote.Runtime.Actions.{
  stop_tunnel_manager, teardown, tunnel_live, restart_tunnel_if_live, Start, start_proxy,
  stop_proxy, rotate_token,
}

-- `isValidListenHost`
unfoldable pub is_valid_listen_host : Text → Bool
is_valid_listen_host value =
    if length value == 0 || ltb 253 (length value)
    then false
    else not (any (λ c. is_space c || c == b'/' || c == b'\\') value)

-- `setListen` behind the save: the new address is tried, then the old one.
unfoldable pub relisten :
    RuntimeConfig
    → Runtime
    → Listen
    → (was_running was_tunnel : Bool) → ℕ
    → (closes writes : Bool) → Start
    → Start
    → Runtime × Bool
unfolding teardown start_proxy save restart_tunnel_if_live
relisten c r previous was_running was_tunnel at closes writes e e' =
    let down = teardown r closes in
    if not down.1 || not was_running
    then down
    else let up = start_proxy c down.0 at e in
      if not up.1
      then up
      else if is_some up.0.bound
      then (restart_tunnel_if_live c up.0 was_tunnel, true)
      else let back =
          save c
            (record (up.0) { listen_host = some previous.host; listen_port = some previous.port })
            at writes in
        if not back.1
        then back
        else let restored = start_proxy c back.0 at e' in
          if not restored.1
          then restored
          else (restart_tunnel_if_live c restored.0 (was_tunnel && is_some restored.0.bound), true)

-- `setListen`: the port is none where it is no integer that is not negative.
unfoldable pub set_listen :
    RuntimeConfig
    → Runtime
    → Text
    → Option ℕ
    → ℕ
    → (saves closes writes : Bool) → Start
    → Start
    → Runtime × Bool
unfolding is_valid_listen_host effective_listen save relisten
set_listen c r host port at saves closes writes e e' =
    let previous = effective_listen c r in
    elim port [
      | none ↦ (r, true)
      | some number ↦
          if not (is_valid_listen_host (trim host)) || ltb 65535 number
          then (r, true)
          else if text_eq (trim host) previous.host && number == previous.port
          then (r, true)
          else let saved =
              save c
                (record r {
                  listen_host = some (trim host);
                  listen_port = some number;
                  last_failure = none;
                })
                at saves in
            if saved.1
            then relisten c saved.0 previous (is_some r.bound) (tunnel_live r) at closes writes e e'
            else (
              record (saved.0) { listen_host = r.listen_host; listen_port = r.listen_port },
              false,
            )
    ]

pub data Mutation : Type 0 where
  approves revokes : (id : Text) → Mutation
  renames : (id : Text) (label : Option Text) → Mutation

abbrev pub mutate : Store → Mutation → ℕ → Store × Bool
mutate st (approves id) at = approve st id at
mutate st (revokes id) at = revoke st id at
mutate st (renames id label) at = rename st id label

-- `if (action === 'revoke') bound?.closeSession(id)`
unfoldable pub close_revoked : Runtime → Mutation → Runtime
close_revoked r (approves id) = r
close_revoked r (renames id label) = r
close_revoked r (revokes id) =
    if is_some r.bound then record r { closed_sessions = r.closed_sessions ++ id ∷ [] } else r

-- `mutateSession`
unfoldable pub mutate_session : RuntimeConfig → Runtime → Mutation → ℕ → Bool → Runtime × Bool
unfolding serialize save hydrate close_revoked
mutate_session c r mutation at writes =
    let out = serialize c.sessions r.sessions at in
    let mutated = mutate out.0 mutation at in
    let r' : Runtime = record r { sessions = mutated.0 } in
    if not mutated.1
    then (r', true)
    else let saved = save c r' at writes in
      if saved.1
      then (close_revoked saved.0 mutation, true)
      else (record (saved.0) { sessions = hydrate c.sessions saved.0.sessions (some out.1) }, false)

-- `startTunnel`
unfoldable pub start_tunnel : RuntimeConfig → Runtime → Runtime
start_tunnel c r =
    if r.disposed || not (is_some r.bound) || c.https
    then r
    else record r { tunnel = start r.tunnel }

-- `restore`
unfoldable pub restore : RuntimeConfig → Runtime → ℕ → Start → Runtime × Bool
unfolding start_proxy
restore c r at e =
    if not c.auto_restore || not r.enabled || r.disposed then (r, true) else start_proxy c r at e

-- `dispose` to its save, of which a failure is passed over.
unfoldable pub dispose : RuntimeConfig → Runtime → ℕ → (closes writes : Bool) → Runtime × Bool
unfolding teardown save
dispose c r at closes writes =
    let down = teardown (record r { disposed = true }) closes in
    if down.1 then ((save c down.0 at writes).0, true) else down

-- What passes the write gate, with how the environment ends it.
pub data Command : Type 0 where
  starts restores : (e : Start) → Command
  halts disposes : (closes writes : Bool) → Command
  rotates : (token : Text) (closes writes : Bool) (e : Start) → Command
  listens : (host : Text) (port : Option ℕ) (saves closes writes : Bool) (e e' : Start) → Command
  mutates : (mutation : Mutation) (writes : Bool) → Command
  tunnels : Command
  untunnels : Command

unfoldable pub command : RuntimeConfig → Runtime → Command → ℕ → Runtime
unfolding start_proxy restore stop_proxy dispose rotate_token set_listen mutate_session start_tunnel
command c r (starts e) at = (start_proxy c r at e).0
command c r (restores e) at = (restore c r at e).0
command c r (halts closes writes) at = (stop_proxy c r at closes writes).0
command c r (disposes closes writes) at = (dispose c r at closes writes).0
command c r (rotates token closes writes e) at = (rotate_token c r token at closes writes e).0
command c r (listens host port saves closes writes e e') at =
    (set_listen c r host port at saves closes writes e e').0
command c r (mutates mutation writes) at = (mutate_session c r mutation at writes).0
command c r tunnels at = start_tunnel c r
command c r untunnels at = record r { tunnel = stop_tunnel_manager r.tunnel }

-- Commands one after another, each at its time.
unfoldable pub run_commands : RuntimeConfig → Runtime → List (Command × ℕ) → Runtime
unfolding command
run_commands c r [] = r
run_commands c r ((x, at) ∷ l) = run_commands c (command c r x at) l
