-- ===== src/Tunnel/Manager.antt =====
-- src/tunnel.ts: `createTunnelManager`. The process, the search for its binary and the timers are the
-- environment, and each event is one turn of a callback. Each run that starts has its generation, and
-- each process is spawned by one run: the model keeps the last run and the last process, since what an
-- earlier one does is passed over by its generation or because it is not the child.
use dsh_full_remote.Prelude.{
  ℕ, suc, ◌-◌, Bool, true, false, not, ◌&&◌, ◌||◌, Option, none, some, List, [], ◌∷◌, ◌++◌, ◌==◌,
  length, drop, if◌then◌else◌,
}
use dsh_full_remote.Prelude.Text.{Text, codes}
use dsh_full_remote.Tunnel.Url.{parse_tunnel_url}

-- `TunnelState`
pub data TunnelState : Type 0 where
  off starting online error : TunnelState

abbrev pub is_starting : TunnelState → Bool
is_starting starting = true
is_starting off = false
is_starting online = false
is_starting error = false

abbrev pub is_online : TunnelState → Bool
is_online online = true
is_online off = false
is_online starting = false
is_online error = false

-- `tunnelTrustsForwarding`
unfoldable pub tunnel_trusts_forwarding : TunnelState → Bool
tunnel_trusts_forwarding state = is_online state

-- A spawned process: its identity, the generation of its run and `logTail`.
pub record Process : Type 0 where
  pub id : ℕ
  pub gen : ℕ
  pub log_tail : Text

-- The variables of the closure. `run` is the generation of the last `run` that has not come to its end,
-- `process` the last process, `timer` the process that `connectTimer` was set for, `stopping` whether a
-- `stop` awaits the exit, and `live` the processes that have neither ended nor been killed.
pub record Tunnel : Type 0 where
  pub state : TunnelState
  pub public_url : Option Text
  pub detail : Option Text
  pub child : Option ℕ
  pub timer : Option ℕ
  pub generation : ℕ
  pub run : Option ℕ
  pub process : Option Process
  pub stopping : Bool
  pub next_id : ℕ
  pub live : List ℕ

unfoldable pub create_tunnel_manager : Tunnel
create_tunnel_manager = record {
  state = off;
  public_url = none;
  detail = none;
  child = none;
  timer = none;
  generation = 0;
  run = none;
  process = none;
  stopping = false;
  next_id = 0;
  live = [];
}

-- `fail`
unfoldable pub fail : Tunnel → Text → Tunnel
fail t token = record t { state = error; detail = some token; public_url = none }

-- `clearConnectTimer`
unfoldable pub clear_connect_timer : Tunnel → Tunnel
clear_connect_timer t = record t { timer = none }

-- `x === id` of an optional number.
abbrev pub is_that : Option ℕ → ℕ → Bool
is_that none id = false
is_that (some n) id = n == id

-- A process that has ended or has been killed.
abbrev pub without : ℕ → List ℕ → List ℕ
without id [] = []
without id (n ∷ l) = if n == id then without id l else n ∷ without id l

-- `spawnTunnel`, where `spawnFn` returns or throws.
unfoldable pub spawn_tunnel : Tunnel → ℕ → Bool → Tunnel
unfolding fail
spawn_tunnel t gen false = fail t (codes "spawn-failed")
spawn_tunnel t gen true = record t {
  child = some t.next_id;
  timer = some t.next_id;
  process = some (record { id = t.next_id; gen = gen; log_tail = [] });
  next_id = suc t.next_id;
  live = t.next_id ∷ t.live;
}

-- The end of `run`: the binary was found, and spawning it works or throws.
unfoldable pub resolved : Tunnel → ℕ → Bool → Tunnel
unfolding spawn_tunnel
resolved t gen spawns =
    if not (gen == t.generation) || not (is_starting t.state)
    then t
    else spawn_tunnel (record t { detail = some (codes "connecting") }) gen spawns

-- The `catch` of `run`: the token of a `TunnelError` that is not `aborted`, or none.
unfoldable pub unresolved : Tunnel → ℕ → Option Text → Tunnel
unfolding fail
unresolved t gen token =
    if not (gen == t.generation)
    then t
    else fail t (elim token [ none ↦ codes "download-failed" | some word ↦ word ])

-- `setStage`
unfoldable pub set_stage : Tunnel → ℕ → Text → Tunnel
set_stage t gen stage =
    if gen == t.generation && is_starting t.state then record t { detail = some stage } else t

-- `text.slice(-4096)`
unfoldable pub last_4096 : Text → Text
last_4096 s = drop (length s - 4096) s

-- `onData` for the process.
unfoldable pub on_data : Tunnel → Process → Text → Tunnel
unfolding last_4096 clear_connect_timer
on_data t p chunk =
    if not (p.gen == t.generation) || not (is_starting t.state)
    then t
    else let tail = last_4096 (p.log_tail ++ chunk) in
      let t' : Tunnel = record t { process = some (record p { log_tail = tail }) } in
      elim (parse_tunnel_url tail) [
        | none ↦ t'
        | some url ↦
            let c : Tunnel = clear_connect_timer t' in
            record c { state = online; public_url = some url; detail = none }
      ]

-- The `error` listener.
unfoldable pub on_error : Tunnel → ℕ → ℕ → Tunnel
unfolding fail clear_connect_timer
on_error t id gen =
    if not (is_that t.child id)
    then t
    else let t' : Tunnel = clear_connect_timer (record t { child = none }) in
      if gen == t.generation && is_starting t.state then fail t' (codes "spawn-failed") else t'

-- The `exit` listener.
unfoldable pub on_exit : Tunnel → ℕ → ℕ → Tunnel
unfolding fail clear_connect_timer
on_exit t id gen =
    if not (is_that t.child id)
    then t
    else let t' : Tunnel = clear_connect_timer (record t { child = none }) in
      if not (gen == t.generation) then t' else elim t.state [
        | starting ↦ fail t' (codes "connect-failed")
        | online ↦ fail t' (codes "exited")
        | _ ↦ t'
      ]

-- The callback of `connectTimer`, which kills the child.
unfoldable pub on_timeout : Tunnel → ℕ → ℕ → Tunnel
unfolding fail
on_timeout t id gen =
    let t' : Tunnel = record t { timer = none } in
    if not (gen == t.generation) || not (is_starting t.state)
    then t'
    else let t'' : Tunnel = fail t' (codes "connect-timeout") in
      if is_that t.child id then record t'' { child = none; live = without id t.live } else t''

-- `start`
unfoldable pub start : Tunnel → Tunnel
start t = if is_starting t.state || is_online t.state then t else record t {
  generation = suc t.generation;
  state = starting;
  detail = some (codes "resolving");
  public_url = none;
  run = some (suc t.generation);
}

-- The end of `stop`.
unfoldable pub stop_ends : Tunnel → Tunnel
stop_ends t = record t { state = off; public_url = none; detail = none; stopping = false }

-- `stop` to its first `await`, or to its end if there is no child.
unfoldable pub stop : Tunnel → Tunnel
unfolding stop_ends clear_connect_timer
stop t =
    let t' : Tunnel =
      clear_connect_timer (record t { generation = suc t.generation; child = none }) in
    elim t.child [
      | none ↦ stop_ends t'
      | some id ↦ record t' { stopping = true; live = without id t.live }
    ]
