-- ===== src/Runtime/Blocked.antt =====
-- What is proved of a runtime of src/index.ts whose state file could not be read or written.
use dsh_full_remote.Prelude.{
  ℕ, ◌≡◌, refl, ap, ◌∙◌, Bool, true, false, not, ◌&&◌, ◌||◌, Option, none, some, List, [], ◌∷◌,
  ◌==◌, ltb, arith, if_both, if_split,
}
use dsh_full_remote.Prelude.Text.{Text, text_eq, trim}
use dsh_full_remote.Sessions.Disk.{serialize}
use dsh_full_remote.Runtime.State.{RuntimeConfig, Runtime, save, effective_listen}
use dsh_full_remote.Runtime.Actions.{
  close_bound, teardown, restart_tunnel_if_live, Start, start_proxy, stop_proxy, rotate_down,
  rotate_up, rotate_after, rotate_token,
}
use dsh_full_remote.Runtime.Commands.{
  is_valid_listen_host, set_listen, mutate_session, start_tunnel, restore, dispose, Command, starts,
  restores, halts, disposes, rotates, listens, mutates, tunnels, untunnels, Mutation, command,
  run_commands,
}

-- The file is as it was, and it stays refused.
abbrev pub Keeps : Runtime → Runtime → Type 0
Keeps r s = (s.file ≡ r.file) × (s.persistence_blocked ≡ true)

save-Keeps :
    (c : RuntimeConfig) (r : Runtime) (at : ℕ) (works : Bool)
    → r.persistence_blocked ≡ true
    → save c r at works ≡ (r, false)
unfolding save
save-Keeps c r at works b = rw b refl

teardown-Keeps :
    (r : Runtime) (closes : Bool) → r.persistence_blocked ≡ true → Keeps r (teardown r closes).0
unfolding teardown close_bound
teardown-Keeps r closes b = ground (arith, b)

start_proxy-Keeps :
    (c : RuntimeConfig) (r : Runtime) (at : ℕ) (e : Start)
    → r.persistence_blocked ≡ true
    → Keeps r (start_proxy c r at e).0
unfolding start_proxy
start_proxy-Keeps c r at e b = ground (arith, b)

restart-Keeps :
    (c : RuntimeConfig) (r : Runtime) (live : Bool)
    → r.persistence_blocked ≡ true
    → Keeps r (restart_tunnel_if_live c r live)
unfolding restart_tunnel_if_live
restart-Keeps c r live b = ground (arith, b)

stop_proxy-Keeps :
    (c : RuntimeConfig) (r : Runtime) (at : ℕ) (closes writes : Bool)
    → r.persistence_blocked ≡ true
    → Keeps r (stop_proxy c r at closes writes).0
unfolding stop_proxy save teardown close_bound
stop_proxy-Keeps c r at closes writes b = ground (arith, b)

dispose-Keeps :
    (c : RuntimeConfig) (r : Runtime) (at : ℕ) (closes writes : Bool)
    → r.persistence_blocked ≡ true
    → Keeps r (dispose c r at closes writes).0
unfolding dispose save teardown close_bound
dispose-Keeps c r at closes writes b = ground (arith, b)

rotate_token-Keeps :
    (c : RuntimeConfig) (r : Runtime) (token : Text) (at : ℕ) (closes writes : Bool) (e : Start)
    → r.persistence_blocked ≡ true
    → Keeps r (rotate_token c r token at closes writes e).0
unfolding rotate_token rotate_after rotate_up start_proxy restart_tunnel_if_live serialize
    rotate_down save teardown close_bound
rotate_token-Keeps c r token at closes writes e b = ground (arith, b)

abbrev KeepsFirst : Runtime → Runtime × Bool → Type 0
KeepsFirst r out = Keeps r out.0

set_listen-Keeps :
    (c : RuntimeConfig) (r : Runtime) (host : Text) (port : Option ℕ) (at : ℕ)
    (saves closes writes : Bool) (e e' : Start)
    → r.persistence_blocked ≡ true
    → Keeps r (set_listen c r host port at saves closes writes e e').0
unfolding set_listen
set_listen-Keeps c r host none at saves closes writes e e' b = (refl, b)
set_listen-Keeps c r host (some number) at saves closes writes e e' b =
    let fresh : Runtime = record r {
      listen_host = some (trim host);
      listen_port = some number;
      last_failure = none;
    } in
    let unsaved = save-Keeps c fresh at saves b in
    let previous = effective_listen c r in
    if_both (KeepsFirst r) (not (is_valid_listen_host (trim host)) || ltb 65535 number) (refl, b)
      (if_both (KeepsFirst r) (text_eq (trim host) previous.host && number == previous.port)
        (refl, b)
        (if_split (KeepsFirst r) (save c fresh at saves).1
          (λ works. absurd (ground (arith, works, ap (λ x. x.1) unsaved)))
          (λ fails. (ap (λ x. x.0.file) unsaved, ap (λ x. x.0.persistence_blocked) unsaved ∙ b))))

mutate_session-Keeps :
    (c : RuntimeConfig) (r : Runtime) (mutation : Mutation) (at : ℕ) (writes : Bool)
    → r.persistence_blocked ≡ true
    → Keeps r (mutate_session c r mutation at writes).0
unfolding mutate_session save
mutate_session-Keeps c r mutation at writes b = ground (arith, b)

command-Keeps :
    (c : RuntimeConfig) (r : Runtime) (x : Command) (at : ℕ)
    → r.persistence_blocked ≡ true
    → Keeps r (command c r x at)
unfolding command restore start_tunnel
command-Keeps c r (starts e) at b = start_proxy-Keeps c r at e b
command-Keeps c r (restores e) at b = ground (arith, b, start_proxy-Keeps c r at e b)
command-Keeps c r (halts closes writes) at b = stop_proxy-Keeps c r at closes writes b
command-Keeps c r (disposes closes writes) at b = dispose-Keeps c r at closes writes b
command-Keeps c r (rotates token closes writes e) at b =
    rotate_token-Keeps c r token at closes writes e b
command-Keeps c r (listens host port saves closes writes e e') at b =
    set_listen-Keeps c r host port at saves closes writes e e' b
command-Keeps c r (mutates mutation writes) at b = mutate_session-Keeps c r mutation at writes b
command-Keeps c r tunnels at b = ground (arith, b)
command-Keeps c r untunnels at b = (refl, b)

-- Once the state file could not be read or written, no command writes it again, in whatever order the
-- commands come and however the environment ends them.
pub run_commands-Keeps :
    (c : RuntimeConfig) (r : Runtime) (l : List (Command × ℕ))
    → r.persistence_blocked ≡ true
    → Keeps r (run_commands c r l)
unfolding run_commands
run_commands-Keeps c r [] b = (refl, b)
run_commands-Keeps c r ((x, at) ∷ l) b =
    let (same, still) = command-Keeps c r x at b in
    let (same', still') = run_commands-Keeps c (command c r x at) l still in (same' ∙ same, still')
