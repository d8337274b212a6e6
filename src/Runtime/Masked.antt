-- ===== src/Runtime/Masked.antt =====
-- The actions of src/index.ts do not depend on the access token, but for what they write of it.
use dsh_full_remote.Prelude.{
  ℕ, ◌≡◌, refl, ap, ◌∙◌, sym, Bool, true, false, not, ◌&&◌, ◌||◌, Option, none, some, [], arith,
  is_some, ltb, ◌==◌, if◌then◌else◌,
}
use dsh_full_remote.Prelude.Text.{Text, text_eq, trim}
use dsh_full_remote.Runtime.State.{Listen, RuntimeConfig, Runtime, save, effective_listen}
use dsh_full_remote.Runtime.Actions.{
  Start, teardown, close_bound, start_proxy, bound_start, stop_proxy, restart_tunnel_if_live,
  tunnel_live,
}
use dsh_full_remote.Runtime.Commands.{
  Mutation, approves, revokes, renames, mutate_session, close_revoked, is_valid_listen_host,
  relisten, set_listen,
}

-- The runtime without the token, in memory and in the state file.
abbrev pub masked : Runtime → Runtime
masked r = record r { access_token = []; file = none }

-- Two outcomes that differ in no more than the token.
abbrev pub IsAlike : Runtime × Bool → Runtime × Bool → Type 0
IsAlike a b = (masked a.0 ≡ masked b.0) × (a.1 ≡ b.1)

save-masked :
    (c : RuntimeConfig) (r : Runtime) (at : ℕ) (works : Bool)
    → IsAlike (save c r at works) (save c (masked r) at works)
unfolding save
save-masked c r at works = ground arith

teardown-masked :
    (r : Runtime) (closes : Bool) → IsAlike (teardown r closes) (teardown (masked r) closes)
unfolding teardown close_bound
teardown-masked r closes = ground arith

pub start_proxy-masked :
    (c : RuntimeConfig) (r : Runtime) (at : ℕ) (e : Start)
    → IsAlike (start_proxy c r at e) (start_proxy c (masked r) at e)
unfolding start_proxy bound_start save teardown close_bound effective_listen
start_proxy-masked c r at e = ground arith

pub stop_proxy-masked :
    (c : RuntimeConfig) (r : Runtime) (at : ℕ) (closes writes : Bool)
    → IsAlike (stop_proxy c r at closes writes) (stop_proxy c (masked r) at closes writes)
unfolding stop_proxy save teardown close_bound
stop_proxy-masked c r at closes writes = ground arith

pub mutate_session-masked :
    (c : RuntimeConfig) (r : Runtime) (mutation : Mutation) (at : ℕ) (writes : Bool)
    → IsAlike
        (mutate_session c r mutation at writes)
        (mutate_session c (masked r) mutation at writes)
unfolding mutate_session save close_revoked
mutate_session-masked c r (approves id) at writes = ground arith
mutate_session-masked c r (revokes id) at writes = ground arith
mutate_session-masked c r (renames id label) at writes = ground arith

restart_tunnel-masked :
    (c : RuntimeConfig) (r : Runtime) (live : Bool)
    → masked (restart_tunnel_if_live c r live) ≡ masked (restart_tunnel_if_live c (masked r) live)
unfolding restart_tunnel_if_live
restart_tunnel-masked c r live = ground arith

start_proxy-IsAlike :
    (c : RuntimeConfig) (r r' : Runtime) (at : ℕ) (e : Start)
    → masked r ≡ masked r'
    → IsAlike (start_proxy c r at e) (start_proxy c r' at e)
start_proxy-IsAlike c r r' at e h =
    let mid = ap (λ x. start_proxy c x at e) h in
    ground (arith, start_proxy-masked c r at e, start_proxy-masked c r' at e, mid)

save-IsAlike :
    (c : RuntimeConfig) (r r' : Runtime) (at : ℕ) (works : Bool)
    → masked r ≡ masked r'
    → IsAlike (save c r at works) (save c r' at works)
save-IsAlike c r r' at works h =
    let mid = ap (λ x. save c x at works) h in
    ground (arith, save-masked c r at works, save-masked c r' at works, mid)

restart_tunnel-alike :
    (c : RuntimeConfig) (r r' : Runtime) (live : Bool)
    → masked r ≡ masked r'
    → masked (restart_tunnel_if_live c r live) ≡ masked (restart_tunnel_if_live c r' live)
restart_tunnel-alike c r r' live h =
    restart_tunnel-masked c r live
    ∙ ap (λ x. masked (restart_tunnel_if_live c x live)) h
    ∙ sym (restart_tunnel-masked c r' live)

abbrev listening : Runtime → Listen → Runtime
listening r l = record r { listen_host = some l.host; listen_port = some l.port }

branch-IsAlike :
    (p q : Bool) (a b x y : Runtime × Bool)
    → p ≡ q
    → IsAlike a b
    → IsAlike x y
    → IsAlike (if p then a else x) (if q then b else y)
branch-IsAlike true true a b x y h m n = m
branch-IsAlike false false a b x y h m n = n
branch-IsAlike true false a b x y h m n = absurd cc
branch-IsAlike false true a b x y h m n = absurd cc

-- The branches of `relisten`, over the outcomes of its steps.
abbrev branches : (d u b s : Runtime × Bool) (was_running : Bool) (x y : Runtime) → Runtime × Bool
branches d u b s was_running x y =
    if not d.1 || not was_running
    then d
    else if not u.1
    then u
    else if is_some u.0.bound
    then (x, true)
    else if not b.1
    then b
    else if not s.1
    then s
    else (y, true)

branches-IsAlike :
    (d d' u u' b b' s s' : Runtime × Bool) (was_running : Bool) (x x' y y' : Runtime)
    → IsAlike d d'
    → IsAlike u u'
    → IsAlike b b'
    → IsAlike s s'
    → masked x ≡ masked x'
    → masked y ≡ masked y'
    → IsAlike (branches d u b s was_running x y) (branches d' u' b' s' was_running x' y')
branches-IsAlike d d' u u' b b' s s' was_running x x' y y' hd hu hb hs hx hy =
    branch-IsAlike (not d.1 || not was_running) (not d'.1 || not was_running) d d' _ _
      (ap (λ t. not t || not was_running) hd.1) hd
      (branch-IsAlike (not u.1) (not u'.1) u u' _ _ (ap not hu.1) hu (
        branch-IsAlike (is_some u.0.bound) (is_some u'.0.bound) (x, true) (x', true) _ _
          (ap (λ t. is_some t.bound) hu.0) (hx, refl)
          (branch-IsAlike (not b.1) (not b'.1) b b' _ _ (ap not hb.1) hb (
            branch-IsAlike (not s.1) (not s'.1) s s' (y, true) (y', true) (ap not hs.1) hs
              (hy, refl)))))

relisten-masked :
    (c : RuntimeConfig) (r : Runtime) (previous : Listen) (was_running was_tunnel : Bool) (at : ℕ)
    (closes writes : Bool) (e e' : Start)
    → IsAlike
        (relisten c r previous was_running was_tunnel at closes writes e e')
        (relisten c (masked r) previous was_running was_tunnel at closes writes e e')
unfolding relisten
relisten-masked c r previous was_running was_tunnel at closes writes e e' =
    let d = teardown r closes in
    let d' = teardown (masked r) closes in
    let down = teardown-masked r closes in
    let u = start_proxy c d.0 at e in
    let u' = start_proxy c d'.0 at e in
    let up = start_proxy-IsAlike c d.0 d'.0 at e down.0 in
    let b = save c (listening u.0 previous) at writes in
    let b' = save c (listening u'.0 previous) at writes in
    let back =
      save-IsAlike c (listening u.0 previous) (listening u'.0 previous) at writes
        (ap (λ x. listening x previous) up.0) in
    let s = start_proxy c b.0 at e' in
    let s' = start_proxy c b'.0 at e' in
    let restored = start_proxy-IsAlike c b.0 b'.0 at e' back.0 in
    branches-IsAlike d d' u u' b b' s s' was_running (restart_tunnel_if_live c u.0 was_tunnel)
      (restart_tunnel_if_live c u'.0 was_tunnel)
      (restart_tunnel_if_live c s.0 (was_tunnel && is_some s.0.bound))
      (restart_tunnel_if_live c s'.0 (was_tunnel && is_some s'.0.bound)) down up back restored
      (restart_tunnel-alike c u.0 u'.0 was_tunnel up.0)
      (restart_tunnel-alike c s.0 s'.0 (was_tunnel && is_some s.0.bound) restored.0
        ∙ ap (λ x. masked (restart_tunnel_if_live c s'.0 (was_tunnel && is_some x.bound)))
            restored.0)

relisten-IsAlike :
    (c : RuntimeConfig) (r r' : Runtime) (previous : Listen) (was_running was_tunnel : Bool)
    (at : ℕ) (closes writes : Bool) (e e' : Start)
    → masked r ≡ masked r'
    → IsAlike
        (relisten c r previous was_running was_tunnel at closes writes e e')
        (relisten c r' previous was_running was_tunnel at closes writes e e')
relisten-IsAlike c r r' previous was_running was_tunnel at closes writes e e' h =
    let mid = ap (λ x. relisten c x previous was_running was_tunnel at closes writes e e') h in
    let one = relisten-masked c r previous was_running was_tunnel at closes writes e e' in
    let two = relisten-masked c r' previous was_running was_tunnel at closes writes e e' in
    (one.0 ∙ ap (λ x. masked x.0) mid ∙ sym two.0, one.1 ∙ ap (λ x. x.1) mid ∙ sym two.1)

pub set_listen-masked :
    (c : RuntimeConfig) (r : Runtime) (host : Text) (port : Option ℕ) (at : ℕ)
    (saves closes writes : Bool) (e e' : Start)
    → IsAlike
        (set_listen c r host port at saves closes writes e e')
        (set_listen c (masked r) host port at saves closes writes e e')
unfolding set_listen effective_listen
set_listen-masked c r host none at saves closes writes e e' = (refl, refl)
set_listen-masked c r host (some number) at saves closes writes e e' =
    let listening_new : Runtime → Runtime = λ x. record x {
      listen_host = some (trim host);
      listen_port = some number;
      last_failure = none;
    } in
    let saved = save-masked c (listening_new r) at saves in
    let previous = effective_listen c r in
    let a = save c (listening_new r) at saves in
    let b = save c (listening_new (masked r)) at saves in
    let back : Runtime → Runtime =
      λ x. record x { listen_host = r.listen_host; listen_port = r.listen_port } in
    branch-IsAlike (not (is_valid_listen_host (trim host)) || ltb 65535 number)
      (not (is_valid_listen_host (trim host)) || ltb 65535 number) (r, true) (masked r, true) _ _
      refl (refl, refl)
      (branch-IsAlike (text_eq (trim host) previous.host && number == previous.port)
        (text_eq (trim host) previous.host && number == previous.port) (r, true) (masked r, true) _
        _ refl (refl, refl)
        (branch-IsAlike a.1 b.1
          (relisten c a.0 previous (is_some r.bound) (tunnel_live r) at closes writes e e')
          (relisten c b.0 previous (is_some r.bound) (tunnel_live r) at closes writes e e')
          (back a.0, false) (back b.0, false) saved.1
          (relisten-IsAlike c a.0 b.0 previous (is_some r.bound) (tunnel_live r) at closes writes e
            e' saved.0)
          (ap back saved.0, refl)))
