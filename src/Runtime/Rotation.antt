-- ===== src/Runtime/Rotation.antt =====
-- What is proved of `rotateToken` of src/index.ts: it locks every device out or changes no token.
use dsh_full_remote.Prelude.{
  ℕ, ◌≡◌, refl, ◌∙◌, ◌⊎◌, inl, inr, Bool, true, false, List, [], arith, ltb, length, is_some,
  Bool-cases,
}
use dsh_full_remote.Prelude.Text.{Text}
use dsh_full_remote.Prelude.StrMap.{delete_where}
use dsh_full_remote.Invites.Codes.{clear_codes}
use dsh_full_remote.Sessions.Directory.{none_left}
use dsh_full_remote.Sessions.Record.{Config, Store, sweep}
use dsh_full_remote.Sessions.Admin.{clear}
use dsh_full_remote.Sessions.Disk.{RawSession, serialize}
use dsh_full_remote.Runtime.State.{RuntimeConfig, Runtime, save}
use dsh_full_remote.Runtime.Actions.{
  close_bound, teardown, restart_tunnel_if_live, Start, bound_start, start_proxy, rotate_down,
  rotate_up, rotate_after, rotate_token, tunnel_live,
}

-- No device and no invite is left.
abbrev pub IsLockedOut : Text → Runtime → Type 0
IsLockedOut token r = (r.access_token ≡ token) × (r.sessions.sessions ≡ []) × (r.invites ≡ [])

clear_lem : (st : Store) → (clear st).sessions ≡ []
unfolding clear
clear_lem st = elim (Bool-cases (ltb 0 (length st.sessions))) [
  | inl e ↦ rw e refl
  | inr e ↦ rw e (none_left st e)
]

sweep_nothing :
    (cfg : Config) (st : Store) (at : ℕ) → st.sessions ≡ [] → (sweep cfg st at).sessions ≡ []
unfolding sweep delete_where
sweep_nothing cfg st at e = rw e refl

save-IsLockedOut :
    (c : RuntimeConfig) (token : Text) (r : Runtime) (at : ℕ) (works : Bool)
    → IsLockedOut token r
    → IsLockedOut token (save c r at works).0
unfolding save serialize
save-IsLockedOut c token r at works (t, s, i) =
    ground (arith, t, s, i, sweep_nothing c.sessions r.sessions at s)

teardown-IsLockedOut :
    (token : Text) (r : Runtime) (closes : Bool)
    → IsLockedOut token r
    → IsLockedOut token (teardown r closes).0
unfolding teardown close_bound
teardown-IsLockedOut token r closes (t, s, i) = ground (arith, t, s, i)

start_proxy-IsLockedOut :
    (c : RuntimeConfig) (token : Text) (r : Runtime) (at : ℕ) (e : Start)
    → IsLockedOut token r
    → IsLockedOut token (start_proxy c r at e).0
unfolding start_proxy bound_start teardown close_bound save serialize
start_proxy-IsLockedOut c token r at e (t, s, i) =
    ground (arith, t, s, i, sweep_nothing c.sessions r.sessions at s)

rotate_up-IsLockedOut :
    (c : RuntimeConfig) (token : Text) (r : Runtime) (restart live : Bool) (at : ℕ) (e : Start)
    → IsLockedOut token r
    → IsLockedOut token (rotate_up c r restart live at e).0
unfolding rotate_up restart_tunnel_if_live
rotate_up-IsLockedOut c token r restart live at e (t, s, i) =
    ground (arith, t, s, i, start_proxy-IsLockedOut c token r at e (t, s, i))

-- A save that throws leaves the token that was there.
abbrev pub IsRefused : Runtime → Runtime × Bool → Type 0
IsRefused r (s, ok) = (ok ≡ false) × (s.access_token ≡ r.access_token)

rotate_down-cases :
    (c : RuntimeConfig) (r : Runtime) (previous : List RawSession) (token : Text) (at : ℕ)
    (writes : Bool)
    → (((rotate_down c r previous token at writes).1 ≡ true)
        × IsLockedOut token (rotate_down c r previous token at writes).0)
      ⊎ IsRefused r (rotate_down c r previous token at writes)
unfolding rotate_down save serialize clear_codes
rotate_down-cases c r previous token at writes = ground (
  arith,
  clear_lem r.sessions,
  sweep_nothing c.sessions (clear r.sessions) at (clear_lem r.sessions),
)

rotate_after-cases :
    (c : RuntimeConfig) (r : Runtime) (down : Runtime × Bool) (previous : List RawSession)
    (token : Text) (at : ℕ) (writes restart live : Bool) (e : Start)
    → down.0.access_token ≡ r.access_token
    → IsLockedOut token (rotate_after c down previous token at writes restart live e).0
      ⊎ IsRefused r (rotate_after c down previous token at writes restart live e)
unfolding rotate_after
rotate_after-cases c r down previous token at writes restart live e t = elim (Bool-cases down.1) [
  | inr d ↦ rw d (inr (refl, t))
  | inl d ↦ rw d (elim (rotate_down-cases c down.0 previous token at writes) [
    | inl (ok, out) ↦ rw ok (
        inl (
          rotate_up-IsLockedOut c token (rotate_down c down.0 previous token at writes).0 restart
            live at e out))
    | inr (bad, same) ↦ rw bad (inr (refl, same ∙ t))
  ])
]

teardown-token : (r : Runtime) (closes : Bool) → (teardown r closes).0.access_token ≡ r.access_token
unfolding teardown close_bound
teardown-token r closes = ground arith

-- However the environment ends it, a rotation either locks everybody out, with the new token, no session
-- and no invite, whether or not the proxy comes up again, or throws and leaves the token that was there.
pub rotate_token-IsLockedOut :
    (c : RuntimeConfig) (r : Runtime) (token : Text) (at : ℕ) (closes writes : Bool) (e : Start)
    → IsLockedOut token (rotate_token c r token at closes writes e).0
      ⊎ IsRefused r (rotate_token c r token at closes writes e)
unfolding rotate_token
rotate_token-IsLockedOut c r token at closes writes e =
    let out = serialize c.sessions r.sessions at in
    let swept : Runtime = record r { sessions = out.0 } in
    rotate_after-cases c r (teardown swept closes) out.1 token at writes (is_some r.bound)
      (tunnel_live r) e (teardown-token swept closes)
