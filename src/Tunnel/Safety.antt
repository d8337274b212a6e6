-- ===== src/Tunnel/Safety.antt =====
-- Histories of the tunnel in which `start` and `stop` wait for a `stop` that is under way, as the write
-- gate of src/index.ts makes them, while everything else comes in any order.
use dsh_full_remote.Prelude.{
  ℕ, ◌≡◌, refl, ◌⊎◌, inl, Bool, true, false, not, ◌&&◌, ◌||◌, Option, none, some, List, [], ◌∷◌,
  arith, ◌==◌, leb, ltb, if◌then◌else◌, is_some,
}
use dsh_full_remote.Prelude.Text.{Text}
use dsh_full_remote.Tunnel.Manager.{
  off, starting, online, error, is_starting, tunnel_trusts_forwarding, Process, Tunnel,
  create_tunnel_manager, fail, clear_connect_timer, is_that, without, spawn_tunnel, resolved,
  unresolved, set_stage, on_data, on_error, on_exit, on_timeout, start, stop, stop_ends,
}

pub data Event : Type 0 where
  starts stops stop_finishes times_out errors exits : Event
  resolves : (spawns : Bool) → Event
  fails_to_resolve : (token : Option Text) → Event
  stages : (stage : Text) → Event
  outputs : (chunk : Text) → Event

-- The run's end, if one is under way.
abbrev pub end_run : Tunnel → (Tunnel → ℕ → Tunnel) → Tunnel
end_run t f = elim t.run [ none ↦ t | some gen ↦ f (record t { run = none }) gen ]

abbrev pub at_process : Tunnel → (Tunnel → Process → Tunnel) → Tunnel
at_process t f = elim t.process [ none ↦ t | some p ↦ f t p ]

-- What becomes of the process when it ends by itself.
abbrev pub gone : Tunnel → ℕ → Tunnel
gone t id = record t { live = without id t.live }

-- The timer fires for the process that it was set for, which is the last one.
abbrev pub fire : Tunnel → Process → Tunnel
fire t p = if is_that t.timer p.id then on_timeout t p.id p.gen else t

abbrev pub step : Tunnel → Event → Tunnel
step t starts = start t
step t stops = stop t
step t stop_finishes = if t.stopping then stop_ends t else t
step t (resolves spawns) = end_run t (λ u gen. resolved u gen spawns)
step t (fails_to_resolve token) = end_run t (λ u gen. unresolved u gen token)
step t (stages stage) = elim t.run [ none ↦ t | some gen ↦ set_stage t gen stage ]
step t (outputs chunk) = at_process t (λ u p. on_data u p chunk)
step t errors = at_process t (λ u p. on_error (gone u p.id) p.id p.gen)
step t exits = at_process t (λ u p. on_exit (gone u p.id) p.id p.gen)
step t times_out = at_process t fire

-- `start` and `stop` wait for the end of a `stop`.
abbrev pub Waits : Tunnel → Event → Type 0
Waits t starts = t.stopping ≡ false
Waits t stops = t.stopping ≡ false
Waits t _ = Unit {0}

abbrev pub run_events : Tunnel → List Event → Tunnel
run_events t [] = t
run_events t (e ∷ es) = run_events (step t e) es

abbrev pub IsSerial : Tunnel → List Event → Type 0
IsSerial t [] = Unit {0}
IsSerial t (e ∷ es) = Waits t e × IsSerial (step t e) es

abbrev pub child_list : Option ℕ → List ℕ
child_list none = []
child_list (some id) = id ∷ []

-- The child is the last process, of the current generation.
abbrev pub is_child : Option ℕ → ℕ → Option Process → Bool
is_child none generation p = true
is_child (some id) generation none = false
is_child (some id) generation (some p) = p.id == id && p.gen == generation

abbrev pub is_current : Option ℕ → ℕ → Bool
is_current none generation = false
is_current (some gen) generation = gen == generation

-- The last process is of an earlier generation.
abbrev pub is_earlier : Option Process → ℕ → Bool
is_earlier none generation = true
is_earlier (some p) generation = ltb p.gen generation

-- No process is of a generation to come.
abbrev pub is_known : Option Process → ℕ → Bool
is_known none generation = true
is_known (some p) generation = leb p.gen generation

-- What the parts of a state have to do with one another.
abbrev pub fits : Tunnel → Bool
fits t = elim t.state [
  | off ↦ not (is_some t.child) && not (is_some t.timer) && not (is_some t.public_url)
  | error ↦ not (is_some t.child) && not (is_some t.timer) && not (is_some t.public_url)
  | starting ↦
      not (is_some t.public_url)
      && (t.stopping
          || (if is_some t.child
              then is_some t.timer && not (is_current t.run t.generation)
              else is_current t.run t.generation
                && not (is_some t.timer)
                && is_earlier t.process t.generation))
  | online ↦ is_some t.public_url && not (is_some t.timer) && not (is_current t.run t.generation)
]

-- No run is of a generation to come.
abbrev pub is_past : Option ℕ → ℕ → Bool
is_past none generation = true
is_past (some gen) generation = leb gen generation

-- While a `stop` is under way there is neither child nor timer, and no run is current.
abbrev pub is_halted : Tunnel → Bool
is_halted t =
    not t.stopping
    || not (is_some t.child)
      && not (is_some t.timer)
      && not (is_current t.run t.generation)
      && is_earlier t.process t.generation

pub record IsValid (t : Tunnel) : Type 0 where
  pub fitting : fits t ≡ true
  pub one : t.live ≡ child_list t.child
  pub tracked : is_child t.child t.generation t.process ≡ true
  pub timed : (t.timer ≡ none) ⊎ (t.timer ≡ t.child)
  pub past : is_past t.run t.generation ≡ true
  pub known : is_known t.process t.generation ≡ true
  pub halted : is_halted t ≡ true

step-IsValid : (t : Tunnel) (e : Event) → Waits t e → IsValid t → IsValid (step t e)
unfolding start stop stop_ends resolved unresolved spawn_tunnel fail set_stage on_data on_error
    on_exit on_timeout clear_connect_timer
step-IsValid t starts w v = ground arith
step-IsValid t stops w v = ground arith
step-IsValid t stop_finishes w v = ground arith
step-IsValid t (resolves spawns) w v = ground arith
step-IsValid t (fails_to_resolve token) w v = ground arith
step-IsValid t (stages stage) w v = ground arith
step-IsValid t (outputs chunk) w v = ground arith
step-IsValid t errors w v = ground arith
step-IsValid t exits w v = ground arith
step-IsValid t times_out w v = ground arith

run_events-IsValid :
    (t : Tunnel) (es : List Event) → IsSerial t es → IsValid t → IsValid (run_events t es)
run_events-IsValid t [] s v = v
run_events-IsValid t (e ∷ es) (w, s) v = run_events-IsValid (step t e) es s (step-IsValid t e w v)

create_tunnel_manager-IsValid : IsValid create_tunnel_manager
unfolding create_tunnel_manager
create_tunnel_manager-IsValid = record {
  fitting = refl;
  one = refl;
  tracked = refl;
  timed = inl refl;
  past = refl;
  known = refl;
  halted = refl;
}

trusts-is_some : (t : Tunnel) → IsValid t → tunnel_trusts_forwarding t.state ≡ is_some t.public_url
unfolding tunnel_trusts_forwarding
trusts-is_some t v = ground arith

settles :
    (t : Tunnel) (spawns : Bool) (token : Option Text)
    → IsValid t
    → t.state ≡ starting
    → t.stopping ≡ false
    → (is_starting (step (step t (resolves spawns)) times_out).state ≡ false)
      × (is_starting (step (step t (fails_to_resolve token)) times_out).state ≡ false)
unfolding resolved unresolved spawn_tunnel fail on_timeout
settles t spawns token v e n = (ground arith, ground arith)

-- In every history of a new tunnel in which `start` and `stop` wait for a `stop` under way, whatever
-- comes from the processes, from the search for the binary and from the timers: the processes alive are
-- the child alone, or none if there is no child, and forwarding headers are trusted exactly while a public
-- URL is known.
pub run_events-live :
    (es : List Event)
    → IsSerial create_tunnel_manager es
    → ((run_events create_tunnel_manager es).live
        ≡ child_list (run_events create_tunnel_manager es).child)
      × (tunnel_trusts_forwarding (run_events create_tunnel_manager es).state
          ≡ is_some (run_events create_tunnel_manager es).public_url)
run_events-live es s =
    let v = run_events-IsValid create_tunnel_manager es s create_tunnel_manager-IsValid in
    (v.one, trusts-is_some (run_events create_tunnel_manager es) v)

-- A tunnel that is starting after such a history, with no `stop` under way, does not stay so: when
-- the search for the binary ends, by a binary that spawns or not or by an error, and the timer fires,
-- it is not starting any more.
pub run_events-settles :
    (es : List Event) (spawns : Bool) (token : Option Text)
    → IsSerial create_tunnel_manager es
    → (run_events create_tunnel_manager es).state ≡ starting
    → (run_events create_tunnel_manager es).stopping ≡ false
    → (is_starting
          (step (step (run_events create_tunnel_manager es) (resolves spawns)) times_out).state
        ≡ false)
      × (is_starting
            (step
              (step (run_events create_tunnel_manager es) (fails_to_resolve token))
              times_out).state
          ≡ false)
run_events-settles es spawns token s =
    settles (run_events create_tunnel_manager es) spawns token
      (run_events-IsValid create_tunnel_manager es s create_tunnel_manager-IsValid)
