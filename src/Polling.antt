-- ===== src/Polling.antt =====
-- src/client/visibility-polling.ts: `createVisibilityPolling`. The page, the timer and the request are
-- the environment: each event below is one turn of its callbacks. The promise of a poll is queued,
-- then requests, then settles, and its `finally` ends the flight.
use dsh_full_remote.Prelude.{
  ◌⊎◌, ℕ, suc, ◌+◌, ◌≡◌, refl, Bool, true, false, not, ◌&&◌, ◌||◌, Option, none, some, List, [],
  ◌∷◌, arith, if◌then◌else◌,
}

-- Where the promise of the current poll stands.
pub data Flight : Type 0 where
  idle queued requesting settled : Flight

-- The variables of the closure; `page` is whether the document is visible, `none` with no document.
-- `timer` and `listening` are the interval and the listener, `requests` counts the calls of
-- `options.request`, `answers` its settled promises, and `calls` those of `onValue` and `onError`.
pub record State : Type 0 where
  pub page : Option Bool
  pub visibility : Option Bool
  pub disposed : Bool
  pub in_flight : Bool
  pub timer : Bool
  pub listening : Bool
  pub flight : Flight
  pub requests : ℕ
  pub answers : ℕ
  pub calls : ℕ

-- `page?.visibilityState !== 'hidden'`
abbrev pub shown : Option Bool → Bool
shown none = true
shown (some v) = v

-- `poll`
unfoldable pub poll : State → State
poll s =
    if s.disposed || s.in_flight || not (shown s.page)
    then s
    else record s { in_flight = true; flight = queued }

-- `pause`
unfoldable pub pause : State → State
pause s = record s { timer = false }

-- `start`
unfoldable pub start : State → State
start s = record s { timer = true }

-- `next === 'visible'`
abbrev pub is_visible : Option Bool → Bool
is_visible none = false
is_visible (some v) = v

-- `observeVisibility`
unfoldable pub observe_visibility : State → State
unfolding poll pause start
observe_visibility s =
    let next = s.page in
    let recovered = is_visible next && not (is_visible s.visibility) in
    let s' : State = record s { visibility = next } in
    if not (shown next) then pause s' else if recovered then poll (start s') else s'

-- The microtask of `poll`.
unfoldable pub begin_request : State → State
begin_request s =
    if s.disposed || not (shown s.page)
    then record s { flight = settled }
    else record s { flight = requesting; requests = suc s.requests }

-- The end of the request, with a value or an error.
unfoldable pub settle : State → State
settle s = record s {
  flight = settled;
  answers = suc s.answers;
  calls = if s.disposed then s.calls else suc s.calls;
}

-- The returned disposer.
unfoldable pub dispose : State → State
unfolding pause
dispose s = let s' : State = pause (record s { disposed = true }) in record s' { listening = false }

-- `createVisibilityPolling`
unfoldable pub create_visibility_polling : Option Bool → Bool → State
unfolding poll start
create_visibility_polling page immediate =
    let s : State = record {
      page = page;
      visibility = page;
      disposed = false;
      in_flight = false;
      timer = false;
      listening = true;
      flight = idle;
      requests = 0;
      answers = 0;
      calls = 0;
    } in
    if shown page then (if immediate then poll (start s) else start s) else s

pub data Event : Type 0 where
  ticks begins settles finishes disposes : Event
  turns : Bool → Event

-- One event; an event that cannot happen leaves the state.
abbrev pub step : State → Event → State
step s ticks = if s.timer then poll s else s
step s begins = elim s.flight [ queued ↦ begin_request s | _ ↦ s ]
step s settles = elim s.flight [ requesting ↦ settle s | _ ↦ s ]
step s finishes = elim s.flight [ settled ↦ record s { in_flight = false; flight = idle } | _ ↦ s ]
step s disposes = dispose s
step s (turns v) = elim s.page [
  | none ↦ s
  | some _ ↦
      let s' : State = record s { page = some v } in
      if s.listening then observe_visibility s' else s'
]

abbrev pub run : State → List Event → State
run s [] = s
run s (e ∷ es) = run (step s e) es

abbrev pub is_idle : Flight → Bool
is_idle idle = true
is_idle _ = false

abbrev pub open_requests : Flight → ℕ
open_requests requesting = 1
open_requests _ = 0

-- The invariant of the closure: it knows its own flight, at most one request is open, it listens until
-- it is disposed of, the timer runs exactly while it is neither disposed of nor hidden, and it has
-- seen the last change of the page.
abbrev pub IsValid : State → Type 0
IsValid s =
    (s.in_flight ≡ not (is_idle s.flight))
    × (s.requests ≡ s.answers + open_requests s.flight)
    × (s.listening ≡ not s.disposed)
    × (s.timer ≡ (not s.disposed && shown s.page))
    × ((s.disposed ≡ true) ⊎ (s.visibility ≡ s.page))

step-IsValid : (s : State) (e : Event) → IsValid s → IsValid (step s e)
unfolding poll begin_request settle dispose pause observe_visibility start
step-IsValid s ticks v = ground (arith, v)
step-IsValid s begins v = ground (arith, v)
step-IsValid s settles v = ground (arith, v)
step-IsValid s finishes v = ground (arith, v)
step-IsValid s disposes v = ground (arith, v)
step-IsValid s (turns b) v = ground (arith, v)

run-IsValid : (s : State) (es : List Event) → IsValid s → IsValid (run s es)
run-IsValid s [] v = v
run-IsValid s (e ∷ es) v = run-IsValid (step s e) es (step-IsValid s e v)

create_visibility_polling-IsValid :
    (page : Option Bool) (immediate : Bool) → IsValid (create_visibility_polling page immediate)
unfolding create_visibility_polling poll start
create_visibility_polling-IsValid page immediate = ground arith

-- From its creation on, whatever happens in whatever order: at most one request is open at a time, and
-- the timer runs exactly while the poller is neither disposed of nor on a hidden page.
pub run-create_visibility_polling-IsValid :
    (page : Option Bool) (immediate : Bool) (es : List Event)
    → IsValid (run (create_visibility_polling page immediate) es)
run-create_visibility_polling-IsValid page immediate es =
    run-IsValid (create_visibility_polling page immediate) es
      (create_visibility_polling-IsValid page immediate)

step-disposed :
    (s : State) (e : Event)
    → IsValid s
    → s.disposed ≡ true
    → ((step s e).disposed ≡ true)
      × ((step s e).requests ≡ s.requests)
      × ((step s e).calls ≡ s.calls)
unfolding poll begin_request settle dispose pause observe_visibility start
step-disposed s ticks v d = ground (arith, v, d)
step-disposed s begins v d = ground (arith, v, d)
step-disposed s settles v d = ground (arith, v, d)
step-disposed s finishes v d = ground (arith, v, d)
step-disposed s disposes v d = ground (arith, v, d)
step-disposed s (turns b) v d = ground (arith, v, d)

-- From a valid state that has been disposed of on, no request begins and no callback is called,
-- whatever happens.
pub run-dispose :
    (s : State) (es : List Event)
    → IsValid s
    → s.disposed ≡ true
    → ((run s es).requests ≡ s.requests) × ((run s es).calls ≡ s.calls)
run-dispose s [] v d = (refl, refl)
run-dispose s (e ∷ es) v d = ground (
  arith,
  step-disposed s e v d,
  run-dispose (step s e) es (step-IsValid s e v) (step-disposed s e v d).0,
)
