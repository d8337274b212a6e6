-- ===== src/Cockpit/Flights.antt =====
-- What is proved of the refreshes of src/client/cockpit-connection.ts.
use dsh_full_remote.Prelude.{
  ℕ, ◌+◌, ◌≤◌, ◌≡◌, refl, Bool, true, false, not, ◌&&◌, ◌||◌, Option, none, some, List, [], ◌∷◌,
  is_some, if_split, if_both, Option-cases, inl, inr, arith,
}
use dsh_full_remote.Cockpit.Connection.{
  Link, Visibility, Attempt, queued, pending, skipped, Begun, Cockpit, created, publish,
  request_refresh, request_recovery_refresh, is_due, observe_connection, observe_page,
  run_microtask, settle_flight, time_out, dispose, Event, occurs, react, Reachable, is_hidden,
  is_connected, is_visible, recovery_refresh_interval_ms, on_flight,
}
use dsh_full_remote.Cockpit.Connection

-- A refresh that was begun automatically was begun five seconds or more after the one before it.
abbrev pub Spaced : List Begun → Type 0
Spaced [] = Unit
Spaced (b ∷ []) = Unit
Spaced (b ∷ earlier ∷ begun) =
    (b.automatic ≡ true → earlier.at + recovery_refresh_interval_ms ≤ b.at)
    × Spaced (earlier ∷ begun)

abbrev pub newest : List Begun → Option ℕ
newest [] = none
newest (b ∷ begun) = some b.at

-- 1 while `refresh()` is pending.
abbrev pub running : Option Attempt → ℕ
running none = 0
running (some a) = elim a.progress [ queued ↦ 0 | pending ↦ 1 | skipped ↦ 0 ]

-- Automatic refreshes are spaced; until the disposal one call at most has not ended, that of the flight; a disposed
-- connection has no flight and no timer, and had one call under way at most; and busy means a flight in time.
abbrev pub IsTidy : Cockpit → Type 0
IsTidy c =
    Spaced c.begun
    × (newest c.begun ≡ c.last_refresh_at)
    × (c.disposed ≡ false → c.calls ≡ c.settled + running c.flight)
    × (c.disposed ≡ true
        → (c.flight ≡ none) × (c.recovery_timer ≡ false) × (c.calls ≤ c.settled + 1))
    × (c.disposed ≡ false
        → c.refreshing ≡ elim c.flight [ none ↦ false | some a ↦ not a.timed_out ])

request_refresh-IsTidy :
    (automatic : Bool) (now : ℕ) (c : Cockpit)
    → (automatic ≡ true → is_due c.last_refresh_at now ≡ true)
    → IsTidy c
    → IsTidy (request_refresh automatic now c)
unfolding request_refresh publish
request_refresh-IsTidy automatic now c due w = ground (arith, w, due)

request_recovery_refresh-IsTidy :
    (now : ℕ) (c : Cockpit) → IsTidy c → IsTidy (request_recovery_refresh now c)
unfolding request_recovery_refresh
request_recovery_refresh-IsTidy now c w =
    if_split IsTidy (c.disposed || is_hidden c.page || is_some c.flight) (λ t. w)
      (λ f.
        if_split IsTidy (is_due c.last_refresh_at now)
          (λ due. request_refresh-IsTidy true now c (λ a. due) w) (λ late. ground (arith, w, f)))

observe_connection-IsTidy :
    (link : Link) (now : ℕ) (c : Cockpit) → IsTidy c → IsTidy (observe_connection link now c)
unfolding observe_connection
observe_connection-IsTidy link now c w =
    let shown : Cockpit = record c { link = link } in
    if_both IsTidy c.disposed w (
      if_both IsTidy (is_connected link && not (is_connected c.link))
        (request_recovery_refresh-IsTidy now shown w) w)

observe_page-IsTidy :
    (next : Visibility) (now : ℕ) (c : Cockpit) → IsTidy c → IsTidy (observe_page next now c)
unfolding observe_page
observe_page-IsTidy next now c w =
    let seen : Cockpit = record c {
      page = some next;
      seen = some next;
      recovery_timer = not (is_hidden (some next)) && c.recovery_timer;
    } in
    let still : IsTidy seen = ground (arith, w) in
    if_both IsTidy c.disposed w (
      if_both IsTidy (is_visible (some next) && not (is_visible c.seen))
        (request_recovery_refresh-IsTidy now seen still) still)

microtask-IsTidy :
    (c : Cockpit)
    → occurs c Connection.microtask ≡ true
    → IsTidy c
    → IsTidy (on_flight run_microtask c)
unfolding occurs run_microtask
microtask-IsTidy c o w = elim (Option-cases c.flight) [
  | inl e ↦ ground (arith, w, o, e)
  | inr (a, e) ↦ ground (arith, w, o, e)
]

ended-IsTidy :
    (failed : Bool) (c : Cockpit)
    → occurs c (Connection.ended failed) ≡ true
    → IsTidy c
    → IsTidy (on_flight (λ a. settle_flight a failed) c)
unfolding occurs settle_flight publish
ended-IsTidy failed c o w = elim (Option-cases c.flight) [
  | inl e ↦ ground (arith, w, o, e)
  | inr (a, e) ↦ ground (arith, w, o, e)
]

timed-IsTidy :
    (c : Cockpit) → occurs c Connection.timed ≡ true → IsTidy c → IsTidy (on_flight time_out c)
unfolding occurs time_out publish
timed-IsTidy c o w = elim (Option-cases c.flight) [
  | inl e ↦ ground (arith, w, o, e)
  | inr (a, e) ↦ ground (arith, w, o, e)
]

dispose-IsTidy : (c : Cockpit) → IsTidy c → IsTidy (dispose c)
unfolding dispose
dispose-IsTidy c w = ground (arith, w)

react-IsTidy :
    (c : Cockpit) (event : Event) (now : ℕ)
    → occurs c event ≡ true
    → IsTidy c
    → IsTidy (react c event now)
unfolding react occurs
react-IsTidy c (Connection.link_changed link) now o w = observe_connection-IsTidy link now c w
react-IsTidy c (Connection.page_changed page) now o w = observe_page-IsTidy page now c w
react-IsTidy c Connection.refresh_requested now o w =
    request_refresh-IsTidy false now c (λ a. absurd cc) w
react-IsTidy c Connection.microtask now o w = microtask-IsTidy c o w
react-IsTidy c (Connection.ended failed) now o w = ended-IsTidy failed c o w
react-IsTidy c Connection.timed now o w = timed-IsTidy c o w
react-IsTidy c Connection.recovery_due now o w =
    let quiet : Cockpit = record c { recovery_timer = false } in
    let still : IsTidy quiet = ground (arith, w) in request_recovery_refresh-IsTidy now quiet still
react-IsTidy c Connection.disposal now o w = dispose-IsTidy c w

-- In every state that events lead to, an automatic refresh was begun five seconds or more after the one before it;
-- `refresh()` is under way once at most, in the flight; the connection is busy exactly while a flight is in time;
-- and once it is disposed, there is neither a flight nor a timer.
pub Reachable-IsTidy :
    (link : Link) (page : Option Visibility) (c : Cockpit) → Reachable link page c → IsTidy c
unfolding created
Reachable-IsTidy link page c Connection.start =
    (tt, refl, λ d. ground arith, λ d. absurd cc, λ d. refl)
Reachable-IsTidy link page c (Connection.step before event now r o) =
    react-IsTidy before event now o (Reachable-IsTidy link page before r)

-- After the disposal no event begins or calls a refresh, or changes what is shown.
pub react-disposed :
    (link : Link) (page : Option Visibility) (c : Cockpit) (event : Event) (now : ℕ)
    → Reachable link page c
    → c.disposed ≡ true
    → (occurs c event ≡ true)
    → ((react c event now).calls ≡ c.calls)
      × ((react c event now).begun ≡ c.begun)
      × ((react c event now).link ≡ c.link)
      × ((react c event now).refreshing ≡ c.refreshing)
      × ((react c event now).refresh_failed ≡ c.refresh_failed)
unfolding react occurs observe_connection observe_page request_refresh request_recovery_refresh
    dispose
react-disposed link page c (Connection.link_changed l) now r d o = ground (arith, d)
react-disposed link page c (Connection.page_changed p) now r d o = ground (arith, d)
react-disposed link page c Connection.refresh_requested now r d o = ground (arith, d)
react-disposed link page c Connection.microtask now r d o =
    ground (arith, o, ((Reachable-IsTidy link page c r).3 d).0)
react-disposed link page c (Connection.ended failed) now r d o =
    ground (arith, o, ((Reachable-IsTidy link page c r).3 d).0)
react-disposed link page c Connection.timed now r d o =
    ground (arith, o, ((Reachable-IsTidy link page c r).3 d).0)
react-disposed link page c Connection.recovery_due now r d o = ground (arith, d)
react-disposed link page c Connection.disposal now r d o = ground (arith, d)
