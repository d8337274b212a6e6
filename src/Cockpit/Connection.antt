-- ===== src/Cockpit/Connection.antt =====
-- src/client/cockpit-connection.ts: `createCockpitConnection`, as a machine over the changes of the connection and of
-- the page, the user's requests, its timers and the course of a refresh. The clock's time comes with an event.
use dsh_full_remote.Prelude.{
  ℕ, ◌+◌, ◌≡◌, Bool, true, false, not, ◌&&◌, ◌||◌, Option, none, some, List, [], ◌∷◌, leb, is_some,
  if◌then◌else◌,
}

-- The states of the connection that the code tells apart: the handle's other ones are `other`.
pub data Link : Type 0 where
  connected : Link
  unknown : Link
  other : Link

pub data Visibility : Type 0 where
  visible : Visibility
  hidden : Visibility

-- How far a refresh is: its microtask has not run, `refresh()` is pending, or it was not called.
pub data Progress : Type 0 where
  queued : Progress
  pending : Progress
  skipped : Progress

-- `flight`
pub record Attempt : Type 0 where
  pub automatic : Bool
  pub progress : Progress
  pub timer : Bool
  pub timed_out : Bool

-- A refresh that was begun.
pub record Begun : Type 0 where
  pub at : ℕ
  pub automatic : Bool

-- The closure's variables; `page` is none without a document, and `seen` the visibility that was last observed.
-- `begun` has the refreshes, the newest first, `calls` counts the calls of `refresh()`, and `settled` those that have
-- ended before the disposal.
pub record Cockpit : Type 0 where
  pub disposed : Bool
  pub last_refresh_at : Option ℕ
  pub recovery_timer : Bool
  pub link : Link
  pub refreshing : Bool
  pub refresh_failed : Bool
  pub flight : Option Attempt
  pub page : Option Visibility
  pub seen : Option Visibility
  pub begun : List Begun
  pub calls : ℕ
  pub settled : ℕ

-- `REFRESH_TIMEOUT_MS` and `RECOVERY_REFRESH_INTERVAL_MS`
abbrev pub refresh_timeout_ms : ℕ
refresh_timeout_ms = 8000

abbrev pub recovery_refresh_interval_ms : ℕ
recovery_refresh_interval_ms = 5000

abbrev pub is_hidden : Option Visibility → Bool
is_hidden (some hidden) = true
is_hidden _ = false

abbrev pub is_visible : Option Visibility → Bool
is_visible (some visible) = true
is_visible _ = false

abbrev pub is_connected : Link → Bool
is_connected connected = true
is_connected _ = false

unfoldable pub created : Link → Option Visibility → Cockpit
created link page = record {
  disposed = false;
  last_refresh_at = none;
  recovery_timer = false;
  link = link;
  refreshing = false;
  refresh_failed = false;
  flight = none;
  page = page;
  seen = page;
  begun = [];
  calls = 0;
  settled = 0;
}

-- `publish` of the two flags.
unfoldable pub publish : Bool → Bool → Cockpit → Cockpit
publish refreshing refresh_failed c =
    let shown : Cockpit = record c { refreshing = refreshing; refresh_failed = refresh_failed } in
    if c.disposed then c else shown

-- `requestRefresh`, at a time.
unfoldable pub request_refresh : Bool → ℕ → Cockpit → Cockpit
request_refresh automatic now c =
    let quiet : Cockpit = record c { recovery_timer = false } in
    let flying : Cockpit = record c {
      recovery_timer = false;
      last_refresh_at = some now;
      flight =
          some
            (record { automatic = automatic; progress = queued; timer = true; timed_out = false });
      begun = record { at = now; automatic = automatic } ∷ c.begun;
    } in
    if c.disposed then c else if is_some c.flight then quiet else publish true false flying

-- `lastRefreshAt + RECOVERY_REFRESH_INTERVAL_MS - Date.now() <= 0`
abbrev pub is_due : Option ℕ → ℕ → Bool
is_due none now = true
is_due (some at) now = leb (at + recovery_refresh_interval_ms) now

-- `requestRecoveryRefresh`
unfoldable pub request_recovery_refresh : ℕ → Cockpit → Cockpit
request_recovery_refresh now c =
    let later : Cockpit = record c { recovery_timer = true } in
    if c.disposed || is_hidden c.page || is_some c.flight
    then c
    else if is_due c.last_refresh_at now
    then request_refresh true now c
    else later

-- `observeConnection`
unfoldable pub observe_connection : Link → ℕ → Cockpit → Cockpit
observe_connection link now c =
    let recovered = is_connected link && not (is_connected c.link) in
    let shown : Cockpit = record c { link = link } in
    if c.disposed then c else if recovered then request_recovery_refresh now shown else shown

-- `observeVisibility`, at a change of the page; its listener goes with the disposal.
unfoldable pub observe_page : Visibility → ℕ → Cockpit → Cockpit
observe_page next now c =
    let recovered = is_visible (some next) && not (is_visible c.seen) in
    let turned : Cockpit = record c { page = some next } in
    let seen : Cockpit = record c {
      page = some next;
      seen = some next;
      recovery_timer = not (is_hidden (some next)) && c.recovery_timer;
    } in
    if c.disposed then turned else if recovered then request_recovery_refresh now seen else seen

-- The microtask of a refresh.
unfoldable pub run_microtask : Attempt → Cockpit → Cockpit
run_microtask a c =
    let called : Cockpit = record c {
      flight = some (record a { progress = pending });
      calls = c.calls + 1;
    } in
    let passed : Cockpit = record c { flight = some (record a { progress = skipped }) } in
    if not a.automatic || not (is_hidden c.page) then called else passed

-- `settle`
unfoldable pub settle_flight : Attempt → Bool → Cockpit → Cockpit
settle_flight a failed c =
    let landed : Cockpit = record c {
      flight = none;
      settled = elim a.progress [
        | pending ↦ c.settled + 1
        | queued ↦ c.settled
        | skipped ↦ c.settled
      ];
    } in
    if a.timed_out then landed else publish false failed landed

-- The timer of a refresh.
unfoldable pub time_out : Attempt → Cockpit → Cockpit
time_out a c =
    publish false true (record c { flight = some (record a { timer = false; timed_out = true }) })

-- `dispose`
unfoldable pub dispose : Cockpit → Cockpit
dispose c =
    let ended : Cockpit = record c { disposed = true; recovery_timer = false; flight = none } in
    if c.disposed then c else ended

pub data Event : Type 0 where
  link_changed : Link → Event
  page_changed : Visibility → Event
  refresh_requested : Event
  microtask : Event
  ended : (failed : Bool) → Event
  timed : Event
  recovery_due : Event
  disposal : Event

abbrev pub on_flight : (Attempt → Cockpit → Cockpit) → Cockpit → Cockpit
on_flight f c = elim c.flight [ none ↦ c | some a ↦ f a c ]

-- What may happen to the refresh in flight: its microtask runs once, and it ends after it; one that was not called
-- does not fail.
unfoldable pub occurs : Cockpit → Event → Bool
occurs c microtask = elim c.flight [
  | none ↦ false
  | some a ↦ elim a.progress [ queued ↦ true | pending ↦ false | skipped ↦ false ]
]
occurs c (ended failed) = elim c.flight [
  | none ↦ false
  | some a ↦ elim a.progress [ queued ↦ false | pending ↦ true | skipped ↦ not failed ]
]
occurs c timed = elim c.flight [ none ↦ false | some a ↦ a.timer ]
occurs c recovery_due = c.recovery_timer
occurs c _ = true

unfoldable pub react : Cockpit → Event → ℕ → Cockpit
react c (link_changed link) now = observe_connection link now c
react c (page_changed page) now = observe_page page now c
react c refresh_requested now = request_refresh false now c
react c microtask now = on_flight run_microtask c
react c (ended failed) now = on_flight (λ a. settle_flight a failed) c
react c timed now = on_flight time_out c
react c recovery_due now = request_recovery_refresh now (record c { recovery_timer = false })
react c disposal now = dispose c

-- The states that events lead to.
pub data Reachable (link : Link) (page : Option Visibility) : Cockpit → Type 0 where
  start : Reachable link page (created link page)
  step :
      (c : Cockpit) (event : Event) (now : ℕ)
      → Reachable link page c
      → occurs c event ≡ true
      → Reachable link page (react c event now)
