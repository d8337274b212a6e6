-- ===== src/Tracker/Window.antt =====
-- How many attempts one address gets within a window, whatever the other addresses do.
use dsh_full_remote.Prelude.{
  ℕ, ◌+◌, ◌-◌, ◌≤◌, ◌<◌, ◌≡◌, refl, ◌≢◌, ◌⊎◌, false, ◌&&◌, Option, none, some, List, [], ◌∷◌, arith,
  ltb, leb, ◌==◌, if◌then◌else◌, min, All, Option-cases, Bool-cases, inl, inr,
}
use dsh_full_remote.Prelude.Text.{Text, text_eq, text_eq_iff, text_eq_sound, text_eq_refl}
use dsh_full_remote.Prelude.StrMap.{get, get-set, get-delete, get-set_self, size}
use dsh_full_remote.Tracker.Buckets.{
  Bucket, Limits, Buckets, ceil_seconds, locked, check, current_bucket, reserve, note_failure,
  first_bucket, fail, success, prune, max_tracked_login_ips,
}

-- What the proxy asks of the tracker, with the address and the time.
pub data Event : Type 0 where
  reserves : (ip : Text) (now : ℕ) → Event
  fails : (ip : Text) (now : ℕ) → Event
  succeeds : (ip : Text) → Event
  checks : (ip : Text) (now : ℕ) → Event
  prunes : (now : ℕ) → Event

unfoldable pub after : Limits → Buckets → Event → Buckets
after l m (reserves ip now) = (reserve l m ip now).0
after l m (fails ip now) = fail l m ip now
after l m (succeeds ip) = success m ip
after l m (checks ip now) = (check m ip now).0
after l m (prunes now) = prune l m now

-- 1 for an attempt of the address that `reserve` lets through.
unfoldable pub admitted_one : Limits → Buckets → Text → Event → ℕ
admitted_one l m ip (reserves j now) = if text_eq j ip && (reserve l m j now).1 == 0 then 1 else 0
admitted_one l m ip (fails j now) = 0
admitted_one l m ip (succeeds j) = 0
admitted_one l m ip (checks j now) = 0
admitted_one l m ip (prunes now) = 0

-- The attempts of the address that are let through in a history.
unfoldable pub admitted : Limits → Buckets → Text → List Event → ℕ
admitted l m ip [] = 0
admitted l m ip (e ∷ es) = admitted_one l m ip e + admitted l (after l m e) ip es

-- The event belongs to another address, or is an attempt or a failure within the window that
-- began at `start`, or a prune.
abbrev pub Within : Limits → Text → ℕ → Event → Type 0
Within l ip start (reserves j now) = (j ≢ ip) ⊎ ((start ≤ now) × (now ≤ start + l.lockout_ms))
Within l ip start (fails j now) = (j ≢ ip) ⊎ ((start ≤ now) × (now ≤ start + l.lockout_ms))
Within l ip start (succeeds j) = j ≢ ip
Within l ip start (checks j now) = j ≢ ip
Within l ip start (prunes now) = Unit

-- A prune finds no more addresses than may be tracked.
abbrev pub HasRoom : Buckets → Event → Type 0
HasRoom m (prunes now) = size m ≤ max_tracked_login_ips
HasRoom m _ = Unit

-- No prune of the history finds more addresses than may be tracked.
abbrev pub IsRoomy : Limits → Buckets → List Event → Type 0
IsRoomy l m [] = Unit
IsRoomy l m (e ∷ es) = HasRoom m e × IsRoomy l (after l m e) es

-- Attempts in the bucket, finished or not.
abbrev used : Bucket → ℕ
used b = b.failures + b.in_flight

-- The attempts that count against the limit.
abbrev spent : Limits → Bucket → ℕ
spent l b = min (used b) l.max_attempts

-- After an event the address has a bucket of the same window, and every admission was spent.
abbrev Advances : Limits → Bucket → Option Bucket → ℕ → Type 0
Advances l b o n =
    (c : Bucket) × (o ≡ some c) × (c.first_failure ≡ b.first_failure) × (n + spent l b ≤ spent l c)

reserve-Advances :
    (l : Limits) (m : Buckets) (ip : Text) (b : Bucket) (now : ℕ)
    → 0 < l.lockout_ms
    → get ip m ≡ some b
    → now ≤ b.first_failure + l.lockout_ms
    → Advances l b (get ip (reserve l m ip now).0) (if (reserve l m ip now).1 == 0 then 1 else 0)
unfolding reserve current_bucket
reserve-Advances l m ip b now long g w =
    let keep : ltb l.lockout_ms (now - b.first_failure) ≡ false = ground arith in
    let full = record b { locked_until = some (now + l.lockout_ms) } in
    let more = record b { in_flight = b.in_flight + 1 } in
    elim (Bool-cases (locked b.locked_until now)) [
      | inl t ↦ (b, ground (arith, g, keep, t), refl, ground (arith, g, keep, t))
      | inr t ↦ elim (Bool-cases (leb l.max_attempts (used b))) [
        | inl f ↦ (
          full,
          ground (arith, g, keep, t, f, get-set_self ip full m),
          refl,
          ground (arith, g, keep, t, f),
        )
        | inr f ↦ (
          more,
          ground (arith, g, keep, t, f, get-set_self ip more m),
          refl,
          ground (arith, g, keep, t, f),
        )
      ]
    ]

fail-Advances :
    (l : Limits) (m : Buckets) (ip : Text) (b : Bucket) (now : ℕ)
    → get ip m ≡ some b
    → now ≤ b.first_failure + l.lockout_ms
    → Advances l b (get ip (fail l m ip now)) 0
unfolding fail
fail-Advances l m ip b now g w =
    let keep : ltb l.lockout_ms (now - b.first_failure) ≡ false = ground arith in
    let c = note_failure l b now in
    (c, ground (arith, g, keep, get-set_self ip c m), ground arith, ground arith)

-- An event of another address leaves the bucket alone.
other_event :
    (l : Limits) (m : Buckets) (ip j : Text) (now : ℕ)
    → j ≢ ip
    → (get ip (reserve l m j now).0 ≡ get ip m)
      × (get ip (fail l m j now) ≡ get ip m)
      × (get ip (success m j) ≡ get ip m)
      × (get ip (check m j now).0 ≡ get ip m)
unfolding reserve fail success check
other_event l m ip j now ne =
    let b = current_bucket l (get j m) now in
    (
      ground (
        arith,
        text_eq_iff j ip,
        get-set j ip (record b { locked_until = some (now + l.lockout_ms) }) m,
        get-set j ip (record b { in_flight = b.in_flight + 1 }) m,
      ),
      elim (Option-cases (get j m)) [
        | inl e ↦ ground (arith, e, text_eq_iff j ip, get-set j ip (first_bucket now) m)
        | inr (a, e) ↦ ground (
          arith,
          e,
          text_eq_iff j ip,
          get-set j ip (first_bucket now) m,
          get-set j ip (note_failure l a now) m,
        )
      ],
      ground (arith, text_eq_iff j ip, get-delete j ip m),
      ground (arith, text_eq_iff j ip, get-delete j ip m),
    )

-- A prune that finds no more addresses than may be tracked does nothing.
prune_roomy :
    (l : Limits) (m : Buckets) (now : ℕ) → size m ≤ max_tracked_login_ips → prune l m now ≡ m
unfolding prune
prune_roomy l m now room = ground (arith, room)

event-Advances :
    (l : Limits) (m : Buckets) (ip : Text) (b : Bucket) (e : Event)
    → 0 < l.lockout_ms
    → get ip m ≡ some b
    → Within l ip b.first_failure e
    → HasRoom m e
    → Advances l b (get ip (after l m e)) (admitted_one l m ip e)
unfolding after admitted_one
event-Advances l m ip b (reserves j now) long g w room = elim (Bool-cases (text_eq j ip)) [
  | inl t ↦
      let same = text_eq_sound j ip t in
      let (c, e, f, h) = reserve-Advances l m ip b now long g (ground (arith, same, w)) in
      (c, ground (arith, same, e), f, ground (arith, same, h, t))
  | inr t ↦
      let same = (other_event l m ip j now (λ e. ground (arith, t, e, text_eq_refl ip))).0 in
      rw (t, same) (b, g, refl, omega arith)
]
event-Advances l m ip b (fails j now) long g w room = elim (Bool-cases (text_eq j ip)) [
  | inl t ↦
      let same = text_eq_sound j ip t in
      let (c, e, f, h) = fail-Advances l m ip b now g (ground (arith, same, w)) in
      (c, ground (arith, same, e), f, h)
  | inr t ↦
      let same = (other_event l m ip j now (λ e. ground (arith, t, e, text_eq_refl ip))).1 in
      rw same (b, g, refl, omega arith)
]
event-Advances l m ip b (succeeds j) long g w room =
    rw ((other_event l m ip j 0 w).2) (b, g, refl, omega arith)
event-Advances l m ip b (checks j now) long g w room =
    rw ((other_event l m ip j now w).3) (b, g, refl, omega arith)
event-Advances l m ip b (prunes now) long g w room =
    rw (prune_roomy l m now room) (b, g, refl, omega arith)

admitted-Within :
    (l : Limits) (m : Buckets) (ip : Text) (b : Bucket) (es : List Event)
    → 0 < l.lockout_ms
    → get ip m ≡ some b
    → All (Within l ip b.first_failure) es
    → IsRoomy l m es
    → admitted l m ip es + spent l b ≤ l.max_attempts
unfolding admitted
admitted-Within l m ip b [] long g w room = omega arith
admitted-Within l m ip b (e ∷ es) long g w room =
    let (c, g', f, h) = event-Advances l m ip b e long g w.0 room.0 in
    let rest = admitted-Within l (after l m e) ip c es long g' (rw f w.1) room.1 in
    omega (arith, h, rest)

-- With a positive limit and lockout time, an address without a bucket gets at most `maxAttempts`
-- attempts through within the lockout time after its first one, however its attempts and failures are
-- interleaved with the prunes and with whatever other addresses do, as long as no prune finds more
-- than 4096 addresses.
pub admitted-le :
    (l : Limits) (m : Buckets) (ip : Text) (start : ℕ) (es : List Event)
    → 0 < l.lockout_ms
    → 0 < l.max_attempts
    → get ip m ≡ none
    → All (Within l ip start) es
    → IsRoomy l m (reserves ip start ∷ es)
    → admitted l m ip (reserves ip start ∷ es) ≤ l.max_attempts
unfolding admitted admitted_one after reserve current_bucket
admitted-le l m ip start es long some_max g w room =
    let b : Bucket = record {
      failures = 0;
      in_flight = 1;
      first_failure = start;
      locked_until = none;
    } in
    let m' = (reserve l m ip start).0 in
    let stored : get ip m' ≡ some b = ground (arith, g, get-set_self ip b m) in
    let rest = admitted-Within l m' ip b es long stored w room.1 in ground (arith, rest)

-- While a lock runs and the window that led to it has not passed, every attempt is refused with the
-- seconds that are left, rounded up, and nothing changes.
pub reserve_locked :
    (l : Limits) (m : Buckets) (ip : Text) (b : Bucket) (now until : ℕ)
    → get ip m ≡ some b
    → b.locked_until ≡ some until
    → now < until
    → now ≤ b.first_failure + l.lockout_ms
    → (reserve l m ip now ≡ (m, ceil_seconds (until - now))) × (0 < (reserve l m ip now).1)
unfolding reserve current_bucket
reserve_locked l m ip b now until g k lt w = (ground (arith, g, k), ground (arith, g, k))

-- A lock does not outlast the window: once the window of the first failure has passed, `reserve`
-- starts a new one and lets the attempt through, though the lock that it announced still runs and
-- `check` still refuses.
pub reserve_forgets_lock :
    (l : Limits) (m : Buckets) (ip : Text) (b : Bucket) (now until : ℕ)
    → 0 < l.max_attempts
    → get ip m ≡ some b
    → b.locked_until ≡ some until
    → now < until
    → b.first_failure + l.lockout_ms < now
    → ((reserve l m ip now).1 ≡ 0) × (0 < (check m ip now).1)
unfolding reserve current_bucket check
reserve_forgets_lock l m ip b now until some_max g k lt w =
    (ground (arith, g, k), ground (arith, g, k))
