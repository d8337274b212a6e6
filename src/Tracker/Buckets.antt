-- ===== src/Tracker/Buckets.antt =====
-- src/proxy.ts: `createLoginTracker`. Times are milliseconds as natural numbers; an age that would be
-- negative is 0, which passes the same tests. `Math.ceil(ms / 1000)` is `ceil_seconds`.
use dsh_full_remote.Prelude.{
  ℕ, ◌+◌, ◌-◌, ◌/◌, Bool, false, ◌||◌, Option, none, some, List, [], ◌∷◌, ltb, leb, if◌then◌else◌,
}
use dsh_full_remote.Prelude.Text.{Text}
use dsh_full_remote.Prelude.StrMap.{StrMap, get, set, delete, delete_where, size}

pub record Bucket : Type 0 where
  pub failures : ℕ
  pub in_flight : ℕ
  pub first_failure : ℕ
  pub locked_until : Option ℕ

-- `maxAttempts` and `lockoutMs`.
pub record Limits : Type 0 where
  pub max_attempts : ℕ
  pub lockout_ms : ℕ

abbrev pub Buckets : Type 0
Buckets = StrMap Bucket

-- `MAX_TRACKED_LOGIN_IPS`
abbrev pub max_tracked_login_ips : ℕ
max_tracked_login_ips = 4096

abbrev pub ceil_seconds : ℕ → ℕ
ceil_seconds ms = (ms + 999) / 1000

-- `bucket.lockedUntil !== undefined && bucket.lockedUntil > now`
abbrev pub locked : Option ℕ → ℕ → Bool
locked none now = false
locked (some until) now = ltb now until

-- `bucket.lockedUntil !== undefined && bucket.lockedUntil <= now`
abbrev pub lock_over : Option ℕ → ℕ → Bool
lock_over none now = false
lock_over (some until) now = leb until now

-- Milliseconds that are left of a lock.
abbrev pub remaining : Option ℕ → ℕ → ℕ
remaining none now = 0
remaining (some until) now = until - now

-- `check`
unfoldable pub check : Buckets → Text → ℕ → Buckets × ℕ
check m ip now = elim (get ip m) [
  | none ↦ (m, 0)
  | some b ↦ elim b.locked_until [
    | none ↦ (m, 0)
    | some until ↦ if ltb now until then (m, ceil_seconds (until - now)) else (delete ip m, 0)
  ]
]

-- The bucket that `reserve` works on: the stored one, unless its window has passed.
unfoldable pub current_bucket : Limits → Option Bucket → ℕ → Bucket
current_bucket l none now = record {
  failures = 0;
  in_flight = 0;
  first_failure = now;
  locked_until = none;
}
current_bucket l (some b) now =
    if ltb l.lockout_ms (now - b.first_failure)
    then record { failures = 0; in_flight = 0; first_failure = now; locked_until = none }
    else b

-- `reserve`
unfoldable pub reserve : Limits → Buckets → Text → ℕ → Buckets × ℕ
reserve l m ip now =
    let b = current_bucket l (get ip m) now in
    if locked b.locked_until now
    then (m, ceil_seconds (remaining b.locked_until now))
    else if leb l.max_attempts (b.failures + b.in_flight)
    then (
      set ip (record b { locked_until = some (now + l.lockout_ms) }) m,
      ceil_seconds l.lockout_ms,
    )
    else (set ip (record b { in_flight = b.in_flight + 1 }) m, 0)

-- The mutations of `fail` on a bucket within its window.
unfoldable pub note_failure : Limits → Bucket → ℕ → Bucket
note_failure l b now =
    let failures = b.failures + 1 in
    record b {
      in_flight = b.in_flight - 1;
      failures = failures;
      locked_until =
          if leb l.max_attempts failures then some (now + l.lockout_ms) else b.locked_until;
    }

abbrev pub first_bucket : ℕ → Bucket
first_bucket now = record { failures = 1; in_flight = 0; first_failure = now; locked_until = none }

-- `fail`
unfoldable pub fail : Limits → Buckets → Text → ℕ → Buckets
unfolding note_failure
fail l m ip now = elim (get ip m) [
  | none ↦ set ip (first_bucket now) m
  | some b ↦
      if ltb l.lockout_ms (now - b.first_failure)
      then set ip (first_bucket now) m
      else set ip (note_failure l b now) m
]

-- `success`
unfoldable pub success : Buckets → Text → Buckets
success m ip = delete ip m

-- `sweepExpired`
unfoldable pub sweep_expired : Limits → Buckets → ℕ → Buckets
sweep_expired l m now =
    delete_where (λ b. lock_over b.locked_until now || ltb l.lockout_ms (now - b.first_failure)) m

-- The loop of `prune`: the first entry with the least `firstFailure`.
unfoldable pub oldest_bucket :
    Option (Text × Bucket) → List (Text × Bucket) → Option (Text × Bucket)
oldest_bucket o [] = o
oldest_bucket none ((k, b) ∷ m) = oldest_bucket (some (k, b)) m
oldest_bucket (some (j, a)) ((k, b) ∷ m) =
    oldest_bucket (if ltb b.first_failure a.first_failure then some (k, b) else some (j, a)) m

-- `prune`
unfoldable pub prune : Limits → Buckets → ℕ → Buckets
unfolding oldest_bucket sweep_expired
prune l m now =
    if leb (size m) max_tracked_login_ips
    then m
    else let swept = sweep_expired l m now in
      if leb (size swept) max_tracked_login_ips
      then swept
      else elim (oldest_bucket none swept) [ none ↦ swept | some (k, b) ↦ delete k swept ]
