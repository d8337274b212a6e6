-- ===== src/Relay/Slots.antt =====
-- What is proved of the captures of src/proxy.ts.
use dsh_full_remote.Prelude.{
  ℕ, zero, suc, ◌+◌, ◌*◌, ◌≤◌, ◌≡◌, refl, true, false, not, List, [], ◌∷◌, leb, length,
  length-append, if◌then◌else◌, if_split, arith,
}
use dsh_full_remote.Relay.Captures.{
  Capture, fresh_capture, max_capture_bytes, max_captures, CaptureEvent, captured, stream_end, lost,
  finish, release_slot, release_capture, on_capture, Captures, no_captures, reserve_cache_capture,
  at_capture, CaptureOp, reserve_slot, at, on_captures, run_captures,
}

-- A capture is retained while it has its slot, and keeps nothing else; what it keeps was counted, within the limit.
abbrev pub IsSound : Capture → Type 0
IsSound c =
    (c.slot_released ≡ not c.retained)
    × (length c.chunks ≤ max_capture_bytes)
    × (c.retained ≡ true → length c.chunks ≡ c.size)
    × (c.retained ≡ false → length c.chunks ≡ 0)

-- 1 for a slot that is taken.
abbrev pub slot_of : Capture → ℕ
slot_of c = if c.slot_released then 0 else 1

abbrev pub slots : List Capture → ℕ
slots [] = 0
slots (c ∷ captures) = slot_of c + slots captures

-- The bytes that captures keep.
abbrev pub kept_bytes : List Capture → ℕ
kept_bytes [] = 0
kept_bytes (c ∷ captures) = length c.chunks + kept_bytes captures

abbrev AllSound : List Capture → Type 0
AllSound [] = Unit
AllSound (c ∷ captures) = IsSound c × AllSound captures

pub fresh_capture-IsSound : IsSound fresh_capture
fresh_capture-IsSound = (refl, omega arith, λ r. refl, λ r. refl)

pub on_capture-IsSound :
    (taken : ℕ) (c : Capture) (event : CaptureEvent)
    → IsSound c
    → IsSound (on_capture (taken, c) event).1
unfolding on_capture release_capture release_slot
on_capture-IsSound taken c (captured bytes) s = ground (arith, s, length-append c.chunks bytes)
on_capture-IsSound taken c stream_end s = ground (arith, s)
on_capture-IsSound taken c lost s = ground (arith, s)
on_capture-IsSound taken c finish s = ground (arith, s)

-- The slots that are taken change as the capture's own one does.
on_capture-slot :
    (taken rest : ℕ) (c : Capture) (event : CaptureEvent)
    → taken ≡ slot_of c + rest
    → (on_capture (taken, c) event).0 ≡ slot_of (on_capture (taken, c) event).1 + rest
unfolding on_capture release_capture release_slot
on_capture-slot taken rest c (captured bytes) e = ground (arith, e)
on_capture-slot taken rest c stream_end e = ground (arith, e)
on_capture-slot taken rest c lost e = ground (arith, e)
on_capture-slot taken rest c finish e = ground (arith, e)

at_capture-slots :
    (taken rest : ℕ) (captures : List Capture) (i : ℕ) (event : CaptureEvent)
    → taken ≡ rest + slots captures
    → (at_capture taken captures i event).0 ≡ rest + slots (at_capture taken captures i event).1
unfolding at_capture
at_capture-slots taken rest [] i event e = ground (arith, e)
at_capture-slots taken rest (c ∷ captures) zero event e =
    omega (arith, on_capture-slot taken (rest + slots captures) c event (omega (arith, e)))
at_capture-slots taken rest (c ∷ captures) (suc i) event e =
    omega (arith, at_capture-slots taken (rest + slot_of c) captures i event (omega (arith, e)))

at_capture-AllSound :
    (taken : ℕ) (captures : List Capture) (i : ℕ) (event : CaptureEvent)
    → AllSound captures
    → AllSound (at_capture taken captures i event).1
unfolding at_capture
at_capture-AllSound taken [] i event s = tt
at_capture-AllSound taken (c ∷ captures) zero event (s, all) =
    (on_capture-IsSound taken c event s, all)
at_capture-AllSound taken (c ∷ captures) (suc i) event (s, all) =
    (s, at_capture-AllSound taken captures i event all)

Balanced : Captures → Type 0
Balanced s = (s.taken ≡ slots s.captures) × (s.taken ≤ max_captures) × AllSound s.captures

slot-le : (taken : ℕ) (c : Capture) (event : CaptureEvent) → (on_capture (taken, c) event).0 ≤ taken
unfolding on_capture release_capture release_slot
slot-le taken c (captured bytes) = ground arith
slot-le taken c stream_end = ground arith
slot-le taken c lost = ground arith
slot-le taken c finish = ground arith

at_capture-le :
    (taken : ℕ) (captures : List Capture) (i : ℕ) (event : CaptureEvent)
    → (at_capture taken captures i event).0 ≤ taken
unfolding at_capture
at_capture-le taken [] i event = omega arith
at_capture-le taken (c ∷ captures) zero event = slot-le taken c event
at_capture-le taken (c ∷ captures) (suc i) event = at_capture-le taken captures i event

on_captures-Balanced : (s : Captures) (op : CaptureOp) → Balanced s → Balanced (on_captures s op)
unfolding Balanced on_captures reserve_cache_capture
on_captures-Balanced s reserve_slot b =
    if_split Balanced (leb max_captures s.taken) (λ t. b)
      (λ f. (ground (arith, b.0), ground (arith, f), (fresh_capture-IsSound, b.2)))
on_captures-Balanced s (at i event) (taken, few, sound) = (
  omega (arith, at_capture-slots s.taken 0 s.captures i event (omega (arith, taken))),
  omega (arith, few, at_capture-le s.taken s.captures i event),
  at_capture-AllSound s.taken s.captures i event sound,
)

run_captures-Balanced :
    (s : Captures) (ops : List CaptureOp) → Balanced s → Balanced (run_captures s ops)
unfolding run_captures
run_captures-Balanced s [] b = b
run_captures-Balanced s (op ∷ ops) b =
    run_captures-Balanced (on_captures s op) ops (on_captures-Balanced s op b)

kept_bytes-le :
    (captures : List Capture)
    → AllSound captures
    → kept_bytes captures ≤ slots captures * max_capture_bytes
kept_bytes-le [] s = omega arith
kept_bytes-le (c ∷ captures) (s, all) = ground (arith, s, kept_bytes-le captures all)

-- However captures are reserved and their events come, the slots that are taken are those of the captures that
-- have not given theirs back, at most eight, and all captures together keep no more than eight mebibytes.
pub run_captures_bounded :
    (ops : List CaptureOp)
    → ((run_captures no_captures ops).taken ≡ slots (run_captures no_captures ops).captures)
      × ((run_captures no_captures ops).taken ≤ max_captures)
      × (kept_bytes (run_captures no_captures ops).captures ≤ max_captures * max_capture_bytes)
unfolding Balanced
run_captures_bounded ops =
    let b = run_captures-Balanced no_captures ops (refl, omega arith, tt) in
    (b.0, b.1, ground (arith, b.0, b.1, kept_bytes-le (run_captures no_captures ops).captures b.2))
