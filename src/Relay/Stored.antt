-- ===== src/Relay/Stored.antt =====
-- What is proved of the body that a capture of src/proxy.ts stores.
use dsh_full_remote.Prelude.{
  ℕ, ◌≤◌, ◌≡◌, refl, sym, inl, inr, Bool-cases, Bool, true, false, some, List, [], ◌∷◌, ◌++◌,
  length, arith,
}
use dsh_full_remote.Relay.Captures.{
  Capture, fresh_capture, max_capture_bytes, CaptureEvent, captured, stream_end, lost, finish,
  release_slot, release_capture, on_capture, stored_body,
}
use mathlib.Core.List.{append-nil, append_assoc}
use dsh_full_remote.Relay.Slots.{IsSound, fresh_capture-IsSound, on_capture-IsSound}

-- The bytes of the chunks among events.
abbrev pub delivered : List CaptureEvent → List ℕ
delivered [] = []
delivered (captured bytes ∷ events) = bytes ++ delivered events
delivered (stream_end ∷ events) = delivered events
delivered (lost ∷ events) = delivered events
delivered (finish ∷ events) = delivered events

unfoldable pub run_capture : ℕ × Capture → List CaptureEvent → ℕ × Capture
run_capture c [] = c
run_capture c (event ∷ events) = run_capture (on_capture c event) events

-- A capture that is still retained was retained before, and keeps all that came since.
Keeps : Capture → List ℕ → Capture → Type 0
Keeps before bytes after =
    after.retained ≡ true → (before.retained ≡ true) × (after.chunks ≡ before.chunks ++ bytes)

on_capture-Keeps :
    (taken : ℕ) (c : Capture) (event : CaptureEvent)
    → Keeps c (delivered (event ∷ [])) (on_capture (taken, c) event).1
unfolding Keeps on_capture release_capture release_slot
on_capture-Keeps taken c (captured bytes) = ground (arith, append-nil bytes)
on_capture-Keeps taken c stream_end = ground (arith, append-nil c.chunks)
on_capture-Keeps taken c lost = ground arith
on_capture-Keeps taken c finish = ground arith

delivered_cons :
    (event : CaptureEvent) (events : List CaptureEvent)
    → delivered (event ∷ events) ≡ delivered (event ∷ []) ++ delivered events
delivered_cons (captured bytes) events = cc (append-nil bytes)
delivered_cons stream_end events = refl
delivered_cons lost events = refl
delivered_cons finish events = refl

run_capture-Keeps :
    (taken : ℕ) (c : Capture) (events : List CaptureEvent)
    → Keeps c (delivered events) (run_capture (taken, c) events).1
unfolding Keeps run_capture
run_capture-Keeps taken c [] = λ r. (r, sym (append-nil c.chunks))
run_capture-Keeps taken c (event ∷ events) = λ r.
    let next = on_capture (taken, c) event in
    let later = run_capture-Keeps next.0 next.1 events r in
    let now = on_capture-Keeps taken c event later.0 in
    (
      now.0,
      cc (
        later.1,
        now.1,
        delivered_cons event events,
        append_assoc c.chunks (delivered (event ∷ [])) (delivered events),
      ),
    )

run_capture-IsSound :
    (taken : ℕ) (c : Capture) (events : List CaptureEvent)
    → IsSound c
    → IsSound (run_capture (taken, c) events).1
unfolding run_capture
run_capture-IsSound taken c [] s = s
run_capture-IsSound taken c (event ∷ events) s =
    run_capture-IsSound (on_capture (taken, c) event).0 (on_capture (taken, c) event).1 events
      (on_capture-IsSound taken c event s)

-- A body that is stored at the finish of a response is all that the capture was handed, no longer than a mebibyte,
-- and the response was complete, not aborted, and its session still active.
pub stored_body-delivered :
    (taken : ℕ) (events : List CaptureEvent) (complete aborted active : Bool) (body : List ℕ)
    → stored_body (run_capture (taken, fresh_capture) events).1 complete aborted active ≡ some body
    → (body ≡ delivered events)
      × (length body ≤ max_capture_bytes)
      × (complete ≡ true)
      × (aborted ≡ false)
      × (active ≡ true)
unfolding stored_body Keeps
stored_body-delivered taken events complete aborted active body h =
    let c = (run_capture (taken, fresh_capture) events).1 in
    let kept = run_capture-Keeps taken fresh_capture events in
    let sound = run_capture-IsSound taken fresh_capture events fresh_capture-IsSound in
    elim (Bool-cases c.retained) [
      | inl r ↦ ground (arith, h, r, kept r, sound)
      | inr r ↦ ground (arith, h, r)
    ]
