-- ===== src/Relay/Captures.antt =====
-- src/proxy.ts: the bounded copies that `proxyRequest` takes of static responses for the cache, and the slots that
-- `reserveCacheCapture` gives out. The digest of a body is the platform's.
use dsh_full_remote.Prelude.{
  ℕ, zero, suc, ◌+◌, ◌-◌, ◌*◌, Bool, true, false, not, ◌&&◌, Option, none, some, List, [], ◌∷◌,
  ◌++◌, leb, ltb, length, if◌then◌else◌,
}
use dsh_full_remote.Prelude.Text.{Text, codes}
use dsh_full_remote.Prelude.StrMap.{set}
use dsh_full_remote.Net.Headers.{one, number, Headers, is_absent}
use dsh_full_remote.Cache.Store.{Cache, safe, Options, put}
use dsh_full_remote.Relay.Prepare.{header_of}

-- What `observe` keeps of one response; `slot_released` is the flag of its `releaseCapture`.
pub record Capture : Type 0 where
  pub chunks : List ℕ
  pub size : ℕ
  pub ended : Bool
  pub retained : Bool
  pub slot_released : Bool

abbrev pub fresh_capture : Capture
fresh_capture = record {
  chunks = [];
  size = 0;
  ended = false;
  retained = true;
  slot_released = false;
}

-- `1024 * 1024`
abbrev pub max_capture_bytes : ℕ
max_capture_bytes = 1024 * 1024

-- The slots.
abbrev pub max_captures : ℕ
max_captures = 8

-- What reaches the listeners: a chunk, the stream's end, its error or the close of the response, and the finish
-- of the response.
pub data CaptureEvent : Type 0 where
  captured : List ℕ → CaptureEvent
  stream_end : CaptureEvent
  lost : CaptureEvent
  finish : CaptureEvent

-- `releaseCapture`, with the number of slots that are taken.
unfoldable pub release_slot : ℕ × Capture → ℕ × Capture
release_slot (taken, c) =
    let freed : Capture = record c { slot_released = true } in
    if c.slot_released then (taken, c) else (taken - 1, freed)

-- `release`
unfoldable pub release_capture : ℕ × Capture → ℕ × Capture
release_capture (taken, c) =
    let dropped : Capture = record c { retained = false; chunks = [] } in
    if not c.retained then (taken, c) else release_slot (taken, dropped)

-- The listeners.
unfoldable pub on_capture : ℕ × Capture → CaptureEvent → ℕ × Capture
on_capture (taken, c) (captured bytes) =
    let size = c.size + length bytes in
    let grown : Capture = record c { size = size } in
    let kept : Capture = record c { size = size; chunks = c.chunks ++ bytes } in
    if not c.retained
    then (taken, c)
    else if ltb max_capture_bytes size
    then release_capture (taken, grown)
    else (taken, kept)
on_capture (taken, c) stream_end = (taken, record c { ended = true })
on_capture (taken, c) lost = release_capture (taken, c)
on_capture (taken, c) finish = release_capture (taken, c)

-- The body that `finish` stores, where it stores one.
unfoldable pub stored_body : Capture → (complete aborted active : Bool) → Option (List ℕ)
stored_body c complete aborted active =
    if c.retained && c.ended && complete && not aborted && active then some c.chunks else none

module _ (digest : List ℕ → Text) (to_utc_string : ℕ → Text) where
  -- `stored`: the headers of the entry.
  unfoldable pub stored_headers : Headers → List ℕ → ℕ → Headers
  stored_headers response_headers body received_at =
      let tagged =
        if is_absent (header_of (codes "etag") response_headers)
        then set (codes "etag") (one (codes "W/\"" ++ digest body ++ codes "\"")) response_headers
        else response_headers in
      let measured = set (codes "content-length") (number (length body)) tagged in
      if is_absent (header_of (codes "date") measured)
      then set (codes "date") (one (to_utc_string received_at)) measured
      else measured

  -- What `finish` puts into the cache.
  unfoldable pub store_capture :
      (Headers → ℕ)
      → Options
      → Cache Headers
      → Headers
      → (key session_id : Text) → (freshness received_at now : ℕ) → List ℕ
      → Cache Headers
  store_capture header_bytes options cache response_headers key session_id freshness received_at now
        body =
      put header_bytes options cache now key
        (record {
          status = 200;
          headers = stored_headers response_headers body received_at;
          body = body;
          received_at = some (safe received_at);
        })
        session_id (some (safe (freshness - (now - received_at))))

-- All captures of a proxy, and the slots that are taken.
pub record Captures : Type 0 where
  pub taken : ℕ
  pub captures : List Capture

abbrev pub no_captures : Captures
no_captures = record { taken = 0; captures = [] }

-- `reserveCacheCapture`
unfoldable pub reserve_cache_capture : Captures → Captures
reserve_cache_capture s =
    let more : Captures = record { taken = s.taken + 1; captures = fresh_capture ∷ s.captures } in
    if leb max_captures s.taken then s else more

-- An event of one of the captures.
unfoldable pub at_capture : ℕ → List Capture → ℕ → CaptureEvent → ℕ × List Capture
at_capture taken [] i event = (taken, [])
at_capture taken (c ∷ captures) zero event =
    ((on_capture (taken, c) event).0, (on_capture (taken, c) event).1 ∷ captures)
at_capture taken (c ∷ captures) (suc i) event =
    ((at_capture taken captures i event).0, c ∷ (at_capture taken captures i event).1)

pub data CaptureOp : Type 0 where
  reserve_slot : CaptureOp
  at : ℕ → CaptureEvent → CaptureOp

unfoldable pub on_captures : Captures → CaptureOp → Captures
on_captures s reserve_slot = reserve_cache_capture s
on_captures s (at i event) = record {
  taken = (at_capture s.taken s.captures i event).0;
  captures = (at_capture s.taken s.captures i event).1;
}

unfoldable pub run_captures : Captures → List CaptureOp → Captures
run_captures s [] = s
run_captures s (op ∷ ops) = run_captures (on_captures s op) ops
