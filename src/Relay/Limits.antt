-- ===== src/Relay/Limits.antt =====
-- What is proved of the exchanges of src/proxy.ts.
use dsh_full_remote.Prelude.{
  ℕ, ◌≤◌, ◌≡◌, Bool, true, false, ◌||◌, Option, List, length, length-append, arith,
}
use dsh_full_remote.Relay.Prompt.{Value, command_sniff_limit_bytes}
use dsh_full_remote.Relay.Exchange.{
  Head, relayed, bad_gateway, too_large, ExchangeLimits, ExchangeKind, Exchange, headers_sent,
  opened, answer_or_end, limit_chunk, sniff_chunk, pipe_chunk, on_chunk, on_body_end, on_response,
  on_delivery, on_failure, abort_upstream, Event, occurs, react, Reachable,
  default_command_timeout_ms,
}
use dsh_full_remote.Relay.Exchange

-- Between two events: the backend got no more bytes than were counted, and no more than are allowed; an overflow
-- has ended the request to the backend, and has been answered; one head at most is sent, which leaves no response
-- to come; and what is kept of the body is what was counted, within its limit.
abbrev pub IsOrderly : ℕ → Exchange → Type 0
IsOrderly most e =
    (length e.forwarded ≤ most)
    × (e.overflow ≡ false → (length e.forwarded ≤ e.received) × (e.received ≤ most))
    × (e.overflow ≡ true → (e.up_destroyed ≡ true) × (headers_sent e ≡ true))
    × (length e.heads ≤ 1)
    × (headers_sent e ≡ true → (e.responded || e.up_destroyed) ≡ true)
    × (length e.sniffed ≤ command_sniff_limit_bytes)
    × (e.sniffing ≡ true → length e.sniffed ≡ e.sniffed_bytes)
    × (e.up_destroyed ≡ false → length e.forwarded ≡ e.received)

opened-IsOrderly : (most : ℕ) (kind : ExchangeKind) → IsOrderly most (opened kind)
unfolding opened
opened-IsOrderly most kind = ground arith

on_chunk-IsOrderly :
    (limits : ExchangeLimits) (e : Exchange) (bytes : List ℕ) (active : Bool)
    → IsOrderly limits.max_request_bytes e
    → IsOrderly limits.max_request_bytes (on_chunk limits e bytes active)
unfolding on_chunk limit_chunk answer_or_end sniff_chunk pipe_chunk
on_chunk-IsOrderly limits e bytes active w =
    ground (arith, w, length-append e.forwarded bytes, length-append e.sniffed bytes)

react-IsOrderly :
    (parse : List ℕ → Option Value) (limits : ExchangeLimits) (kind : ExchangeKind) (e : Exchange)
    (event : Event)
    → occurs e event ≡ true
    → IsOrderly limits.max_request_bytes e
    → IsOrderly limits.max_request_bytes (react parse limits kind e event)
unfolding react occurs on_body_end on_response on_delivery on_failure answer_or_end abort_upstream
react-IsOrderly parse limits kind e (Exchange.chunk bytes active) o w =
    on_chunk-IsOrderly limits e bytes active w
react-IsOrderly parse limits kind e Exchange.ended o w = ground (arith, w)
react-IsOrderly parse limits kind e Exchange.connected o w = ground (arith, w)
react-IsOrderly parse limits kind e (Exchange.response status) o w = ground (arith, w, o)
react-IsOrderly parse limits kind e (Exchange.delivery active) o w = ground (arith, w, o)
react-IsOrderly parse limits kind e Exchange.failure o w = ground (arith, w)
react-IsOrderly parse limits kind e Exchange.upstream_closed o w = ground (arith, w)
react-IsOrderly parse limits kind e Exchange.connect_timeout o w = ground (arith, w)
react-IsOrderly parse limits kind e Exchange.first_byte_timeout o w = ground (arith, w)
react-IsOrderly parse limits kind e Exchange.aborted o w = ground (arith, w)
react-IsOrderly parse limits kind e (Exchange.client_closed writable_ended) o w = ground (arith, w)

-- In every exchange the backend gets no more bytes than are allowed, and, while its request is alive, as many as
-- were counted. The client gets one head at most; it is there, and the request to the backend destroyed, once the
-- body was too long, and a head stands only for a response or a destroyed request. No more of a prompt's body is
-- kept than its limit, and, while it is sniffed, as much as was counted.
pub Reachable-IsOrderly :
    (parse : List ℕ → Option Value) (limits : ExchangeLimits) (kind : ExchangeKind) (e : Exchange)
    → Reachable parse limits kind e
    → IsOrderly limits.max_request_bytes e
Reachable-IsOrderly parse limits kind e Exchange.start =
    opened-IsOrderly limits.max_request_bytes kind
Reachable-IsOrderly parse limits kind e (Exchange.step before event r o) =
    react-IsOrderly parse limits kind before event o
      (Reachable-IsOrderly parse limits kind before r)
