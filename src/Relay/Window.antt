-- ===== src/Relay/Window.antt =====
-- What is proved of the first-byte window of an exchange of src/proxy.ts.
use dsh_full_remote.Prelude.{
  ℕ, ◌≡◌, refl, Bool, true, false, ◌||◌, Option, some, List, get_or, if◌then◌else◌, arith,
}
use dsh_full_remote.Relay.Prompt.{Value, prompt_body_is_slash_command}
use dsh_full_remote.Relay.Exchange.{
  Head, relayed, bad_gateway, too_large, ExchangeLimits, ExchangeKind, Exchange, headers_sent,
  opened, answer_or_end, limit_chunk, sniff_chunk, pipe_chunk, on_chunk, on_body_end, on_response,
  on_delivery, on_failure, abort_upstream, Event, occurs, react, Reachable,
  default_command_timeout_ms,
}
use dsh_full_remote.Relay.Exchange
use dsh_full_remote.Relay.Limits.{Reachable-IsOrderly}

-- What is kept of a prompt's body is what the backend got of it, while its request is alive.
Mirrored : Exchange → Type 0
Mirrored e = e.sniffing ≡ true → e.up_destroyed ≡ false → e.sniffed ≡ e.forwarded

limit_chunk-Mirrored :
    (limits : ExchangeLimits) (e : Exchange) (bytes : List ℕ) (active : Bool)
    → Mirrored e
    → Mirrored (limit_chunk limits e bytes active)
unfolding Mirrored limit_chunk answer_or_end
limit_chunk-Mirrored limits e bytes active m = ground (arith, m)

copied-Mirrored :
    (e : Exchange) (bytes : List ℕ) → Mirrored e → Mirrored (pipe_chunk (sniff_chunk e bytes) bytes)
unfolding Mirrored sniff_chunk pipe_chunk
copied-Mirrored e bytes m = ground (arith, m)

react-Mirrored :
    (parse : List ℕ → Option Value) (limits : ExchangeLimits) (kind : ExchangeKind) (e : Exchange)
    (event : Event)
    → Mirrored e
    → Mirrored (react parse limits kind e event)
unfolding Mirrored react on_chunk on_body_end on_response on_delivery on_failure answer_or_end
    abort_upstream
react-Mirrored parse limits kind e (Exchange.chunk bytes active) m =
    copied-Mirrored (limit_chunk limits e bytes active) bytes
      (limit_chunk-Mirrored limits e bytes active m)
react-Mirrored parse limits kind e Exchange.ended m = ground (arith, m)
react-Mirrored parse limits kind e Exchange.connected m = ground (arith, m)
react-Mirrored parse limits kind e (Exchange.response status) m = ground (arith, m)
react-Mirrored parse limits kind e (Exchange.delivery active) m = ground (arith, m)
react-Mirrored parse limits kind e Exchange.failure m = ground (arith, m)
react-Mirrored parse limits kind e Exchange.upstream_closed m = ground (arith, m)
react-Mirrored parse limits kind e Exchange.connect_timeout m = ground (arith, m)
react-Mirrored parse limits kind e Exchange.first_byte_timeout m = ground (arith, m)
react-Mirrored parse limits kind e Exchange.aborted m = ground (arith, m)
react-Mirrored parse limits kind e (Exchange.client_closed writable_ended) m = ground (arith, m)

Reachable-Mirrored :
    (parse : List ℕ → Option Value) (limits : ExchangeLimits) (kind : ExchangeKind) (e : Exchange)
    → Reachable parse limits kind e
    → Mirrored e
unfolding Mirrored opened
Reachable-Mirrored parse limits kind e Exchange.start = λ s u. refl
Reachable-Mirrored parse limits kind e (Exchange.step before event r o) =
    react-Mirrored parse limits kind before event (Reachable-Mirrored parse limits kind before r)

-- When the body of a sniffed prompt has ended, with the request alive and nothing answered, the first byte gets
-- the command's time exactly if the path is a command's or the body that the backend got is a command line.
pub on_body_end-window :
    (parse : List ℕ → Option Value) (limits : ExchangeLimits) (kind : ExchangeKind) (e : Exchange)
    → Reachable parse limits kind e
    → kind.has_body ≡ true
    → e.sniffing ≡ true
    → e.up_destroyed ≡ false
    → headers_sent e ≡ false
    → (react parse limits kind e Exchange.ended).first_byte_timer
      ≡ some (
          if kind.is_command || prompt_body_is_slash_command (parse e.forwarded)
          then get_or limits.command_timeout_ms default_command_timeout_ms
          else limits.upstream_timeout_ms)
unfolding react on_body_end Mirrored
on_body_end-window parse limits kind e r body sniffing alive silent = ground (
  arith,
  body,
  sniffing,
  alive,
  silent,
  Reachable-IsOrderly parse limits kind e r,
  Reachable-Mirrored parse limits kind e r sniffing alive,
)
