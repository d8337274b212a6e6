-- ===== src/Relay/Exchange.antt =====
-- src/proxy.ts: one exchange of `proxyRequest` with the backend, as a machine over the events of the request,
-- of the response to the client and of the request to the backend. A chunk that the pipe hands to a destroyed
-- request is dropped. The exchange's answer of `activity()` comes with the event.
use dsh_full_remote.Prelude.{
  ℕ, ◌+◌, ◌≡◌, Bool, true, false, not, ◌&&◌, ◌||◌, Option, none, some, List, [], ◌∷◌, ◌++◌, ltb,
  length, get_or, is_some, if◌then◌else◌,
}
use dsh_full_remote.Relay.Prompt.{Value, command_sniff_limit_bytes, prompt_body_is_slash_command}

-- The heads that `res.writeHead` writes.
pub data Head : Type 0 where
  relayed : ℕ → Head
  bad_gateway : Head
  too_large : Head

-- What of `RuntimeSpec` the exchange reads.
pub record ExchangeLimits : Type 0 where
  pub max_request_bytes : ℕ
  pub upstream_timeout_ms : ℕ
  pub command_timeout_ms : Option ℕ

-- What is fixed when the exchange opens: whether the path is that of a command, whether the body of a prompt is
-- sniffed, and `inboundMethodHasBody`.
pub record ExchangeKind : Type 0 where
  pub is_command : Bool
  pub is_sniffed : Bool
  pub has_body : Bool

-- The variables of `proxyRequest`; `forwarded` is what went to the backend, and `heads` what was answered.
pub record Exchange : Type 0 where
  pub received : ℕ
  pub overflow : Bool
  pub forwarded : List ℕ
  pub heads : List Head
  pub responded : Bool
  pub up_destroyed : Bool
  pub res_destroyed : Bool
  pub connect_timer : Bool
  pub first_byte_timer : Option ℕ
  pub sniffing : Bool
  pub sniffed : List ℕ
  pub sniffed_bytes : ℕ

-- `DEFAULT_COMMAND_TIMEOUT_MS`
abbrev pub default_command_timeout_ms : ℕ
default_command_timeout_ms = 300000

-- `res.headersSent`
abbrev pub headers_sent : Exchange → Bool
headers_sent e = elim e.heads [ [] ↦ false | head ∷ heads ↦ true ]

-- The exchange once `req.pipe(up)` has run.
unfoldable pub opened : ExchangeKind → Exchange
opened kind = record {
  received = 0;
  overflow = false;
  forwarded = [];
  heads = [];
  responded = false;
  up_destroyed = false;
  res_destroyed = false;
  connect_timer = true;
  first_byte_timer = none;
  sniffing = kind.is_sniffed;
  sniffed = [];
  sniffed_bytes = 0;
}

-- A head where none is sent, else the end of the response.
unfoldable pub answer_or_end : Head → Exchange → Exchange
answer_or_end head e =
    if headers_sent e then record e { res_destroyed = true } else record e { heads = head ∷ [] }

-- The byte limit on the stream: the first listener of `data`.
unfoldable pub limit_chunk : ExchangeLimits → Exchange → List ℕ → Bool → Exchange
limit_chunk limits e chunk active =
    let received = e.received + length chunk in
    let over : Exchange = record e {
      received = received;
      overflow = true;
      connect_timer = false;
      up_destroyed = true;
    } in
    let gone : Exchange = record e { up_destroyed = true; res_destroyed = true } in
    let within : Exchange = record e { received = received } in
    if e.overflow
    then e
    else if not active
    then gone
    else if ltb limits.max_request_bytes received
    then answer_or_end too_large over
    else within

-- The passive copy of a prompt's body: the second listener of `data`.
unfoldable pub sniff_chunk : Exchange → List ℕ → Exchange
sniff_chunk e chunk =
    let bytes = e.sniffed_bytes + length chunk in
    let dropped : Exchange = record e { sniffing = false; sniffed = []; sniffed_bytes = bytes } in
    let kept : Exchange = record e { sniffed = e.sniffed ++ chunk; sniffed_bytes = bytes } in
    if not e.sniffing then e else if ltb command_sniff_limit_bytes bytes then dropped else kept

-- The pipe: the third listener of `data`.
unfoldable pub pipe_chunk : Exchange → List ℕ → Exchange
pipe_chunk e chunk =
    let written : Exchange = record e { forwarded = e.forwarded ++ chunk } in
    if e.up_destroyed then e else written

-- `req.on('data')`
unfoldable pub on_chunk : ExchangeLimits → Exchange → List ℕ → Bool → Exchange
on_chunk limits e chunk active =
    pipe_chunk (sniff_chunk (limit_chunk limits e chunk active) chunk) chunk

-- `req.once('end')`; `parse` reads the bytes of a body.
unfoldable pub on_body_end :
    (List ℕ → Option Value) → ExchangeLimits → ExchangeKind → Exchange → Exchange
on_body_end parse limits kind e =
    let command = get_or limits.command_timeout_ms default_command_timeout_ms in
    let armed : Exchange = record e {
      first_byte_timer = some (
          if kind.is_command || (e.sniffing && prompt_body_is_slash_command (parse e.sniffed))
          then command
          else limits.upstream_timeout_ms);
    } in
    if not kind.has_body || e.overflow || headers_sent e then e else armed

-- The callback of the response, with the status that it relays.
unfoldable pub on_response : Exchange → ℕ → Exchange
on_response e status = record e {
  connect_timer = false;
  first_byte_timer = none;
  responded = true;
  heads = relayed status ∷ e.heads;
}

-- `incoming.on('data')`
unfoldable pub on_delivery : Exchange → Bool → Exchange
on_delivery e active =
    let gone : Exchange = record e { up_destroyed = true; res_destroyed = true } in
    if active then e else gone

-- `up.on('error')`
unfoldable pub on_failure : Exchange → Exchange
on_failure e =
    answer_or_end bad_gateway
      (record e { connect_timer = false; first_byte_timer = none; up_destroyed = true })

-- `abortUpstream`, and the two timers.
unfoldable pub abort_upstream : Exchange → Exchange
abort_upstream e = record e { up_destroyed = true }

pub data Event : Type 0 where
  chunk : List ℕ → Bool → Event
  ended : Event
  connected : Event
  response : ℕ → Event
  delivery : Bool → Event
  failure : Event
  upstream_closed : Event
  connect_timeout : Event
  first_byte_timeout : Event
  aborted : Event
  client_closed : (writable_ended : Bool) → Event

-- What the platform lets happen: a request that is not destroyed gets one response, and a timer runs out while
-- it is armed.
unfoldable pub occurs : Exchange → Event → Bool
occurs e (response status) = not e.up_destroyed && not e.responded
occurs e (delivery active) = e.responded
occurs e connect_timeout = e.connect_timer
occurs e first_byte_timeout = is_some e.first_byte_timer
occurs e _ = true

module _ (parse : List ℕ → Option Value) (limits : ExchangeLimits) (kind : ExchangeKind) where
  unfoldable pub react : Exchange → Event → Exchange
  react e (chunk bytes active) = on_chunk limits e bytes active
  react e ended = on_body_end parse limits kind e
  react e connected = record e { connect_timer = false }
  react e (response status) = on_response e status
  react e (delivery active) = on_delivery e active
  react e failure = on_failure e
  react e upstream_closed = record e { first_byte_timer = none }
  react e connect_timeout = abort_upstream (record e { connect_timer = false })
  react e first_byte_timeout = abort_upstream (record e { first_byte_timer = none })
  react e aborted = abort_upstream e
  react e (client_closed writable_ended) = if writable_ended then e else abort_upstream e

  -- The exchanges that events lead to.
  pub data Reachable : Exchange → Type 0 where
    start : Reachable (opened kind)
    step :
        (e : Exchange) (event : Event)
        → Reachable e
        → occurs e event ≡ true
        → Reachable (react e event)
