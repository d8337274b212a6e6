-- ===== src/Tests/Relay.antt =====
-- The relay and its cache: the theorems at small requests and short histories.
use dsh_full_remote.Prelude.{
  all, get_or, ℕ, ltb, is_some, ◌*◌, ◌≡◌, ◌≤◌, refl, true, false, Option, none, some, List, [], ◌∷◌,
  length, not, ◌&&◌,
}
use dsh_full_remote.Prelude.Text.{Text, codes, text_eq}
use dsh_full_remote.Prelude.StrMap.{get}
use dsh_full_remote.Net.Headers.{Headers, one}
use dsh_full_remote.Cache.Directives.{
  Directive, header_values, directives, static_response_ttl_ms, default_ttl_ms,
}
use dsh_full_remote.Cache.Directives.{has_header, forbids_caching, split_directives}
use dsh_full_remote.Compress.Negotiate.{join_rows}
use dsh_full_remote.Net.Hosts.{decimal}
use dsh_full_remote.Net.Headers.{member}
use dsh_full_remote.Prelude.Text.{
  is_space, split, to_lower, lower_char, starts_with, trim, trim_start, trim_end,
}
use dsh_full_remote.Prelude.StrMap.{set}
use dsh_full_remote.Cache.Admission.{
  cache_key, static_cache_request_key, is_keyed, is_static_path, static_extensions, has_body_length,
  refuses_header,
}
use dsh_full_remote.Cache.Keys.{static_cache_request_key_shared}
use dsh_full_remote.Cache.Freshness.{static_response_ttl_ms_bounds, is_prohibited, respects}
use dsh_full_remote.Relay.Exchange.{
  ExchangeLimits, ExchangeKind, Exchange, opened, react, Reachable, start, step, chunk, occurs,
}
use dsh_full_remote.Relay.Limits.{IsOrderly, Reachable-IsOrderly}
use dsh_full_remote.Relay.Captures.{
  max_capture_bytes, max_captures, reserve_slot, at, captured, stream_end, CaptureEvent, CaptureOp,
  on_capture, run_captures, no_captures, stored_body,
}
use dsh_full_remote.Relay.Slots.{slots, kept_bytes, run_captures_bounded}
use dsh_full_remote.Relay.Stored.{delivered, run_capture, stored_body-delivered}
use dsh_full_remote.Relay.Connections.{Connections, has, expiry_tick, track_session, no_connections}
use dsh_full_remote.Relay.Leases.{expiry_tick_lem}

abbrev asset : Text
asset = codes "/assets/index-abcdefgh.js"

abbrev query_names : Text → List Text
query_names query = query ∷ []

static_cache_request_key_shared_example :
    (codes "s1" ≡ codes "s1")
    × (asset ≡ asset)
    × (header_values ((codes "accept", one (codes "*/*")) ∷ []) (codes "accept-encoding")
        ≡ header_values [] (codes "accept-encoding"))
unfolding static_cache_request_key is_keyed is_static_path static_extensions has_body_length
    has_header header_values forbids_caching directives split_directives join_rows refuses_header
    is_space text_eq split member to_lower lower_char starts_with trim trim_start trim_end decimal
static_cache_request_key_shared_example =
    static_cache_request_key_shared query_names (codes "GET") asset
      ((codes "accept", one (codes "*/*")) ∷ []) (codes "s1") (codes "GET") asset [] (codes "s1")
      (cache_key (codes "s1") asset []) refl refl

abbrev date_parse : Text → Option ℕ
date_parse text = none

abbrev to_utc_string : ℕ → Text
to_utc_string time = []

abbrev fresh_headers : Headers
fresh_headers = (codes "cache-control", one (codes "max-age=60")) ∷ []

abbrev max_age : Directive
max_age = record { name = codes "max-age"; value = some (codes "60") }

static_response_ttl_ms_bounds_example :
    let ttl = static_response_ttl_ms date_parse to_utc_string fresh_headers 8640000000000000 in
    let parsed = directives (header_values fresh_headers (codes "cache-control")) in
    (ttl ≤ default_ttl_ms)
    × ((is_prohibited parsed && ltb 0 ttl) ≡ false)
    × (all (respects ttl) (get_or parsed []) ≡ true)
static_response_ttl_ms_bounds_example =
    static_response_ttl_ms_bounds date_parse to_utc_string fresh_headers 8640000000000000

abbrev limits : ExchangeLimits
limits = record { max_request_bytes = 3; upstream_timeout_ms = 15000; command_timeout_ms = none }

abbrev kind : ExchangeKind
kind = record { is_command = false; is_sniffed = true; has_body = true }

-- An exchange whose body grows too long with its second chunk.
abbrev too_long : Exchange
too_long =
    react (λ body. none) limits kind
      (react (λ body. none) limits kind (opened kind) (chunk (1 ∷ 2 ∷ []) true))
      (chunk (3 ∷ 4 ∷ []) true)

too_long-Reachable : Reachable (λ body. none) limits kind too_long
unfolding occurs
too_long-Reachable =
    step (react (λ body. none) limits kind (opened kind) (chunk (1 ∷ 2 ∷ []) true))
      (chunk (3 ∷ 4 ∷ []) true) (step (opened kind) (chunk (1 ∷ 2 ∷ []) true) start refl) refl

Reachable-IsOrderly_example : IsOrderly 3 too_long
Reachable-IsOrderly_example =
    Reachable-IsOrderly (λ body. none) limits kind too_long too_long-Reachable

abbrev capture_ops : List CaptureOp
capture_ops = reserve_slot ∷ at 0 (captured (1 ∷ 2 ∷ [])) ∷ reserve_slot ∷ at 1 stream_end ∷ []

run_captures_bounded_example :
    ((run_captures no_captures capture_ops).taken
      ≡ slots (run_captures no_captures capture_ops).captures)
    × ((run_captures no_captures capture_ops).taken ≤ max_captures)
    × (kept_bytes (run_captures no_captures capture_ops).captures
        ≤ max_captures * max_capture_bytes)
run_captures_bounded_example = run_captures_bounded capture_ops

abbrev capture_events : List CaptureEvent
capture_events = captured (1 ∷ 2 ∷ []) ∷ captured (3 ∷ []) ∷ stream_end ∷ []

abbrev captured_body : List ℕ
captured_body = 1 ∷ 2 ∷ 3 ∷ []

stored_body-delivered_example :
    (captured_body ≡ delivered capture_events)
    × (length captured_body ≤ max_capture_bytes)
    × (true ≡ true)
    × (false ≡ false)
    × (true ≡ true)
unfolding stored_body run_capture on_capture
stored_body-delivered_example =
    stored_body-delivered 1 capture_events true false true captured_body refl

abbrev one_tracked : Connections
one_tracked = (track_session no_connections (codes "s1") 7 true).0

expiry_tick_lem_example :
    ((has 7 one_tracked.leases
        && true
        && not (has 7 (expiry_tick (λ m. false) (λ id. true) one_tracked).closed))
      ≡ false)
    × ((has 7 (expiry_tick (λ m. false) (λ id. true) one_tracked).leases
          && not (has 7 one_tracked.leases && false))
        ≡ false)
    × ((is_some (
            get
              (codes "s1")
              (expiry_tick (λ m. false) (λ id. true) one_tracked).session_connections)
          && false)
        ≡ false)
unfolding track_session get set
expiry_tick_lem_example = expiry_tick_lem (λ m. false) (λ id. true) one_tracked 7 (codes "s1") refl
