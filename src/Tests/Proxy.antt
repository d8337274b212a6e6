-- ===== src/Tests/Proxy.antt =====
-- Headers, bodies, hosts and the gate: the theorems at concrete requests.
use dsh_full_remote.Prelude.{
  ◌≡◌, ◌↔◌, ◌⊎◌, refl, Bool, true, false, not, ◌||◌, arith, ℕ, none, some, List, [], ◌∷◌, ◌==◌,
  length, if◌then◌else◌,
}
use dsh_full_remote.Prelude.Text.{
  Text, codes, text_eq, to_lower, lower_char, starts_with, index_of, split, trim,
}
use dsh_full_remote.Prelude.StrMap.{get, set}
use dsh_full_remote.Cache.Steps.{run-empty-IsBounded}
use dsh_full_remote.Cache.Steps
use dsh_full_remote.Cache.Store
use dsh_full_remote.Cache.Store.{empty_cache}
use dsh_full_remote.Gate.Admission.{is_forwarded_iff, is_forwarded-on_upgrade_iff, is_gate_request}
use dsh_full_remote.Gate.Login.{is_allowed, handle_login, welcome}
use dsh_full_remote.Gate.Own.{is_forwarded}
use dsh_full_remote.Gate.Routes.{cookie_of, on_request, on_upgrade, handle_logout}
use dsh_full_remote.Gate.SignOut.{
  handle_logout_lem, tracked, is_other, login_needs_credential, shows_credential,
}
use dsh_full_remote.Gate.State.{Spec, Gate, Form, Request}
use dsh_full_remote.Invites.Codes
use dsh_full_remote.Net.Headers.{one, Headers, connection_tokens, member, is_absent}
use dsh_full_remote.Net.Hosts.{is_loopback_host}
use dsh_full_remote.Net.Forward.{Forwarding, forward_headers, peer_of, trust_of}
use dsh_full_remote.Net.Lookups.{get-forward_headers, forward_headers-rewritten, withheld}
use dsh_full_remote.Net.Copies.{present}
use dsh_full_remote.Net.Remote.{
  Peer, Trust, request_is_https, effective_remote_address, effective_remote_address_cases,
}
use dsh_full_remote.Sessions.Access.{is_active}
use dsh_full_remote.Sessions.Cookie.{decode_session_cookie}
use dsh_full_remote.Sessions.Record.{
  Session, Store, IsValid, default_config, empty_store, active, find, expired,
}
use dsh_full_remote.Relay.Connections.{no_connections, track_session, has}
use dsh_full_remote.Tracker.Buckets.{Limits, check, reserve, current_bucket}
use dsh_full_remote.Security.{safe_equal, parse_cookies}
use dsh_full_remote.Sessions.Login.{login}

abbrev hash : Text → Text
hash secret = b'#' ∷ secret

abbrev sent : Headers
sent =
    (codes "host", one (codes "evil"))
    ∷ (codes "x-real-ip", one (codes "10.0.0.1"))
    ∷ (codes "cookie", one (codes "x=y"))
    ∷ (codes "accept", one (codes "text/html"))
    ∷ []

abbrev forwarding : Forwarding
forwarding = record {
  backend_host = codes "127.0.0.1:3080";
  remote = codes "10.0.0.9";
  tls = false;
  trust_forwarded_proto = true;
  forwarded_for = none;
  upstream_cookie = some (codes "h=1");
}

get-forward_headers_example : get (codes "accept") (forward_headers sent forwarding) ≡ (
    if member (codes "accept") withheld || member (codes "accept") (connection_tokens sent)
    then none
    else present (get (codes "accept") sent))
unfolding get text_eq to_lower lower_char member
get-forward_headers_example =
    get-forward_headers sent forwarding (codes "accept") (refl, (refl, (refl, (refl, tt))))
      (refl, (refl, (refl, (refl, tt)))) refl

forward_headers-rewritten_example :
    let out = forward_headers sent forwarding in
    (get (codes "host") out ≡ some (one (codes "127.0.0.1:3080")))
    × (get (codes "origin") out ≡ some (one (codes "http://127.0.0.1:3080")))
    × (get (codes "sec-fetch-site") out ≡ some (one (codes "same-origin")))
    × (get (codes "x-forwarded-for") out ≡ some (one (codes "10.0.0.9")))
    × (get (codes "x-forwarded-host") out ≡ some (one (codes "evil")))
    × (get (codes "x-forwarded-proto") out
        ≡ some (
            one (
              if request_is_https (peer_of sent forwarding) (trust_of forwarding)
              then codes "https"
              else codes "http")))
    × (get (codes "x-dsh-reverse-proxy") out ≡ some (one (codes "1")))
    × (get (codes "cookie") out ≡ some (one (codes "h=1")))
    × (get (codes "forwarded") out ≡ none)
    × (get (codes "x-forwarded-port") out ≡ none)
    × (get (codes "x-real-ip") out ≡ none)
    × (get (codes "referer") out ≡ none)
    × (get (codes "referrer") out ≡ none)
unfolding get text_eq is_absent
forward_headers-rewritten_example = forward_headers-rewritten sent forwarding

-- A stand-in for the platform's test: dotted texts are addresses.
abbrev dotted : Text → Bool
dotted ip = not (length (split b'.' ip) == 1)

abbrev edge : Peer
edge = record {
  direct = codes "127.0.0.1";
  cf_connecting_ip = none;
  x_forwarded_for = some (one (codes "10.0.0.7, 10.0.0.9"));
  x_forwarded_proto = none;
}

abbrev trusting : Trust
trusting = record { tls = false; forwarded_for = true; forwarded_proto = true; cloudflare = false }

effective_remote_address_cases_example :
    (effective_remote_address dotted edge trusting ≡ codes "127.0.0.1")
    ⊎ ((true ≡ true)
        × (is_loopback_host (codes "127.0.0.1") ≡ true)
        × (dotted (effective_remote_address dotted edge trusting) ≡ true)
        × (is_loopback_host (effective_remote_address dotted edge trusting) ≡ false))
effective_remote_address_cases_example = effective_remote_address_cases dotted edge trusting

abbrev limits : Limits
limits = record { max_attempts = 5; lockout_ms = 300000 }

abbrev spec : Spec
spec = record {
  access_token = codes "token";
  control_prefix = codes "/ctl";
  cookie_name = codes "sid";
  ip_allowed = none;
  login_limits = limits;
  upgrade_limits = limits;
  invite_options = Codes.default_options;
  sessions_config = default_config;
}

abbrev gate : Gate
gate = record {
  sessions = empty_store;
  logins = [];
  upgrades = [];
  invites = none;
  cache = empty_cache;
  connections = no_connections;
}

abbrev request : Request
request = record {
  method = codes "POST";
  path = codes "/_dsh_reverse_proxy/login";
  cookie_header = some (codes "sid=a.s");
  user_agent = none;
  remote = codes "10.0.0.9";
  form = some (record { invite = none; token = some (codes "token"); next = none; label = none });
  at = 1000;
  resumed_at = 1250;
  fresh_id = codes "a";
  fresh_secret = codes "s";
}

is_forwarded_iff_example : (is_forwarded (on_request hash spec gate request).1 ≡ true) ↔ (
    (is_allowed spec request.remote ≡ true)
    × (is_gate_request hash spec gate request ≡ false)
    × (starts_with spec.control_prefix request.path ≡ false)
    × (is_active hash default_config gate.sessions (cookie_of spec request) 1000 ≡ true))
is_forwarded_iff_example = is_forwarded_iff hash spec gate request

is_forwarded-on_upgrade_iff_example :
    (is_forwarded (on_upgrade hash spec gate request).1 ≡ true) ↔ (
      (is_allowed spec request.remote ≡ true)
      × ((check gate.upgrades request.remote 1000).1 ≡ 0)
      × (starts_with spec.control_prefix request.path ≡ false)
      × (is_active hash default_config gate.sessions (cookie_of spec request) 1000 ≡ true))
is_forwarded-on_upgrade_iff_example = is_forwarded-on_upgrade_iff hash spec gate request

-- A phone that is signed in, with one connection and one cached response.
abbrev phone : Session
phone = record {
  id = codes "a";
  secret_hash = codes "#s";
  label = codes "Phone";
  status = active;
  created_at = 1000;
  last_seen_at = 1000;
  created_ip = none;
  last_seen_ip = none;
  ref = 0;
}

abbrev signed_in_store : Store
signed_in_store = record { sessions = (codes "a", phone) ∷ []; changes = 1; next_ref = 1 }

signed_in_store-IsValid : IsValid signed_in_store
unfolding get text_eq
signed_in_store-IsValid = record {
  unique = (refl, tt);
  keyed = ((refl, (omega arith, tt)), tt);
  fresh = λ n h. tt;
}

abbrev cached_steps : List (Steps.Op Headers)
cached_steps =
    Steps.puts 1000 (codes "k")
      (record { status = 200; headers = []; body = 1 ∷ []; received_at = none }) (codes "a") none
    ∷ []

abbrev signed_in : Gate
signed_in = record gate {
  sessions = signed_in_store;
  cache = Steps.run (λ h. length h) Store.default_options empty_cache cached_steps;
  connections = (track_session no_connections (codes "a") 1 true).0;
}

abbrev logout_request : Request
logout_request = record request { path = codes "/_dsh_reverse_proxy/logout" }

handle_logout_lem_example :
    let after = (handle_logout hash spec signed_in logout_request).0 in
    (is_active hash default_config after.sessions (some (codes "a.s")) 3000 ≡ false)
    × ((n : ℕ)
        → has n (tracked signed_in.connections (codes "a")) ≡ true
        → (has n after.connections.closed ≡ true) × (has n after.connections.leases ≡ false))
    × (tracked after.connections (codes "a") ≡ [])
    × ((k : Text) → is_other (codes "a") (get k after.cache.entries) ≡ true)
unfolding decode_session_cookie index_of cookie_of parse_cookies is_active find get text_eq
    safe_equal expired split trim set
handle_logout_lem_example =
    handle_logout_lem hash spec Store.default_options signed_in logout_request (codes "a")
      (codes "s") (codes "s") (some (codes "a.s")) 3000 signed_in_store-IsValid
      (run-empty-IsBounded (λ h. length h) Store.default_options cached_steps) refl refl refl

login_needs_credential_example :
    (text_eq request.method (codes "POST") ≡ true)
    × (is_allowed spec request.remote ≡ true)
    × ((reserve limits gate.logins request.remote 1000).1 ≡ 0)
    × ((form : Form) × (request.form ≡ some form)
        × (shows_credential spec gate request form ≡ true))
unfolding handle_login text_eq is_allowed reserve current_bucket get safe_equal login welcome
login_needs_credential_example = login_needs_credential hash spec gate request refl
