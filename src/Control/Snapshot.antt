-- ===== src/Control/Snapshot.antt =====
-- src/index.ts: `snapshot`, what the panel is shown of the runtime; of src/http-util.ts `publishHost`,
-- `reachableHosts` and `formatHttpUrl`.
use dsh_full_remote.Prelude.{
  ℕ, Bool, not, ◌||◌, Option, none, some, List, [], ◌∷◌, ◌++◌, any, if◌then◌else◌, is_some,
}
use dsh_full_remote.Prelude.Text.{Text, codes, text_eq}
use dsh_full_remote.Net.Hosts.{is_wildcard_host, format_authority}
use dsh_full_remote.Tunnel.Manager.{TunnelState, Tunnel}
use dsh_full_remote.Runtime.State.{Listen, RuntimeConfig, Runtime, effective_listen}

-- What `snapshot` reads besides the state and `RuntimeConfig`: `addresses` are the network
-- interfaces of the platform, each with its address and whether it is IPv4 and not internal.
pub record PanelConfig : Type 0 where
  pub approval_mode : Bool
  pub audit_log : Bool
  pub trust_forwarded_for : Bool
  pub addresses : List (Text × Bool)

-- `TunnelStatus`
pub record TunnelStatus : Type 0 where
  pub state : TunnelState
  pub public_url : Option Text
  pub detail : Option Text

-- What `runSelfCheck` returns, but for the probe of the fence.
pub record SelfCheck : Type 0 where
  pub running : Bool
  pub tls : Bool
  pub audit_log : Bool
  pub allow_token_read : Bool
  pub trust_forwarded_for : Bool

-- `RuntimeStatus`; `bound` is `listen` again.
pub record RuntimeStatus : Type 0 where
  pub enabled : Bool
  pub running : Bool
  pub target : Text
  pub backend : Text
  pub listen : Listen
  pub reachables : List Text
  pub wildcard : Bool
  pub approval_mode : Bool
  pub tls : Bool
  pub audit_log : Bool
  pub trust_forwarded_for : Bool
  pub tunnel : TunnelStatus
  pub reason : Option Text

-- `formatHttpUrl`
unfoldable pub format_http_url : Text → ℕ → (scheme : Text) → Text
format_http_url host port scheme = scheme ++ (codes "://" ++ format_authority host port)

-- `firstReachableIPv4`
unfoldable pub first_reachable_ipv4 : List (Text × Bool) → Text
first_reachable_ipv4 [] = codes "127.0.0.1"
first_reachable_ipv4 ((address, reachable) ∷ rest) =
    let later = first_reachable_ipv4 rest in if reachable then address else later

-- `publishHost`
unfoldable pub publish_host : List (Text × Bool) → Text → Text
publish_host addresses bound_host =
    if is_wildcard_host bound_host then first_reachable_ipv4 addresses else bound_host

-- `reachableHosts`
unfoldable pub reachable_hosts : List (Text × Bool) → Text → List Text
reachable_hosts addresses bound_host =
    let hosts =
      codes "127.0.0.1"
      ∷ (if text_eq bound_host (codes "::")
            || text_eq bound_host (codes "::0")
            || text_eq bound_host (codes "[::]")
          then codes "::1" ∷ []
          else []) in
    let lan = first_reachable_ipv4 addresses in
    if not (is_wildcard_host bound_host)
    then bound_host ∷ []
    else if any (text_eq lan) hosts
    then hosts
    else hosts ++ lan ∷ []

-- `.map(host => formatHttpUrl(host, listen.port, scheme()))`
unfoldable pub http_urls : ℕ → Text → List Text → List Text
http_urls port scheme [] = []
http_urls port scheme (host ∷ hosts) =
    format_http_url host port scheme ∷ http_urls port scheme hosts

-- `scheme`
abbrev pub scheme_of : RuntimeConfig → Text
scheme_of c = if c.https then codes "https" else codes "http"

-- `bound === undefined ? effectiveListen() : { host: bound.host, port: bound.port }`
unfoldable pub shown_listen : RuntimeConfig → Runtime → Listen
shown_listen c r = elim r.bound [ none ↦ effective_listen c r | some bound ↦ bound ]

-- `status` of the tunnel.
unfoldable pub tunnel_status : Tunnel → TunnelStatus
tunnel_status t = record { state = t.state; public_url = t.public_url; detail = t.detail }

-- `snapshot`; the reason that `setListen` gives for its own answer is outside.
unfoldable pub snapshot : RuntimeConfig → PanelConfig → Runtime → RuntimeStatus
snapshot c p r =
    let listen = shown_listen c r in
    record {
      enabled = r.enabled;
      running = is_some r.bound;
      target = format_http_url (publish_host p.addresses listen.host) listen.port (scheme_of c);
      backend = format_http_url c.backend_host c.backend_port (codes "http");
      listen = listen;
      reachables = http_urls listen.port (scheme_of c) (reachable_hosts p.addresses listen.host);
      wildcard = is_wildcard_host listen.host;
      approval_mode = p.approval_mode;
      tls = c.https;
      audit_log = p.audit_log;
      trust_forwarded_for = p.trust_forwarded_for;
      tunnel = tunnel_status r.tunnel;
      reason = r.last_failure;
    }

-- `runSelfCheck`
unfoldable pub run_self_check : RuntimeConfig → PanelConfig → Bool → Runtime → SelfCheck
run_self_check c p allow_token_read r = record {
  running = is_some r.bound;
  tls = c.https;
  audit_log = p.audit_log;
  allow_token_read = allow_token_read;
  trust_forwarded_for = p.trust_forwarded_for;
}
