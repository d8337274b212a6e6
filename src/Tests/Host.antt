-- ===== src/Tests/Host.antt =====
-- The host runtime: the theorems at a runtime that is up.
use dsh_full_remote.Prelude.{◌≡◌, ℕ, refl, ◌⊎◌, true, false, none, some, List, [], ◌∷◌}
use dsh_full_remote.Prelude.Text.{codes, text_eq}
use dsh_full_remote.Sessions.Directory.{
  Admin, approves, revokes, directory, administer_all, specify_all, directory-administer_all,
}
use dsh_full_remote.Sessions.Record.{Store, Session, pending, empty_store, default_config}
use dsh_full_remote.Tunnel.Manager.{create_tunnel_manager}
use dsh_full_remote.Runtime.State.{Listen, RuntimeConfig, Runtime}
use dsh_full_remote.Runtime.Actions.{Start, rotate_token}
use dsh_full_remote.Runtime.Commands.{Command, rotates, halts, run_commands}
use dsh_full_remote.Runtime.Rotation.{IsLockedOut, IsRefused, rotate_token-IsLockedOut}
use dsh_full_remote.Runtime.Blocked.{Keeps, run_commands-Keeps}
use dsh_full_remote.Prelude.StrMap.{get, set}
use dsh_full_remote.Net.Hosts.{is_loopback_host}
use dsh_full_remote.Sessions.Record.{sweep}
use dsh_full_remote.Runtime.State.{Runtime}
use dsh_full_remote.Invites.Codes
use dsh_full_remote.Control.Routes.{Request, null_body, routes}
use dsh_full_remote.Control.Handle.{ControlSpec, Ends, handle, is_loopback_origin}
use dsh_full_remote.Control.Guarded.{is_refusal, handle_guarded, handle-reads}
use dsh_full_remote.Control.Concealed.{handle-conceals}

abbrev listen : Listen
listen = record { host = codes "0.0.0.0"; port = 3081 }

abbrev host_config : RuntimeConfig
host_config = record {
  listen = listen;
  backend_host = codes "127.0.0.1";
  backend_port = 3080;
  https = false;
  auto_restore = true;
  sessions = default_config;
}

abbrev running : Runtime
running = record {
  bound = some listen;
  disposed = false;
  enabled = true;
  access_token = codes "old";
  listen_host = none;
  listen_port = none;
  persistence_blocked = false;
  last_failure = none;
  sessions = empty_store;
  invites = [];
  tunnel = create_tunnel_manager;
  file = none;
  closed_sessions = [];
}

abbrev works : Start
works = record {
  reads_tls = true;
  binds = some listen;
  refusal = codes "listen-failed";
  writes = true;
  closes = true;
}

rotate_token-IsLockedOut_example :
    IsLockedOut
      (codes "new")
      (rotate_token host_config running (codes "new") 1000 true true works).0
    ⊎ IsRefused running (rotate_token host_config running (codes "new") 1000 true true works)
rotate_token-IsLockedOut_example =
    rotate_token-IsLockedOut host_config running (codes "new") 1000 true true works

-- A runtime whose state file could not be read.
abbrev refused_runtime : Runtime
refused_runtime = record running { persistence_blocked = true }

abbrev orders : List (Command × ℕ)
orders = (rotates (codes "new") true true works, 1000) ∷ (halts true true, 2000) ∷ []

run_commands-Keeps_example : Keeps refused_runtime (run_commands host_config refused_runtime orders)
run_commands-Keeps_example = run_commands-Keeps host_config refused_runtime orders refl

-- A device that waits for its approval.
abbrev waiting : Session
waiting = record {
  id = codes "ab";
  secret_hash = codes "hash";
  label = codes "phone";
  status = pending;
  created_at = 1000;
  last_seen_at = 1000;
  created_ip = none;
  last_seen_ip = none;
  ref = 0;
}

abbrev waiting_store : Store
waiting_store = record { sessions = (codes "ab", waiting) ∷ []; changes = 0; next_ref = 1 }

abbrev panel : List Admin
panel = approves (codes "ab") 2000 ∷ revokes (codes "ab") 3000 ∷ []

directory-administer_all_example :
    directory (administer_all waiting_store panel) (codes "ab")
    ≡ specify_all (directory waiting_store) panel (codes "ab")
directory-administer_all_example =
    directory-administer_all waiting_store panel (codes "ab") (refl, tt)

abbrev control_spec : ControlSpec
control_spec = record {
  allow_token_read = true;
  runtime = host_config;
  invite_options = Codes.default_options;
  resolve = λ path base. none;
  hostname_of = λ origin. some origin;
  panel = record {
    approval_mode = true;
    audit_log = true;
    trust_forwarded_for = false;
    addresses = (codes "192.168.1.5", true) ∷ [];
  };
}

abbrev ends : Ends
ends = record {
  at = 1000;
  first = works;
  second = works;
  saves = true;
  closes = true;
  writes = true;
  fresh_token = codes "new";
  fresh_code = codes "code";
}

abbrev read_token : Request
read_token = record {
  remote_address = some (codes "127.0.0.1");
  method = codes "GET";
  path = codes "/dsh-reverse-proxy/token";
  control_header = some (codes "1");
  origin = none;
  body = null_body;
  limit = none;
  event = none;
}

-- The same request from another host.
abbrev foreign_read : Request
foreign_read = record read_token { remote_address = some (codes "10.0.0.1") }

handle_guarded_example :
    ((handle control_spec running foreign_read ends).0 ≡ running)
    × (is_refusal (handle control_spec running foreign_read ends).1 ≡ true)
unfolding is_loopback_host text_eq is_loopback_origin
handle_guarded_example = handle_guarded control_spec running foreign_read ends refl

-- The panel asks for the state, where reading the token is not allowed.
abbrev closed_spec : ControlSpec
closed_spec = record control_spec { allow_token_read = false }

abbrev status_request : Request
status_request = record read_token { path = codes "/dsh-reverse-proxy/status" }

handle-conceals_example :
    (handle closed_spec
      (record running { access_token = codes "x"; file = none })
      status_request
      ends).1
    ≡ (handle closed_spec running status_request ends).1
unfolding routes get set text_eq
handle-conceals_example =
    handle-conceals closed_spec running (codes "x") none status_request ends refl refl

handle-reads_example :
    ((handle control_spec running read_token ends).0 ≡ running)
    ⊎ ((handle control_spec running read_token ends).0
        ≡ record running { sessions = sweep host_config.sessions running.sessions 1000 })
handle-reads_example = handle-reads control_spec running read_token ends refl
