-- ===== src/Runtime/State.antt =====
-- src/index.ts: the state of `createRuntime`, loading it and saving it. How the reads and writes of the
-- environment end are arguments, and `file` is what the state file holds.
use dsh_full_remote.Prelude.{
  ℕ, Bool, true, false, Option, none, some, List, [], get_or, is_some, if◌then◌else◌,
}
use dsh_full_remote.Prelude.Text.{Text, text_eq}
use dsh_full_remote.Invites.Codes.{Codes}
use dsh_full_remote.Sessions.Record.{Config, Store, empty_store}
use dsh_full_remote.Sessions.Disk.{RawSession, hydrate, serialize}
use dsh_full_remote.Tunnel.Manager.{Tunnel, create_tunnel_manager}

pub record Listen : Type 0 where
  pub host : Text
  pub port : ℕ

-- What the runtime reads of its configuration.
pub record RuntimeConfig : Type 0 where
  pub listen : Listen
  pub backend_host : Text
  pub backend_port : ℕ
  pub https : Bool
  pub auto_restore : Bool
  pub sessions : Config

-- What `writeState` writes.
pub record File : Type 0 where
  pub enabled : Bool
  pub access_token : Text
  pub sessions : List RawSession
  pub listen_host : Option Text
  pub listen_port : Option ℕ

-- The variables of `createRuntime` once the state is loaded, and the sessions for which
-- `bound.closeSession` was called, the first one first.
pub record Runtime : Type 0 where
  pub bound : Option Listen
  pub disposed : Bool
  pub enabled : Bool
  pub access_token : Text
  pub listen_host : Option Text
  pub listen_port : Option ℕ
  pub persistence_blocked : Bool
  pub last_failure : Option Text
  pub sessions : Store
  pub invites : Codes
  pub tunnel : Tunnel
  pub file : Option File
  pub closed_sessions : List Text

-- What `readStateDetailed` gives, where `refused` is a status of `malformed` or `unreadable`.
pub record Loaded : Type 0 where
  pub refused : Bool
  pub enabled : Bool
  pub access_token : Option Text
  pub sessions : Option (List RawSession)
  pub listen_host : Option Text
  pub listen_port : Option ℕ

-- The file that a save of the state writes, and the sweep that `serialize` makes.
abbrev pub file_of : Runtime → List RawSession → File
file_of r sessions = record {
  enabled = r.enabled;
  access_token = r.access_token;
  sessions = sessions;
  listen_host = r.listen_host;
  listen_port = r.listen_port;
}

-- `save({ required: true })`, where `works` tells whether `writeState` returns: the Boolean is false where
-- it throws.
unfoldable pub save : RuntimeConfig → Runtime → ℕ → Bool → Runtime × Bool
save c r at works =
    if r.persistence_blocked
    then (r, false)
    else let out = serialize c.sessions r.sessions at in
      if works
      then (record r { sessions = out.0; file = some (file_of r out.1) }, true)
      else (record r { sessions = out.0; persistence_blocked = true }, false)

abbrev pub loaded_sessions : RuntimeConfig → Loaded → Store
loaded_sessions c l =
    if is_some l.access_token then hydrate c.sessions empty_store l.sessions else empty_store

-- `load`, the first time: `token` is what `generateAccessToken` gives.
unfoldable pub load : RuntimeConfig → Loaded → Option File → Text → ℕ → Bool → Runtime
unfolding save
load c l file token at works =
    let r : Runtime = record {
      bound = none;
      disposed = false;
      enabled = l.enabled;
      access_token = get_or l.access_token token;
      listen_host = l.listen_host;
      listen_port = l.listen_port;
      persistence_blocked = l.refused;
      last_failure = none;
      sessions = loaded_sessions c l;
      invites = [];
      tunnel = create_tunnel_manager;
      file = file;
      closed_sessions = [];
    } in
    if l.refused then r else (save c r at works).0

abbrev pub override_host : Option Text → Text → Text
override_host none host = host
override_host (some override) host = if text_eq override [] then host else override

-- `effectiveListen`
unfoldable pub effective_listen : RuntimeConfig → Runtime → Listen
effective_listen c r = record {
  host = override_host r.listen_host c.listen.host;
  port = get_or r.listen_port c.listen.port;
}
