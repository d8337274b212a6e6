-- ===== src/Gate/State.antt =====
-- src/proxy.ts: what `listenProxy` keeps between requests, what a handler reads of a request, and
-- what it answers. A handler runs to its first `await` at one time and from there to its end at
-- another one: `at` and `resumed_at`.
use dsh_full_remote.Prelude.{ℕ, Bool, Option}
use dsh_full_remote.Prelude.Text.{Text}
use dsh_full_remote.Cache.Store.{Cache, delete_session}
use dsh_full_remote.Invites.Codes.{Codes}
use dsh_full_remote.Invites.Codes
use dsh_full_remote.Net.Headers.{Headers}
use dsh_full_remote.Relay.Connections.{Connections, close_session}
use dsh_full_remote.Sessions.Access.{PublicSession}
use dsh_full_remote.Sessions.Record.{Config, Status, Store}
use dsh_full_remote.Tracker.Buckets.{Buckets, Limits}

-- The part of `RuntimeSpec` that does not change.
pub record Spec : Type 0 where
  pub access_token : Text
  pub control_prefix : Text
  pub cookie_name : Text
  pub ip_allowed : Option (Text → Bool)
  pub login_limits : Limits
  pub upgrade_limits : Limits
  pub invite_options : Codes.Options
  pub sessions_config : Config

-- The stores that the handlers share. `connections` has what `trackSession` holds and which
-- connections were closed; `invites` is `none` when there is no invite store.
pub record Gate : Type 0 where
  pub sessions : Store
  pub logins : Buckets
  pub upgrades : Buckets
  pub invites : Option Codes
  pub cache : Cache Headers
  pub connections : Connections

-- The fields of a form.
pub record Form : Type 0 where
  pub invite : Option Text
  pub token : Option Text
  pub next : Option Text
  pub label : Option Text

-- A request: `remote` is its `effectiveRemoteAddress`, `path` its `pathnameOf`, and `form` the form
-- of its body, `none` when reading it throws. The random id and secret of a login come with it.
pub record Request : Type 0 where
  pub method : Text
  pub path : Text
  pub cookie_header : Option Text
  pub user_agent : Option Text
  pub remote : Text
  pub form : Option Form
  pub at : ℕ
  pub resumed_at : ℕ
  pub fresh_id : Text
  pub fresh_secret : Text

-- The answers of the gate. A cookie is its value; the expired one has the empty value.
pub data Reply : Type 0 where
  forbidden : Reply
  healthy : Reply
  login_page : Reply
  method_not_allowed : Reply
  too_many_attempts : ℕ → Reply
  too_many_devices : Reply
  denied : Reply
  bad_request : Reply
  redirected : Text → Option Text → Reply
  wait_status : Option Status → Reply
  wait_page : Text → Text → Reply
  home_page : PublicSession → Reply
  authentication_required : Reply
  forwarded : Text → Reply

-- `closeSessionConnections`: every connection of the session loses its lease and is closed.
unfoldable pub close_session_connections : Gate → Text → Gate
unfolding close_session
close_session_connections g session_id = record g {
  cache = delete_session g.cache session_id;
  connections = close_session g.connections session_id;
}
