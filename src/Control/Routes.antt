-- ===== src/Control/Routes.antt =====
-- src/control-routes.ts: the routes and what a handler reads of a request; src/index.ts: `buildInvite`.
use dsh_full_remote.Prelude.{
  ℕ, min, max, Bool, false, not, ◌||◌, Option, none, some, [], ◌∷◌, ◌++◌, get_or, is_some, ◌==◌,
  if◌then◌else◌,
}
use dsh_full_remote.Prelude.Text.{Text, codes, text_eq, trim}
use dsh_full_remote.Prelude.StrMap.{StrMap, set}
use dsh_full_remote.Cidr.Numbers.{number, decimal_value, unscale}
use dsh_full_remote.Invites.Codes.{issue}
use dsh_full_remote.Invites.Codes
use dsh_full_remote.Runtime.State.{Runtime}
use dsh_full_remote.Gate.Paths.{login_path}

-- `CONTROL_PREFIX`
abbrev pub control_prefix : Text
control_prefix = codes "/dsh-reverse-proxy"

-- `CONTROL_HEADER_VALUE`
abbrev pub control_header_value : Text
control_header_value = codes "1"

pub data Route : Type 0 where
  status self_check invite token sessions audit audit_export tunnel_start tunnel_stop : Route
  approve revoke rename start stop rotate_token listen : Route

-- `route(method, suffix, handler)`
abbrev pub route : Text → Text → Route → StrMap Route → StrMap Route
route method suffix handler routes =
    set (method ++ codes " " ++ control_prefix ++ suffix) handler routes

-- The map of the routes, the first call innermost.
unfoldable pub routes : StrMap Route
unfolding set
routes = route (codes "POST") (codes "/listen") listen (
    route (codes "POST") (codes "/rotate-token") rotate_token (
      route (codes "POST") (codes "/stop") stop (
        route (codes "POST") (codes "/start") start (
          route (codes "POST") (codes "/sessions/rename") rename (
            route (codes "POST") (codes "/sessions/revoke") revoke (
              route (codes "POST") (codes "/sessions/approve") approve (
                route (codes "POST") (codes "/tunnel/stop") tunnel_stop (
                  route (codes "POST") (codes "/tunnel/start") tunnel_start (
                    route (codes "GET") (codes "/audit/export") audit_export (
                      route (codes "GET") (codes "/audit") audit (
                        route (codes "GET") (codes "/sessions") sessions (
                          route (codes "GET") (codes "/token") token (
                            route (codes "POST") (codes "/invite") invite (
                              route (codes "POST") (codes "/self-check") self_check
                                (route (codes "GET") (codes "/status") status [])))))))))))))))

-- A JSON body: `readJson` throws, the value is `null`, or its fields. A field that is no string is none;
-- `host` is `String(body.host ?? '')` and `port` is `Number(body.port)` where that is an integer that is
-- not negative.
pub record Fields : Type 0 where
  pub public_base : Option Text
  pub id : Option Text
  pub label : Option Text
  pub host : Text
  pub port : Option ℕ

pub data JsonBody : Type 0 where
  unreadable null_body : JsonBody
  fields : Fields → JsonBody

-- A request: `path` is its `pathnameOf`, `limit` and `event` are its search parameters.
pub record Request : Type 0 where
  pub remote_address : Option Text
  pub method : Text
  pub path : Text
  pub control_header : Option Text
  pub origin : Option Text
  pub body : JsonBody
  pub limit : Option Text
  pub event : Option Text

-- `Number(text)` as an integer, where one below 0 counts as 0.
abbrev pub integer_of : Text → Option ℕ
integer_of text = elim (trim text) [
  | [] ↦ number text
  | c ∷ s ↦
      if c == b'-'
      then elim (decimal_value unscale s) [ none ↦ none | some n ↦ some 0 ]
      else number text
]

abbrev pub clamped : Option ℕ → ℕ
clamped none = 50
clamped (some n) = min (max n 1) 200

abbrev pub unless_blank : Text → Option Text
unless_blank [] = none
unless_blank (c ∷ s) = some (c ∷ s)

-- `auditQuery`
unfoldable pub audit_query : Request → ℕ × Option Text
audit_query req = (
  elim req.limit [ none ↦ 50 | some text ↦ clamped (integer_of text) ],
  elim req.event [ none ↦ none | some text ↦ unless_blank (trim text) ],
)

-- `text.replace(/\/$/, '')`
abbrev pub without_slash : Text → Text
without_slash [] = []
without_slash (c ∷ []) = if c == b'/' then [] else c ∷ []
without_slash (c ∷ d ∷ s) = c ∷ without_slash (d ∷ s)

abbrev pub ends_with_slash : Text → Bool
ends_with_slash [] = false
ends_with_slash (c ∷ []) = c == b'/'
ends_with_slash (c ∷ d ∷ s) = ends_with_slash (d ∷ s)

-- `InviteResult`: an invite is its code and the URL that it was added to.
pub data InviteResult : Type 0 where
  invalid_base not_running : InviteResult
  invited : (url code : Text) → InviteResult

-- `buildInvite`: `resolve` gives what `new URL(LOGIN_PATH, base)` is as its protocol and text, `target` is that
-- of the snapshot, and `code` the random code that is issued at the time `at`.
unfoldable pub build_invite :
    Codes.Options
    → (Text → Text → Option (Text × Text))
    → Runtime
    → Text
    → Option Text
    → Text
    → ℕ
    → Runtime × InviteResult
build_invite o resolve r target public_base code at =
    let base = without_slash (trim (get_or public_base [])) in
    let origin = if text_eq base [] then get_or r.tunnel.public_url target else base in
    elim (resolve login_path (if ends_with_slash origin then origin else origin ++ codes "/")) [
      | none ↦ (r, invalid_base)
      | some (protocol, url) ↦
          if not (text_eq protocol (codes "http:") || text_eq protocol (codes "https:"))
          then (r, invalid_base)
          else if not (is_some r.bound)
          then (r, not_running)
          else (record r { invites = issue o r.invites code at at }, invited url code)
    ]
