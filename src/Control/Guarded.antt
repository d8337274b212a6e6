-- ===== src/Control/Guarded.antt =====
-- What is proved of the control API of src/control-routes.ts.
use dsh_full_remote.Prelude.{
  ◌≡◌, refl, subst, ◌⊎◌, inl, inr, Bool, true, false, not, ◌&&◌, ◌||◌, Option, none, some, [], ◌++◌,
  get_or, arith, Option-cases,
}
use dsh_full_remote.Prelude.Text.{Text, codes, text_eq, starts_with}
use dsh_full_remote.Prelude.StrMap.{get, set, Every, Every-get}
use dsh_full_remote.Net.Hosts.{is_loopback_host}
use dsh_full_remote.Sessions.Record.{sweep}
use dsh_full_remote.Sessions.Admin.{list}
use dsh_full_remote.Runtime.State.{Runtime}
use dsh_full_remote.Control.Routes.{
  Route, status, token, sessions, audit, audit_export, routes, Request, control_header_value,
}
use dsh_full_remote.Control.Routes
use dsh_full_remote.Control.Handle.{
  Reply, refused, access_token, ControlSpec, Ends, is_loopback_origin, serve, handle, route_of,
}

-- What `handle` asks of a request besides its route.
abbrev pub is_admitted : ControlSpec → Request → Bool
is_admitted spec req =
    is_loopback_host (get_or req.remote_address [])
    && text_eq (get_or req.control_header []) control_header_value
    && is_loopback_origin spec req.origin

abbrev pub is_refusal : Reply → Bool
is_refusal (refused code error) = true
is_refusal _ = false

-- A request that does not come from a loopback peer with the control header, and from a loopback origin
-- if it has one, changes nothing and gets a refusal.
pub handle_guarded :
    (spec : ControlSpec) (r : Runtime) (req : Request) (e : Ends)
    → is_admitted spec req ≡ false
    → ((handle spec r req e).0 ≡ r) × (is_refusal (handle spec r req e).1 ≡ true)
unfolding handle
handle_guarded spec r req e h = elim (Option-cases (route_of req)) [
  | inl n ↦ ground (arith, h, n)
  | inr (found, n) ↦ ground (arith, h, n)
]

-- A reply that shows the access token.
abbrev pub reveals : Reply → Bool
reveals (access_token text) = true
reveals _ = false

abbrev pub is_rotation : Option Route → Bool
is_rotation none = false
is_rotation (some Routes.rotate_token) = true
is_rotation (some _) = false

abbrev pub reads : Option Route → Bool
reads none = true
reads (some status) = true
reads (some token) = true
reads (some sessions) = true
reads (some audit) = true
reads (some audit_export) = true
reads (some _) = false

-- The key of a route and what it does agree on GET.
abbrev IsFitting : Text → Route → Type 0
IsFitting key found = (not (starts_with (codes "GET ") key) || reads (some found)) ≡ true

routes_fit : Every IsFitting routes
unfolding routes set text_eq starts_with
routes_fit = (
  refl,
  (
    refl,
    (
      refl,
      (
        refl,
        (
          refl,
          (
            refl,
            (refl, (refl, (refl, (refl, (refl, (refl, (refl, (refl, (refl, (refl, tt)))))))))),
          ),
        ),
      ),
    ),
  ),
)

get-routes :
    (path : Text) (found : Route)
    → get (codes "GET" ++ codes " " ++ path) routes ≡ some found
    → reads (some found) ≡ true
unfolding starts_with
get-routes path found n = Every-get IsFitting (codes "GET" ++ codes " " ++ path) routes routes_fit n

serve-reads :
    (spec : ControlSpec) (r : Runtime) (req : Request) (e : Ends) (found : Route)
    → reads (some found) ≡ true
    → ((serve spec r req e found).0 ≡ r)
      ⊎ ((serve spec r req e found).0
          ≡ record r { sessions = sweep spec.runtime.sessions r.sessions e.at })
unfolding serve list
serve-reads spec r req e status h = inl refl
serve-reads spec r req e token h = inl refl
serve-reads spec r req e audit h = inl refl
serve-reads spec r req e audit_export h = inl refl
serve-reads spec r req e sessions h = inr refl
serve-reads spec r req e _ h = ground (arith, h)

-- A GET changes nothing, except that listing the sessions sweeps the expired ones.
pub handle-reads :
    (spec : ControlSpec) (r : Runtime) (req : Request) (e : Ends)
    → req.method ≡ codes "GET"
    → ((handle spec r req e).0 ≡ r)
      ⊎ ((handle spec r req e).0
          ≡ record r { sessions = sweep spec.runtime.sessions r.sessions e.at })
unfolding handle
handle-reads spec r req e m = elim (Option-cases (route_of req)) [
  | inl n ↦ inl (ground (arith, n))
  | inr (found, n) ↦
      let route_reads : get (codes "GET" ++ codes " " ++ req.path) routes ≡ some found =
        subst (λ x. get (x ++ codes " " ++ req.path) routes ≡ some found) m n in
      ground (arith, n, serve-reads spec r req e found (get-routes req.path found route_reads))
]
