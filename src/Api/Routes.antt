-- ===== src/Api/Routes.antt =====
-- The routes of LoadWebServer in internal/serve.go. The router is the library's, a parameter.
use pusher.Prelude.{
  ◌≡◌, Occurs, Bool, true, false, Option, none, some, List, [], ◌∷◌, if◌then◌else◌, Text, codes, ℤ,
  Map, get,
}
use pusher.Api.Guards.{Guarded, passes, app_middleware}
use pusher.App.{App}
use pusher.Auth.Requests.{Request}
use pusher.Registry.{Registry}

pub data Handler : Type 0 where
  event_trigger batch_event_trigger channel_index channel_show channel_users : Handler
  terminate_user_connections serve_ws health : Handler

pub data Segment : Type 0 where
  literal : Text → Segment
  param : Text → Segment

-- `behind` says that the route is of the group /apps, with its middlewares
pub record Route : Type 0 where
  pub method : Text
  pub pattern : List Segment
  pub behind : Bool
  pub handler : Handler

-- a route of the group, with the rest of its pattern
abbrev backend : Text → List Segment → Handler → Route
backend method rest handler = record {
  method = method;
  pattern = literal (codes "apps") ∷ param (codes "app_id") ∷ rest;
  behind = true;
  handler = handler;
}

abbrev in_channel : List Segment → List Segment
in_channel rest = literal (codes "channels") ∷ param (codes "channel_name") ∷ rest

abbrev pub routes : List Route
routes =
    backend (codes "POST") (literal (codes "events") ∷ []) event_trigger
    ∷ backend (codes "POST") (literal (codes "batch_events") ∷ []) batch_event_trigger
    ∷ backend (codes "GET") (literal (codes "channels") ∷ []) channel_index
    ∷ backend (codes "GET") (in_channel []) channel_show
    ∷ backend (codes "GET") (in_channel (literal (codes "users") ∷ [])) channel_users
    ∷ backend (codes "POST")
        (literal (codes "users")
          ∷ param (codes "user_id")
          ∷ literal (codes "terminate_connections")
          ∷ [])
        terminate_user_connections
    ∷ record {
      method = codes "GET";
      pattern = literal (codes "app") ∷ param (codes "key") ∷ [];
      behind = false;
      handler = serve_ws;
    }
    ∷ record {
      method = codes "GET";
      pattern = literal (codes "health") ∷ [];
      behind = false;
      handler = health;
    }
    ∷ []

-- The library's router: the route that it finds for a method and a path, and the values of the pattern's
-- parameters. It finds one of the routes it was given, and where that one's pattern starts with a name
-- and a parameter, the path has that name and the parameter's value as its first two segments.
pub record Router : Type 0 where
  pub segments : Text → List Text
  pub find_route : List Route → Text → Text → Option (Route × Map Text)
  pub found-Occurs :
      (rs : List Route) (method path : Text) (r : Route) (m : Map Text)
      → find_route rs method path ≡ some (r, m)
      → Occurs r rs
  pub found_starts :
      (rs : List Route) (method path : Text) (r : Route) (m : Map Text) (a k : Text)
      (rest : List Segment)
      → find_route rs method path ≡ some (r, m)
      → r.pattern ≡ literal a ∷ param k ∷ rest
      → (id : Text) × (more : List Text) × (segments path ≡ a ∷ id ∷ more) × (get m k ≡ some id)

-- No route; the status of a middleware; a handler for an app; or a handler that needs none.
pub data Served : Type 0 where
  no_route : Served
  refused : Guarded → Served
  for_app : Handler → App → Map Text → Served
  open_to_all : Handler → Map Text → Served

-- c.Param, empty where there is none
abbrev pub param_or_empty : Option Text → Text
param_or_empty none = []
param_or_empty (some t) = t

abbrev pub behind_guard : Handler → Map Text → Guarded → Served
behind_guard h m (passes app) = for_app h app m
behind_guard h m g = refused g

module _ (hmac : Text → Text → Text) (lower upper : Text → Text) (router : Router) where
  open router use {find_route}

  -- the router with the routes of LoadWebServer
  unfoldable pub handle : Registry → ℤ → Request → Served
  handle apps now r = elim (find_route routes r.method r.path) [
    | none ↦ no_route
    | some (route, m) ↦
        if route.behind
        then behind_guard route.handler m
            (app_middleware hmac lower upper apps now (param_or_empty (get m (codes "app_id"))) r)
        else open_to_all route.handler m
  ]
