-- ===== src/Api/Routing.antt =====
-- What stands in front of the handlers that LoadWebServer of internal/serve.go routes to.
use pusher.Prelude.{
  ◌≡◌, refl, sym, Bool, true, false, ◌⊎◌, inl, inr, some, List, ◌∷◌, arith, Text, codes, ℤ, pos,
  Map, Occurs, Option-cases,
}
use mathlib.Core.Path.{subst}
use pusher.Api.Guards.{
  Guarded, passes, not_found, no_app, unauthorized, app_middleware, app_middleware-passes_iff,
}
use pusher.Api.Routes.{
  Handler, serve_ws, health, Segment, literal, param, Route, routes, Router, Served, no_route,
  refused, for_app, open_to_all, behind_guard, handle,
}
use pusher.Auth.{hmac_signature, check_timestamp}
use pusher.Auth.Requests.{Request, value, string_to_sign, str_2_int64}
use pusher.Registry.{Registry, find_by_id}

-- the handlers that change or show the state of an app
abbrev pub is_api : Handler → Bool
is_api serve_ws = false
is_api health = false
is_api _ = true

-- a route of the group of the API, or one that needs no app
Shape : Route → Type 0
Shape r =
    ((r.behind ≡ true)
      × (rest : List Segment) × (r.pattern
          ≡ literal (codes "apps") ∷ param (codes "app_id") ∷ rest))
    ⊎ ((r.behind ≡ false) × (is_api r.handler ≡ false))

routes-Shape : (r : Route) → Occurs r routes → Shape r
unfolding Shape
routes-Shape r (inl e) = subst Shape e (inl (refl, _, refl))
routes-Shape r (inr (inl e)) = subst Shape e (inl (refl, _, refl))
routes-Shape r (inr (inr (inl e))) = subst Shape e (inl (refl, _, refl))
routes-Shape r (inr (inr (inr (inl e)))) = subst Shape e (inl (refl, _, refl))
routes-Shape r (inr (inr (inr (inr (inl e))))) = subst Shape e (inl (refl, _, refl))
routes-Shape r (inr (inr (inr (inr (inr (inl e)))))) = subst Shape e (inl (refl, _, refl))
routes-Shape r (inr (inr (inr (inr (inr (inr (inl e))))))) = subst Shape e (inr (refl, refl))
routes-Shape r (inr (inr (inr (inr (inr (inr (inr (inl e)))))))) = subst Shape e (inr (refl, refl))
routes-Shape r (inr (inr (inr (inr (inr (inr (inr (inr z)))))))) = elim z [ ]

module _ (hmac : Text → Text → Text) (lower upper : Text → Text) (router : Router) where
  open router use {segments, find_route, found-Occurs, found_starts}

  -- what is certain about a request that is served in this way
  pub Protected : Registry → ℤ → Request → Served → Type 0
  Protected apps now r no_route = Unit {0}
  Protected apps now r (refused g) = Unit {0}
  Protected apps now r (open_to_all h m) = is_api h ≡ false
  Protected apps now r (for_app h app m) =
      (id : Text) × (more : List Text) × (segments r.path ≡ codes "apps" ∷ id ∷ more)
      × (find_by_id apps id ≡ some app)
      × (check_timestamp now (str_2_int64 (value r.query (codes "auth_timestamp"))) (pos 600)
          ≡ true)
      × (value r.query (codes "auth_signature")
          ≡ hmac_signature hmac (string_to_sign lower upper r) app.secret)

  guard-Protected :
      (apps : Registry) (now : ℤ) (r : Request) (h : Handler) (m : Map Text) (id : Text)
      (more : List Text)
      → segments r.path ≡ codes "apps" ∷ id ∷ more
      → (g : Guarded) → app_middleware hmac lower upper apps now id r ≡ g
      → Protected apps now r (behind_guard h m g)
  unfolding Protected
  guard-Protected apps now r h m id more path not_found e = tt
  guard-Protected apps now r h m id more path no_app e = tt
  guard-Protected apps now r h m id more path (unauthorized x) e = tt
  guard-Protected apps now r h m id more path (passes app) e =
      let (f, v, t, g) = (app_middleware-passes_iff hmac lower upper apps now id r app).0 e in
      (id, more, path, f, t, g)

  -- However a request is made: if a handler of the API runs for an app, then the path starts with /apps/
  -- and an id, that app has the id, the timestamp is accepted and the signature is the HMAC of the request
  -- under the app's secret; and a handler that runs without an app is none of the API.
  pub handle-Protected :
      (apps : Registry) (now : ℤ) (r : Request)
      → Protected apps now r (handle hmac lower upper router apps now r)
  unfolding handle Shape Protected
  handle-Protected apps now r = elim (Option-cases (find_route routes r.method r.path)) [
    | inl e ↦
        let run : handle hmac lower upper router apps now r ≡ no_route = ground (arith, e) in
        subst (Protected apps now r) (sym run) tt
    | inr ((route, m), e) ↦
        let here = found-Occurs routes r.method r.path route m e in
        elim (routes-Shape route here) [
          | inl (behind, rest, pattern) ↦
              let (id, more, path, value_of) =
                found_starts routes r.method r.path route m (codes "apps") (codes "app_id") rest e
                  pattern in
              let run : handle hmac lower upper router apps now r
                  ≡ behind_guard route.handler m (app_middleware hmac lower upper apps now id r) =
                ground (arith, e, behind, value_of) in
              subst (Protected apps now r) (sym run) (
                guard-Protected apps now r route.handler m id more path
                  (app_middleware hmac lower upper apps now id r) refl)
          | inr (free, other) ↦
              let run : handle hmac lower upper router apps now r ≡ open_to_all route.handler m =
                ground (arith, e, free) in
              subst (Protected apps now r) (sym run) other
        ]
  ]
