-- ===== src/Tests/Routes.antt =====
-- A signed request that is routed to the handler of events.
use pusher.Prelude.{
  ◌≡◌, refl, sym, ap, ◌∙◌, inl, inr, Option, none, some, List, [], ◌∷◌, arith, if◌then◌else◌,
  is_nil, Text, codes, ◌==◌, eq_iff, eq_refl, pos, Map, get, Occurs, Bool-cases, Option-cases,
}
use mathlib.Core.Path.{subst}
use pusher.Api.Guards.{app_middleware, signature_middleware}
use pusher.Api.Routes.{Route, Router, Segment, literal, param, handle, event_trigger, for_app}
use pusher.Api.Routing.{Protected, handle-Protected}
use pusher.Auth.{hmac_signature, hex, check_timestamp}
use pusher.Auth.Requests.{Request, str_2_int64, digits, verify}
use pusher.Registry.{Registry, find_by_id}
use pusher.Tests.Data.{shop}

abbrev hash : Text → Text → Text
hash key text = []

abbrev keep : Text → Text
keep s = s

-- the segments of the one path
abbrev cut : Text → List Text
cut path = codes "apps" ∷ codes "7" ∷ codes "events" ∷ []

-- a router that takes the first route whose pattern matches
match_path : List Segment → List Text → Option (Map Text)
match_path [] [] = some []
match_path [] (t ∷ ts) = none
match_path (p ∷ ps) [] = none
match_path (literal l ∷ ps) (t ∷ ts) = let rest = match_path ps ts in if l == t then rest else none
match_path (param name ∷ ps) (t ∷ ts) =
    let rest = match_path ps ts in
    if is_nil t then none else elim rest [ none ↦ none | some m ↦ some ((name, t) ∷ m) ]

find_route : List Route → Text → List Text → Option (Route × Map Text)
find_route [] method path = none
find_route (r ∷ rs) method path =
    let later = find_route rs method path in
    if r.method == method
    then elim (match_path r.pattern path) [ none ↦ later | some m ↦ some (r, m) ]
    else later

abbrev found : Route → Map Text → Option (Route × Map Text)
found r m = some (r, m)

pair_inj : {r s : Route} {m n : Map Text} → found r m ≡ found s n → (r ≡ s) × (m ≡ n)
pair_inj e = (cc, cc)

find_route_lem :
    (rs : List Route) (method : Text) (path : List Text) (r : Route) (m : Map Text)
    → find_route rs method path ≡ found r m
    → Occurs r rs × (match_path r.pattern path ≡ some m)
unfolding find_route
find_route_lem [] method path r m e = cc
find_route_lem (x ∷ rs) method path r m e = elim (Bool-cases (x.method == method)) [
  | inr n ↦ let (o, h) = find_route_lem rs method path r m (ground (arith, e, n)) in (inr o, h)
  | inl y ↦ elim (Option-cases (match_path x.pattern path)) [
    | inl f ↦ let (o, h) = find_route_lem rs method path r m (ground (arith, e, y, f)) in (inr o, h)
    | inr (n, f) ↦
        let is : found x n ≡ found r m = ground (arith, e, y, f) in
        let (same, values) = pair_inj is in
        (inl same, subst (λ z. match_path z.pattern path ≡ some m) same (f ∙ ap some values))
  ]
]

map_inj : {m n : Map Text} → some m ≡ some n → m ≡ n
map_inj e = cc

get_first : (k v : Text) (n m : Map Text) → some ((k, v) ∷ n) ≡ some m → get m k ≡ some v
unfolding get
get_first k v n m e =
    let here : get ((k, v) ∷ n) k ≡ some v = ground (arith, eq_refl k) in
    subst (λ z. get z k ≡ some v) (map_inj e) here

match_path_lem :
    (a k : Text) (rest : List Segment) (path : List Text) (m : Map Text)
    → match_path (literal a ∷ param k ∷ rest) path ≡ some m
    → (id : Text) × (more : List Text) × (path ≡ a ∷ id ∷ more) × (get m k ≡ some id)
unfolding match_path
match_path_lem a k rest [] m e = cc
match_path_lem a k rest (b ∷ []) m e = absurd (ground (arith, e))
match_path_lem a k rest (b ∷ id ∷ more) m e = elim (Bool-cases (a == b)) [
  | inr n ↦ absurd (ground (arith, e, n))
  | inl y ↦ elim (Bool-cases (is_nil id)) [
    | inl z ↦ absurd (ground (arith, e, y, z))
    | inr z ↦ elim (Option-cases (match_path rest more)) [
      | inl f ↦ absurd (ground (arith, e, y, z, f))
      | inr (n, f) ↦
          let is : some ((k, id) ∷ n) ≡ some m = ground (arith, e, y, z, f) in
          (
            id,
            more,
            ap (λ (t : Text). t ∷ id ∷ more) (sym ((eq_iff _ _).0 y)),
            get_first k id n m is,
          )
    ]
  ]
]

abbrev router : Router
router = record {
  segments = cut;
  find_route = λ rs method path. find_route rs method (cut path);
  found-Occurs = λ rs method path r m e. (find_route_lem rs method (cut path) r m e).0;
  found_starts = λ rs method path r m a k rest e p. match_path_lem a k rest (cut path) m (
      subst (λ (q : List Segment). match_path q (cut path) ≡ some m) p
        (find_route_lem rs method (cut path) r m e).1);
}

abbrev apps : Registry
apps = (codes "7", shop) ∷ []

abbrev signed : Request
signed = record {
  method = codes "POST";
  path = codes "/apps/7/events";
  query =
      (codes "auth_version", codes "1.0" ∷ []) ∷ (codes "auth_timestamp", codes "1000" ∷ []) ∷ [];
}

-- the handler runs for the app
runs :
    handle hash keep keep router apps (pos 1000) signed
    ≡ for_app event_trigger shop ((codes "app_id", codes "7") ∷ [])
unfolding handle find_route match_path app_middleware signature_middleware find_by_id get verify
    ◌==◌ check_timestamp str_2_int64 digits hmac_signature hex
runs = refl

handle-Protected_example :
    Protected hash keep keep router apps
      (pos 1000)
      signed
      (handle hash keep keep router apps (pos 1000) signed)
handle-Protected_example = handle-Protected hash keep keep router apps (pos 1000) signed
