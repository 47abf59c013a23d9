-- ===== src/Server/Starting.antt =====
-- What NewServer of internal/server.go makes of a configuration that InitializeServerConfig of
-- internal/config/config.go has loaded.
use pusher.Prelude.{
  ◌≡◌, refl, sym, ap, ◌∙◌, Bool, true, false, ◌||◌, Option, some, List, [], ◌∷◌, if◌then◌else◌,
  arith, is_nil, is_some, Text, contains, ◌==◌, eq_iff, eq_refl, get, put, get-put, Bool-cases, inl,
  inr,
}
use mathlib.Core.Path.{subst}
use pusher.App.{App, set_missing_defaults}
use pusher.App.Defaults.{IsComplete, set_missing_defaults-IsComplete}
use pusher.Config.{
  ServerConfig, Viper, listed, redis_driver, needs_redis, applications_of, with_defaults,
  initialize_server_config,
}
use pusher.Registry
use pusher.Registry.{Registry, add_apps, find_by_id}
use pusher.Server.{
  Backend, in_process, in_redis, Server, load_backend, load_app_manager, new_server,
}

-- Each app stands under its id and is complete.
pub record AllComplete (r : Registry) : Type 0 where
  pub at : (id : Text) (a : App) → get r id ≡ some a → (a.id ≡ id) × IsComplete a

put-AllComplete :
    (r : Registry) (a : App) → AllComplete r → IsComplete a → AllComplete (put r a.id a)
put-AllComplete r a all complete = record {
  at = λ id b e. elim (Bool-cases (a.id == id)) [
    | inl y ↦
        let same : some a ≡ some b = ground (arith, y, e, get-put r a.id a id) in
        let is : a ≡ b = cc in (ground (arith, is, y, eq_iff a.id id), rw is at complete)
    | inr n ↦ all.at id b (ground (arith, n, e, get-put r a.id a id))
  ];
}

add_apps-AllComplete :
    (r : Registry) (apps : List App) → AllComplete r → AllComplete (add_apps r (with_defaults apps))
unfolding add_apps with_defaults
add_apps-AllComplete r [] all = all
add_apps-AllComplete r (a ∷ rest) all =
    add_apps-AllComplete (put r (set_missing_defaults a).id (set_missing_defaults a)) rest
      (put-AllComplete r (set_missing_defaults a) all (set_missing_defaults-IsComplete a))

-- the ids of the apps
pub ids : List App → List Text
ids [] = []
ids (a ∷ rest) = a.id ∷ ids rest

id-set_missing_defaults : (a : App) → (set_missing_defaults a).id ≡ a.id
unfolding set_missing_defaults
id-set_missing_defaults a = refl

get-with_defaults :
    (r : Registry) (apps : List App) (id : Text)
    → is_some (get (add_apps r (with_defaults apps)) id)
      ≡ (contains (ids apps) id || is_some (get r id))
unfolding add_apps with_defaults ids contains
get-with_defaults r [] id = refl
get-with_defaults r (a ∷ rest) id = ground (
  arith,
  get-with_defaults (put r (set_missing_defaults a).id (set_missing_defaults a)) rest id,
  get-put r (set_missing_defaults a).id (set_missing_defaults a) id,
  id-set_missing_defaults a,
  eq_iff a.id id,
)

set-not_nil : (r : Registry) (id : Text) → is_some (get r id) ≡ true → is_nil r ≡ false
unfolding get
set-not_nil [] id h = cc
set-not_nil ((j, a) ∷ r) id h = refl

-- the registry of the apps, with the defaults filled in
abbrev registry_of : List App → Registry
registry_of apps = add_apps [] (with_defaults apps)

registry_of-not_nil : (apps : List App) → is_nil apps ≡ false → is_nil (registry_of apps) ≡ false
unfolding ids contains
registry_of-not_nil [] h = cc
registry_of-not_nil (a ∷ rest) h =
    set-not_nil (registry_of (a ∷ rest)) a.id
      (ground (arith, get-with_defaults [] (a ∷ rest) a.id, eq_refl a.id))

some_inj : {c d : ServerConfig} → some c ≡ some d → c ≡ d
some_inj e = cc

-- the configuration after the loading, with or without the Redis client
loaded : Viper → ServerConfig → Option Bool → ServerConfig
loaded v read client = record read {
  applications = some (with_defaults (applications_of v (listed read.applications)));
  using_redis = needs_redis read;
  redis_instance = client;
}

-- what stands in a configuration that has been loaded
record IsLoaded (v : Viper) (read cfg : ServerConfig) : Type 0 where
  apps : cfg.applications ≡ some (with_defaults (applications_of v (listed read.applications)))
  not_nil : is_nil (applications_of v (listed read.applications)) ≡ false
  adapter : cfg.adapter_driver ≡ read.adapter_driver
  queue : cfg.queue_driver ≡ read.queue_driver
  cache : cfg.channel_cache_driver ≡ read.channel_cache_driver
  client : needs_redis read ≡ true → cfg.redis_instance ≡ some true

loaded-IsLoaded :
    (v : Viper) (read : ServerConfig) (client : Option Bool)
    → is_nil (applications_of v (listed read.applications)) ≡ false
    → (needs_redis read ≡ true → client ≡ some true)
    → IsLoaded v read (loaded v read client)
unfolding loaded
loaded-IsLoaded v read client n h = record {
  apps = refl;
  not_nil = n;
  adapter = refl;
  queue = refl;
  cache = refl;
  client = h;
}

initialize-IsLoaded :
    (v : Viper) (redis_starts : Bool) (read cfg : ServerConfig)
    → initialize_server_config v redis_starts (some read) ≡ some cfg
    → IsLoaded v read cfg
unfolding initialize_server_config loaded
initialize-IsLoaded v redis_starts read cfg e =
    elim (Bool-cases (is_nil (applications_of v (listed read.applications)))) [
      | inl y ↦ absurd (ground (arith, e, y))
      | inr n ↦ elim (Bool-cases (needs_redis read)) [
        | inl needs ↦ elim (Bool-cases redis_starts) [
          | inl starts ↦
              let run : initialize_server_config v redis_starts (some read)
                  ≡ some (loaded v read (some true)) =
                rw (n, needs, starts, initialize_server_config) refl in
              subst (IsLoaded v read) (some_inj (sym run ∙ e))
                (loaded-IsLoaded v read _ n (λ h. refl))
          | inr fails ↦ absurd (ground (arith, e, n, needs, fails))
        ]
        | inr free ↦
            let run : initialize_server_config v redis_starts (some read)
                ≡ some (loaded v read read.redis_instance) =
              rw (n, free, initialize_server_config) refl in
            subst (IsLoaded v read) (some_inj (sym run ∙ e))
              (loaded-IsLoaded v read _ n (λ h. absurd (ground (arith, h, free))))
      ]
    ]

-- the implementation that a driver's name stands for
pub chosen : Text → Backend
chosen driver = if driver == redis_driver then in_redis else in_process

load_backend_lem :
    (driver : Text) (conf : ServerConfig)
    → ((driver == redis_driver) ≡ true → conf.redis_instance ≡ some true)
    → load_backend driver conf ≡ some (chosen driver)
unfolding load_backend chosen
load_backend_lem driver conf h = elim (Bool-cases (driver == redis_driver)) [
  | inl y ↦ rw (y, h y, load_backend, chosen) refl
  | inr n ↦ rw (n, load_backend, chosen) refl
]

load_app_manager_lem :
    (conf : ServerConfig) (apps : List App)
    → conf.applications ≡ some (with_defaults apps)
    → is_nil apps ≡ false
    → load_app_manager conf ≡ some (registry_of apps)
unfolding load_app_manager Registry.init
load_app_manager_lem conf apps e n = rw (e, registry_of-not_nil apps n, load_app_manager) refl

-- What NewServer gives: for each driver the implementation that its name stands for; and exactly the
-- configured apps by their ids, each of them complete.
pub record Runs (v : Viper) (read : ServerConfig) (s : Server) : Type 0 where
  pub adapter : s.adapter ≡ chosen read.adapter_driver
  pub queue : s.queue_manager ≡ chosen read.queue_driver
  pub cache : s.cache_manager ≡ chosen read.channel_cache_driver
  pub found :
      (id : Text)
      → is_some (find_by_id s.app_manager id)
        ≡ contains (ids (applications_of v (listed read.applications))) id
  pub complete : AllComplete s.app_manager
  pub serving : s.closing ≡ false

-- If a configuration loads, NewServer makes a server of it (the SNS client being loaded): each driver
-- named `redis` is the one in Redis and any other name gives the local one; an id is found exactly if an
-- app with it was configured; and every app that is found is complete and stands under its own id.
pub new_server-Runs :
    (v : Viper) (redis_starts : Bool) (read cfg : ServerConfig)
    → initialize_server_config v redis_starts (some read) ≡ some cfg
    → (s : Server) × (new_server true (some cfg) ≡ some s) × Runs v read s
unfolding new_server find_by_id needs_redis get
new_server-Runs v redis_starts read cfg e =
    let i = initialize-IsLoaded v redis_starts read cfg e in
    let apps = applications_of v (listed read.applications) in
    let adapter =
      load_backend_lem cfg.adapter_driver cfg (λ h. i.client (ground (arith, h, i.adapter))) in
    let queue =
      load_backend_lem cfg.queue_driver cfg (λ h. i.client (ground (arith, h, i.queue))) in
    let cache =
      load_backend_lem cfg.channel_cache_driver cfg (λ h. i.client (ground (arith, h, i.cache))) in
    let manager = load_app_manager_lem cfg apps i.apps i.not_nil in
    (
      record {
        adapter = chosen cfg.adapter_driver;
        app_manager = registry_of apps;
        cache_manager = chosen cfg.channel_cache_driver;
        queue_manager = chosen cfg.queue_driver;
        closing = false;
      },
      simp (i.apps, adapter, manager, cache, queue),
      record {
        adapter = ap chosen i.adapter;
        queue = ap chosen i.queue;
        cache = ap chosen i.cache;
        found = λ id. ground (arith, get-with_defaults [] apps id);
        complete = add_apps-AllComplete [] apps (record { at = λ id a h. cc });
        serving = refl;
      },
    )
