-- ===== src/Tests/Caches.antt =====
-- A cache with one entry that expires and one that does not.
use pusher.Prelude.{
  ℕ, ◌+◌, ◌≤◌, ◌<◌, ◌≡◌, refl, none, all, some, List, [], ◌∷◌, if◌then◌else◌, is_some, eqb, Text,
  codes, ◌==◌, arith, get,
}
use pusher.Cache.{Cache, exists_and_not_expired, lookup, store, store_ex, remove}
use pusher.Cache.Laws.{lookup-writes}
use pusher.Cache.Redis.{Redis, get_key}
use pusher.Cache.Agreement.{answers_redis, caches_agree}
use pusher.Cache.Calls.{
  CacheCall, reads, checks, sets, sets_ex, deletes, remembers, updates, is_timely, is_apart, times,
  answers_local,
}

abbrev a_key : Text
a_key = codes "a"

abbrev b_key : Text
b_key = codes "b"

abbrev value : Text
value = codes "v"

abbrev held : Cache
held = store_ex 10 (store [] a_key value) b_key value 5

-- a Redis that keeps its entries as the local cache does
set_command : ℕ → Cache → Text → Text → ℕ → Cache
set_command now c k v ttl = if eqb ttl 0 then store c k v else store_ex now c k v ttl

get-set :
    (now later : ℕ) (c : Cache) (k j v : Text)
    → lookup later (set_command now c k v 0) j ≡ (if k == j then some v else lookup later c j)
unfolding set_command
get-set now later c k j v = ground (arith, (lookup-writes c k j v now 0 later).0)

get-set_before :
    (now later ttl : ℕ) (c : Cache) (k j v : Text)
    → later + 1 < now + ttl
    → lookup later (set_command now c k v ttl) j ≡ (if k == j then some v else lookup later c j)
unfolding set_command
get-set_before now later ttl c k j v lt =
    ground
      (arith, lt, (lookup-writes c k j v now ttl later).0, (lookup-writes c k j v now ttl later).1)

get-set_after :
    (now later ttl : ℕ) (c : Cache) (k j v : Text)
    → 0 < ttl
    → now + ttl + 1 ≤ later
    → lookup later (set_command now c k v ttl) j ≡ (if k == j then none else lookup later c j)
unfolding set_command
get-set_after now later ttl c k j v positive_ le =
    ground (arith, positive_, le, (lookup-writes c k j v now ttl later).1)

abbrev redis : Redis
redis = record {
  Store = Cache;
  tolerance = 1;
  get_command = λ now c k. lookup now c k;
  set_command = set_command;
  del_command = remove;
  exists_command = λ now c k. is_some (lookup now c k);
  get-set = get-set;
  get-set_before = get-set_before;
  get-set_after = get-set_after;
  get-del = λ later c k j. (lookup-writes c k j [] 0 0 later).2;
  exists-get = λ now c k. refl;
}

abbrev calls : List (ℕ × CacheCall)
calls =
    (10, sets a_key value)
    ∷ (11, sets_ex b_key value 4)
    ∷ (12, reads b_key)
    ∷ (13, updates b_key a_key)
    ∷ (20, checks b_key)
    ∷ (21, deletes b_key)
    ∷ (22, remembers b_key 1 (some value))
    ∷ (23, reads b_key)
    ∷ []

caches_agree_example : answers_redis redis (codes "app") calls [] ≡ answers_local calls []
unfolding get_key lookup exists_and_not_expired get is_timely is_apart times all
caches_agree_example = caches_agree redis (codes "app") calls [] [] (λ later k. refl) refl
