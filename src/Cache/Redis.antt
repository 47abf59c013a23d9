-- ===== src/Cache/Redis.antt =====
-- internal/cache/redisCache.go: the cache in Redis, with the same interface as the local one. Redis
-- itself is a parameter: a record of the commands that the cache calls, on a store of its own, and of what
-- the cache relies on. Calls that fail and negative times
-- to live are left out.
use pusher.Prelude.{
  ℕ, ◌+◌, ◌*◌, ◌≤◌, ◌<◌, ◌≡◌, Bool, Option, none, some, ◌++◌, if◌then◌else◌, is_some, Text, codes,
  ◌==◌,
}
use pusher.Cache.{second}

-- Redis counts a time to live in milliseconds, from when the command arrives, and the client rounds it to
-- them. So an entry goes at some moment near the end of its time: `tolerance` bounds by how much that is
-- off, in nanoseconds, and nothing is said about what GET gives within it. A time to live of 0 is none.
pub record Redis : Type 1 where
  pub Store : Type 0
  pub tolerance : ℕ
  pub get_command : ℕ → Store → Text → Option Text
  pub set_command : ℕ → Store → Text → Text → ℕ → Store
  pub del_command : Store → Text → Store
  pub exists_command : ℕ → Store → Text → Bool
  pub get-set :
      (now later : ℕ) (s : Store) (k j v : Text)
      → get_command later (set_command now s k v 0) j
        ≡ (if k == j then some v else get_command later s j)
  pub get-set_before :
      (now later ttl : ℕ) (s : Store) (k j v : Text)
      → later + tolerance < now + ttl
      → get_command later (set_command now s k v ttl) j
        ≡ (if k == j then some v else get_command later s j)
  pub get-set_after :
      (now later ttl : ℕ) (s : Store) (k j v : Text)
      → 0 < ttl
      → now + ttl + tolerance ≤ later
      → get_command later (set_command now s k v ttl) j
        ≡ (if k == j then none else get_command later s j)
  pub get-del :
      (later : ℕ) (s : Store) (k j : Text)
      → get_command later (del_command s k) j ≡ (if k == j then none else get_command later s j)
  pub exists-get :
      (now : ℕ) (s : Store) (k : Text) → exists_command now s k ≡ is_some (get_command now s k)

module _ (redis : Redis) (prefix : Text) where
  open redis use {Store, get_command, set_command, del_command, exists_command}

  -- getKey
  unfoldable pub get_key : Text → Text
  get_key key = prefix ++ (codes ":cache:" ++ key)

  unfoldable pub lookup : ℕ → Store → Text → Option Text
  lookup now s key = get_command now s (get_key key)

  unfoldable pub store : ℕ → Store → Text → Text → Store
  store now s key value = set_command now s (get_key key) value 0

  -- SetEx
  unfoldable pub store_ex : ℕ → Store → Text → Text → ℕ → Store
  store_ex now s key value ttl = set_command now s (get_key key) value ttl

  -- Delete
  unfoldable pub remove : Store → Text → Store
  remove s key = del_command s (get_key key)

  -- Remember, with the callback's value or error
  unfoldable pub remember : ℕ → Store → Text → ℕ → Option Text → Store × Option Text
  remember now s key ttl callback = elim (get_command now s (get_key key)) [
    | some value ↦ (s, some value)
    | none ↦ elim callback [
      | none ↦ (s, none)
      | some value ↦ (set_command now s (get_key key) value (ttl * second), some value)
    ]
  ]

  unfoldable pub has : ℕ → Store → Text → Bool
  has now s key = exists_command now s (get_key key)

  -- Update
  unfoldable pub replace : ℕ → Store → Text → Text → Store
  replace now s key value = elim (get_command now s (get_key key)) [
    | none ↦ s
    | some old ↦ set_command now s (get_key key) value 0
  ]
