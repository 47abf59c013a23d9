-- ===== src/Cache.antt =====
-- internal/cache/localCache.go: values with an optional time of expiry. `now` is what time.Now()
-- returns in the call, as a count of nanoseconds; the methods hold the mutex, so each is one step,
-- but Remember and Update, which take it twice: theirs is the run with no other call in between.
pub mod Laws
pub mod Redis
pub mod Calls
pub mod Agreement
use pusher.Prelude.{
  ℕ, ◌+◌, ◌*◌, Bool, true, false, Option, none, some, List, [], ◌∷◌, ◌++◌, if◌then◌else◌, ltb,
  is_some, Text, codes, Map, get, put, del, keys,
}

pub record Item : Type 0 where
  pub text : Text
  pub expire_at : Option ℕ

abbrev pub Cache : Type 0
Cache = Map Item

-- item.expireAt == nil || time.Now().Before(*item.expireAt)
unfoldable pub is_live : ℕ → Item → Bool
is_live now item = elim item.expire_at [ none ↦ true | some t ↦ ltb now t ]

unfoldable pub exists_and_not_expired : ℕ → Cache → Text → Option Item
exists_and_not_expired now c key = elim (get c key) [
  | none ↦ none
  | some item ↦ if is_live now item then some item else none
]

abbrev pub text_of : Option Item → Option Text
text_of none = none
text_of (some item) = some item.text

unfoldable pub lookup : ℕ → Cache → Text → Option Text
lookup now c key = text_of (exists_and_not_expired now c key)

unfoldable pub store : Cache → Text → Text → Cache
store c key value = put c key (record { text = value; expire_at = none })

-- SetEx
unfoldable pub store_ex : ℕ → Cache → Text → Text → ℕ → Cache
store_ex now c key value ttl = put c key (record { text = value; expire_at = some (now + ttl) })

-- Delete
unfoldable pub remove : Cache → Text → Cache
remove c key = if is_some (get c key) then del c key else c

abbrev pub second : ℕ
second = 1000000000

-- Remember: the callback gives a value or an error (`none`), and is called only on a miss
unfoldable pub remember : ℕ → Cache → Text → ℕ → Option Text → Cache × Option Text
remember now c key ttl callback = elim (exists_and_not_expired now c key) [
  | some item ↦ (c, some item.text)
  | none ↦ elim callback [
    | none ↦ (c, none)
    | some value ↦ (store_ex now c key value (ttl * second), some value)
  ]
]

unfoldable pub has : ℕ → Cache → Text → Bool
has now c key = is_some (exists_and_not_expired now c key)

-- Update
unfoldable pub replace : ℕ → Cache → Text → Text → Cache
replace now c key value = if has now c key then store c key value else c

-- one round of cleanupJob: what is past its time by `now` is deleted
abbrev pub is_past : ℕ → Item → Bool
is_past now item = elim item.expire_at [ none ↦ false | some t ↦ ltb t now ]

unfoldable pub sweep : ℕ → Cache → List Text → Cache
sweep now c [] = c
sweep now c (k ∷ ks) =
    let c' : Cache = elim (get c k) [
      | none ↦ c
      | some item ↦ if is_past now item then del c k else c
    ] in
    sweep now c' ks

unfoldable pub cleanup : ℕ → Cache → Cache
cleanup now c = sweep now c (keys c)

-- GetChannelCacheKey of internal/cache/cache.go
unfoldable pub channel_cache_key : Text → Text → Text
channel_cache_key app channel = codes "app#" ++ (app ++ (codes "#channel#" ++ channel))
