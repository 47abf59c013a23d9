-- ===== src/Cache/Laws.antt =====
-- The contract of the cache (internal/cache/cache.go) for the local implementation.
use pusher.Prelude.{
  ◌&&◌, not, is_some, ℕ, ◌+◌, ◌*◌, ◌≤◌, ◌≡◌, refl, true, inl, inr, Option, none, some, List, [],
  ◌∷◌, ◌++◌, if◌then◌else◌, arith, ltb, Text, codes, ◌==◌, eq_iff, get, put, del, keys, get-put,
  get-del, contains, Option-cases, lacks, split_at_separator, append_cancel_left,
}
use pusher.Cache.{
  Item, Cache, is_live, is_past, exists_and_not_expired, lookup, store, store_ex, remove, second,
  remember, has, replace, sweep, cleanup, channel_cache_key,
}

-- what a lookup makes of an entry
abbrev seen : ℕ → Option Item → Option Text
seen now none = none
seen now (some item) = if is_live now item then some item.text else none

lookup-seen : (now : ℕ) (c : Cache) (k : Text) → lookup now c k ≡ seen now (get c k)
unfolding lookup exists_and_not_expired
lookup-seen now c k = ground arith

lookup-put :
    (c : Cache) (k : Text) (item : Item) (j : Text) (later : ℕ)
    → lookup later (put c k item) j
      ≡ (if k == j then (if is_live later item then some item.text else none) else lookup later c j)
lookup-put c k item j later =
    ground (arith, lookup-seen later c j, get-put c k item j, lookup-seen later (put c k item) j)

-- A lookup at any time after a write of the same key sees the value, for Set for ever, for SetEx
-- strictly before its time of expiry and not from then on; after Delete it misses; and no write is
-- seen under another key.
pub lookup-writes :
    (c : Cache) (k j v : Text) (now ttl later : ℕ)
    → (lookup later (store c k v) j ≡ (if k == j then some v else lookup later c j))
      × (lookup later (store_ex now c k v ttl) j
          ≡ (if k == j then (if ltb later (now + ttl) then some v else none) else lookup later c j))
      × (lookup later (remove c k) j ≡ (if k == j then none else lookup later c j))
unfolding store store_ex remove is_live
lookup-writes c k j v now ttl later = (
  lookup-put c k (record { text = v; expire_at = none }) j later,
  lookup-put c k (record { text = v; expire_at = some (now + ttl) }) j later,
  ground (arith, lookup-seen later c j, get-del c k j, lookup-seen later (del c k) j, eq_iff k j),
)

-- what a sweep makes of an entry
abbrev swept : ℕ → Option Item → Option Item
swept now none = none
swept now (some item) = if is_past now item then none else some item

get-sweep :
    (now : ℕ) (c : Cache) (ks : List Text) (j : Text)
    → get (sweep now c ks) j ≡ (if contains ks j then swept now (get c j) else get c j)
unfolding sweep contains
get-sweep now c [] j = refl
get-sweep now c (k ∷ ks) j = elim (Option-cases (get c k)) [
  | inl e ↦ ground (arith, e, eq_iff k j, get-sweep now c ks j)
  | inr (item, e) ↦
      ground
        (arith, e, eq_iff k j, get-sweep now c ks j, get-sweep now (del c k) ks j, get-del c k j)
]

-- A round of the cleanup job, at any time, changes no lookup from then on: it deletes only what has
-- expired.
pub cleanup_invisible :
    (now later : ℕ) (c : Cache) (k : Text)
    → now ≤ later
    → lookup later (cleanup now c) k ≡ lookup later c k
unfolding cleanup is_live
cleanup_invisible now later c k h = elim (Option-cases (get c k)) [
  | inl e ↦ ground (
    arith,
    e,
    lookup-seen later c k,
    lookup-seen later (cleanup now c) k,
    get-sweep now c (keys c) k,
  )
  | inr (item, e) ↦ ground (
    arith,
    e,
    lookup-seen later c k,
    lookup-seen later (cleanup now c) k,
    get-sweep now c (keys c) k,
  )
]

lookup-hit :
    (now : ℕ) (c : Cache) (k : Text) (i : Item)
    → exists_and_not_expired now c k ≡ some i
    → lookup now c k ≡ some i.text
unfolding lookup
lookup-hit now c k i e = ground (arith, e)

lookup-miss :
    (now : ℕ) (c : Cache) (k : Text) → exists_and_not_expired now c k ≡ none → lookup now c k ≡ none
unfolding lookup
lookup-miss now c k e = ground (arith, e)

-- what a lookup makes of a value with a time of expiry
abbrev pub until : ℕ → ℕ → Option Text → Option Text
until later expiry none = none
until later expiry (some v) = if ltb later expiry then some v else none

-- Update of a live key puts the value there for ever, also if the old one was to expire; Update of a
-- key that is not there, or has expired, has no effect on any lookup, nor has Update on another key.
pub replace_lem :
    (now later : ℕ) (c : Cache) (k v j : Text)
    → lookup later (replace now c k v) j
      ≡ (if k == j && is_some (lookup now c k) then some v else lookup later c j)
unfolding replace has store is_live
replace_lem now later c k v j =
    let item : Item = record { text = v; expire_at = none } in
    elim (Option-cases (exists_and_not_expired now c k)) [
      | inl e ↦ ground (arith, e, lookup-miss now c k e)
      | inr (i, e) ↦ ground (arith, e, lookup-hit now c k i e, lookup-put c k item j later)
    ]

-- Remember returns the cached value of a live key, and otherwise what the callback gives; on a live key
-- and where the callback gives an error no lookup changes, and otherwise the value is seen under that
-- key, and no other, for `ttl` seconds.
pub remember_lem :
    (now later : ℕ) (c : Cache) (k j : Text) (ttl : ℕ) (callback : Option Text)
    → ((remember now c k ttl callback).1
        ≡ (if is_some (lookup now c k) then lookup now c k else callback))
      × (lookup later (remember now c k ttl callback).0 j ≡ (
          if k == j && not (is_some (lookup now c k)) && is_some callback
          then until later (now + ttl * second) callback
          else lookup later c j))
unfolding remember store_ex is_live
remember_lem now later c k j ttl none = elim (Option-cases (exists_and_not_expired now c k)) [
  | inl e ↦ ground (arith, e, lookup-miss now c k e)
  | inr (i, e) ↦ ground (arith, e, lookup-hit now c k i e)
]
remember_lem now later c k j ttl (some v) =
    let item : Item = record { text = v; expire_at = some (now + ttl * second) } in
    elim (Option-cases (exists_and_not_expired now c k)) [
      | inl e ↦ ground (arith, e, lookup-miss now c k e, lookup-put c k item j later)
      | inr (i, e) ↦ ground (arith, e, lookup-hit now c k i e)
    ]

-- For app ids without `#` (they are digits) no two channels share a cache key.
pub channel_cache_key_injective :
    (a b c d : Text)
    → lacks b'#' a ≡ true
    → lacks b'#' b ≡ true
    → channel_cache_key a c ≡ channel_cache_key b d
    → (a ≡ b) × (c ≡ d)
unfolding channel_cache_key
channel_cache_key_injective a b c d la lb e =
    let (p, q) =
      split_at_separator b'#' a b (codes "channel#" ++ c) (codes "channel#" ++ d) la lb
        (append_cancel_left (codes "app#") _ _ e) in
    (p, append_cancel_left (codes "channel#") c d q)
