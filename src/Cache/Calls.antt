-- ===== src/Cache/Calls.antt =====
-- The calls of the interface in internal/cache/cache.go, and the answers of the local cache to a sequence of
-- them.
use pusher.Prelude.{
  ℕ, ◌+◌, ◌*◌, true, ◌&&◌, ◌||◌, leb, ltb, all, Bool, Option, none, some, List, [], ◌∷◌, Text,
}
use pusher.Cache
use pusher.Cache.{Cache, second, exists_and_not_expired}

-- the calls of the interface CacheContract, at a time; a time to live is positive
pub data CacheCall : Type 0 where
  reads : Text → CacheCall
  checks : Text → CacheCall
  sets : Text → Text → CacheCall
  sets_ex : Text → Text → ℕ → CacheCall
  deletes : Text → CacheCall
  remembers : Text → ℕ → Option Text → CacheCall
  updates : Text → Text → CacheCall

-- what a call returns
pub data CacheAnswer : Type 0 where
  value : Option Text → CacheAnswer
  found : Bool → CacheAnswer
  nothing : CacheAnswer

-- a time to live that is not 0
abbrev pub positive : ℕ → ℕ
positive n = n + 1

unfoldable pub call_local : ℕ → CacheCall → Cache → Cache × CacheAnswer
call_local now (reads k) c = (c, value (Cache.lookup now c k))
call_local now (checks k) c = (c, found (Cache.has now c k))
call_local now (sets k v) c = (Cache.store c k v, nothing)
call_local now (sets_ex k v n) c = (Cache.store_ex now c k v (positive n), nothing)
call_local now (deletes k) c = (Cache.remove c k, nothing)
call_local now (remembers k n callback) c =
    let (c', v) = Cache.remember now c k (positive n) callback in (c', value v)
call_local now (updates k v) c = (Cache.replace now c k v, nothing)

-- the end of the time to live that a call may set
abbrev pub expiry : ℕ → CacheCall → Option ℕ
expiry now (reads k) = none
expiry now (checks k) = none
expiry now (sets k v) = none
expiry now (sets_ex k v n) = some (now + positive n)
expiry now (deletes k) = none
expiry now (remembers k n callback) = some (now + positive n * second)
expiry now (updates k v) = none

-- the time is not within the tolerance of that end
unfoldable pub is_apart : ℕ → Option ℕ → ℕ → Bool
is_apart tolerance none later = true
is_apart tolerance (some end_) later = ltb (later + tolerance) end_ || leb (end_ + tolerance) later

unfoldable pub times : List (ℕ × CacheCall) → List ℕ
times [] = []
times ((now, call) ∷ calls) = now ∷ times calls

-- no call comes within the tolerance of the end of a time to live that a call before it may have set
unfoldable pub is_timely : ℕ → List (ℕ × CacheCall) → Bool
is_timely tolerance [] = true
is_timely tolerance ((now, call) ∷ calls) =
    all (is_apart tolerance (expiry now call)) (times calls) && is_timely tolerance calls

-- the answers to a sequence of calls, each at its time
unfoldable pub answers_local : List (ℕ × CacheCall) → Cache → List CacheAnswer
answers_local [] c = []
answers_local ((now, call) ∷ calls) c =
    let (c', answer) = call_local now call c in answer ∷ answers_local calls c'
