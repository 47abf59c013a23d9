-- ===== src/Cache/Agreement.antt =====
-- The two caches of internal/cache, the local one and the one in Redis, give the same answers.
use pusher.Prelude.{
  ℕ, ◌+◌, ◌*◌, ◌<◌, ◌≡◌, refl, true, ltb, all, Occurs, if◌then◌else◌, sym, ap, ◌∙◌, Bool, Option,
  none, some, List, [], ◌∷◌, arith, is_some, Text, codes, ◌==◌, eq_iff, append_cancel_left,
  Bool-cases, Option-cases, inl, inr,
}
use pusher.Cache
use pusher.Cache.{Cache, second, exists_and_not_expired}
use pusher.Cache.Laws.{lookup-writes, replace_lem, remember_lem}
use pusher.Cache.Redis
use pusher.Cache.Redis.{Redis, get_key}
use pusher.Cache.Calls.{
  CacheCall, reads, checks, sets, sets_ex, deletes, remembers, updates, CacheAnswer, value, found,
  nothing, positive, call_local, expiry, is_apart, times, is_timely, answers_local,
}

all_at : (p : ℕ → Bool) (ts : List ℕ) (t : ℕ) → all p ts ≡ true → Occurs t ts → p t ≡ true
unfolding all
all_at p [] t h o = elim o [ ]
all_at p (x ∷ ts) t h (inl e) = ground (arith, h, e)
all_at p (x ∷ ts) t h (inr o) = all_at p ts t (ground (arith, h)) o

has-lookup : (now : ℕ) (c : Cache) (k : Text) → Cache.has now c k ≡ is_some (Cache.lookup now c k)
unfolding Cache.has Cache.lookup
has-lookup now c k = elim (Option-cases (exists_and_not_expired now c k)) [
  | inl e ↦ rw e refl
  | inr (i, e) ↦ rw e refl
]

module _ (redis : Redis) (prefix : Text) where
  open redis use {
    Store, tolerance, get_command, set_command, get-set, get-set_before, get-set_after, get-del,
    exists-get,
  }

  unfoldable pub call_redis : ℕ → CacheCall → Store → Store × CacheAnswer
  call_redis now (reads k) s = (s, value (Redis.lookup redis prefix now s k))
  call_redis now (checks k) s = (s, found (Redis.has redis prefix now s k))
  call_redis now (sets k v) s = (Redis.store redis prefix now s k v, nothing)
  call_redis now (sets_ex k v n) s = (Redis.store_ex redis prefix now s k v (positive n), nothing)
  call_redis now (deletes k) s = (Redis.remove redis prefix s k, nothing)
  call_redis now (remembers k n callback) s =
      let (s', v) = Redis.remember redis prefix now s k (positive n) callback in (s', value v)
  call_redis now (updates k v) s = (Redis.replace redis prefix now s k v, nothing)

  -- the same live entry at a time
  abbrev pub Same : ℕ → Text → Cache → Store → Type 0
  Same later key c s = Cache.lookup later c key ≡ get_command later s (get_key redis prefix key)

  same_key : (k j : Text) → (get_key redis prefix k == get_key redis prefix j) ≡ (k == j)
  unfolding get_key
  same_key k j = elim (Bool-cases (k == j)) [
    | inl y ↦ (eq_iff _ _).1 (ap (get_key redis prefix) ((eq_iff k j).0 y)) ∙ sym y
    | inr n ↦ elim (Bool-cases (get_key redis prefix k == get_key redis prefix j)) [
      | inl z ↦
          let e =
            append_cancel_left (codes ":cache:") k j
              (append_cancel_left prefix _ _ ((eq_iff _ _).0 z)) in
          z ∙ sym ((eq_iff k j).1 e)
      | inr z ↦ z ∙ sym n
    ]
  ]

  -- what a time to live gives, at a time that is not near its end
  set_expiring :
      (now later ttl : ℕ) (s : Store) (k j v : Text)
      → 0 < ttl
      → is_apart tolerance (some (now + ttl)) later ≡ true
      → get_command later
          (set_command now s (get_key redis prefix k) v ttl)
          (get_key redis prefix j)
        ≡ (if k == j
            then (if ltb later (now + ttl) then some v else none)
            else get_command later s (get_key redis prefix j))
  unfolding is_apart
  set_expiring now later ttl s k j v positive_ apart =
      elim (Bool-cases (ltb (later + tolerance) (now + ttl))) [
        | inl y ↦
            let law =
              get-set_before now later ttl s (get_key redis prefix k) (get_key redis prefix j) v
                (ground (arith, y)) in
            ground (arith, law, same_key k j, y)
        | inr n ↦
            let law =
              get-set_after now later ttl s (get_key redis prefix k) (get_key redis prefix j) v
                positive_ (ground (arith, apart, n)) in
            ground (arith, law, same_key k j, apart, n)
      ]

  set_forever :
      (now later : ℕ) (s : Store) (k j v : Text)
      → get_command later (set_command now s (get_key redis prefix k) v 0) (get_key redis prefix j)
        ≡ (if k == j then some v else get_command later s (get_key redis prefix j))
  set_forever now later s k j v =
      ground (
        arith,
        get-set now later s (get_key redis prefix k) (get_key redis prefix j) v,
        same_key k j,
      )

  replace-Same :
      (now later : ℕ) (k v j : Text) (c : Cache) (s : Store)
      → Same now k c s
      → Same later j c s
      → Same later j (Cache.replace now c k v) (Redis.replace redis prefix now s k v)
  unfolding Redis.replace
  replace-Same now later k v j c s at_now at_later =
      elim (Option-cases (get_command now s (get_key redis prefix k))) [
        | inl e ↦
            rw (e, Redis.replace)
              (ground (arith, replace_lem now later c k v j, at_now, e, at_later))
        | inr (old, e) ↦
            rw (e, Redis.replace)
              (ground (
                arith,
                replace_lem now later c k v j,
                at_now,
                e,
                at_later,
                set_forever now later s k j v,
              ))
      ]

  remember-answer :
      (now : ℕ) (k : Text) (n : ℕ) (callback : Option Text) (c : Cache) (s : Store)
      → Same now k c s
      → (Cache.remember now c k (positive n) callback).1
        ≡ (Redis.remember redis prefix now s k (positive n) callback).1
  unfolding Redis.remember
  remember-answer now k n callback c s at_now =
      let law = (remember_lem now now c k k (positive n) callback).0 in
      elim (Option-cases (get_command now s (get_key redis prefix k))) [
        | inr (old, e) ↦ law ∙ rw (Redis.remember, at_now, e) refl
        | inl e ↦ elim (Option-cases callback) [
          | inl f ↦ law ∙ rw (Redis.remember, at_now, e, f) refl
          | inr (v, f) ↦ law ∙ rw (Redis.remember, at_now, e, f) refl
        ]
      ]

  remember-Same :
      (now later : ℕ) (k j : Text) (n : ℕ) (callback : Option Text) (c : Cache) (s : Store)
      → Same now k c s
      → Same later j c s
      → is_apart tolerance (some (now + positive n * second)) later ≡ true
      → Same later j
          (Cache.remember now c k (positive n) callback).0
          (Redis.remember redis prefix now s k (positive n) callback).0
  unfolding Redis.remember
  remember-Same now later k j n callback c s at_now at_later apart =
      elim (Option-cases (get_command now s (get_key redis prefix k))) [
        | inr (old, e) ↦
            rw (Redis.remember, e)
              (ground (
                arith,
                (remember_lem now later c k j (positive n) callback).1,
                at_now,
                e,
                at_later,
              ))
        | inl e ↦ missed callback e
      ]
    where
      missed :
          (callback : Option Text)
          → get_command now s (get_key redis prefix k) ≡ none
          → Same later j
              (Cache.remember now c k (positive n) callback).0
              (Redis.remember redis prefix now s k (positive n) callback).0
      missed none e =
          rw (Redis.remember, e)
            (ground (arith, (remember_lem now later c k j (positive n) none).1, at_later))
      missed (some v) e =
          rw (Redis.remember, e)
            (ground (
              arith,
              (remember_lem now later c k j (positive n) (some v)).1,
              at_now,
              e,
              at_later,
              set_expiring now later (positive n * second) s k j v (omega arith) apart,
            ))

  -- the answers to one call
  call-answer :
      (now : ℕ) (call : CacheCall) (c : Cache) (s : Store)
      → ((key : Text) → Same now key c s)
      → (call_local now call c).1 ≡ (call_redis now call s).1
  unfolding call_local call_redis Redis.lookup Redis.has
  call-answer now (reads k) c s at_now = ap value (at_now k)
  call-answer now (checks k) c s at_now =
      ap found (has-lookup now c k ∙ (ap is_some (at_now k) ∙ sym (exists-get now s _)))
  call-answer now (sets k v) c s at_now = refl
  call-answer now (sets_ex k v n) c s at_now = refl
  call-answer now (deletes k) c s at_now = refl
  call-answer now (remembers k n callback) c s at_now =
      ap value (remember-answer now k n callback c s (at_now k))
  call-answer now (updates k v) c s at_now = refl

  -- what is seen of a call at a time that is not near the end of its time to live
  call-Same :
      (now later : ℕ) (j : Text) (call : CacheCall) (c : Cache) (s : Store)
      → ((key : Text) → Same now key c s)
      → Same later j c s
      → is_apart tolerance (expiry now call) later ≡ true
      → Same later j (call_local now call c).0 (call_redis now call s).0
  unfolding call_local call_redis Redis.store Redis.store_ex Redis.remove
  call-Same now later j (reads k) c s at_now at_later apart = at_later
  call-Same now later j (checks k) c s at_now at_later apart = at_later
  call-Same now later j (sets k v) c s at_now at_later apart =
      ground (arith, (lookup-writes c k j v now 0 later).0, set_forever now later s k j v, at_later)
  call-Same now later j (sets_ex k v n) c s at_now at_later apart = ground (
    arith,
    (lookup-writes c k j v now (positive n) later).1,
    set_expiring now later (positive n) s k j v (omega arith) apart,
    at_later,
  )
  call-Same now later j (deletes k) c s at_now at_later apart = ground (
    arith,
    (lookup-writes c k j [] now 0 later).2,
    get-del later s (get_key redis prefix k) (get_key redis prefix j),
    at_later,
    same_key k j,
  )
  call-Same now later j (remembers k n callback) c s at_now at_later apart =
      remember-Same now later k j n callback c s (at_now k) at_later apart
  call-Same now later j (updates k v) c s at_now at_later apart =
      replace-Same now later k v j c s (at_now k) at_later

  unfoldable pub answers_redis : List (ℕ × CacheCall) → Store → List CacheAnswer
  answers_redis [] s = []
  answers_redis ((now, call) ∷ calls) s =
      let (s', answer) = call_redis now call s in answer ∷ answers_redis calls s'

  -- the same where the two need not agree but at the times of the calls
  agree_at :
      (calls : List (ℕ × CacheCall)) (c : Cache) (s : Store)
      → ((later : ℕ) (key : Text) → Occurs later (times calls) → Same later key c s)
      → is_timely tolerance calls ≡ true
      → answers_redis calls s ≡ answers_local calls c
  unfolding answers_local answers_redis is_timely times
  agree_at [] c s same timely = refl
  agree_at ((now, call) ∷ calls) c s same timely =
      let at_now : (key : Text) → Same now key c s = λ key. same now key (inl refl) in
      let next : (later : ℕ) (key : Text)
          → Occurs later (times calls)
          → Same later key (call_local now call c).0 (call_redis now call s).0 =
        λ later key o. call-Same now later key call c s at_now (same later key (inr o)) (
          all_at (is_apart tolerance (expiry now call)) (times calls) later (ground (arith, timely))
            o) in
      ap (λ a. a ∷ answers_redis calls (call_redis now call s).0)
        (sym (call-answer now call c s at_now))
      ∙ ap (λ r. (call_local now call c).1 ∷ r) (agree_at calls _ _ next (ground (arith, timely)))

  -- A cache in Redis answers a sequence of calls as the local cache does, if they start with the same live
  -- entries, no time to live is 0, and no call comes so near to the end of a time to live that an earlier
  -- call may have set that Redis may be off. It relies on Redis only for what GET and EXISTS give after
  -- SET and DEL, outside of that tolerance.
  pub caches_agree :
      (calls : List (ℕ × CacheCall)) (c : Cache) (s : Store)
      → ((later : ℕ) (key : Text) → Same later key c s)
      → is_timely tolerance calls ≡ true
      → answers_redis calls s ≡ answers_local calls c
  caches_agree calls c s same timely = agree_at calls c s (λ later key o. same later key) timely
