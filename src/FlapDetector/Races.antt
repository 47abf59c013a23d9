-- ===== src/FlapDetector/Races.antt =====
-- An interleaving of internal/queues/flapDetector.go that its mutex does not exclude.
use pusher.Prelude.{
  ℕ, ◌≡◌, true, none, some, List, [], ◌∷◌, ◌++◌, arith, get_elem?, modify, eq_refl, get, get-del,
  zero, suc,
}
use pusher.FlapDetector.{
  EventType, opposite, armed, firing, Timer, Detector, delay, check_for_flapping, expire, finish,
  set_status,
}

get_elem?-modify :
    {A : Type 0} (f : A → A) (xs : List A) (i : ℕ) (x : A)
    → get_elem? xs i ≡ some x
    → get_elem? (modify xs i f) i ≡ some (f x)
get_elem?-modify f [] i x e = cc
get_elem?-modify f (y ∷ xs) zero x e = ground arith
get_elem?-modify f (y ∷ xs) (suc i) x e = get_elem?-modify f xs i x e

-- When a timer goes off and ends, the pending entry of its key is gone, whichever timer that entry
-- named: a second event of the same type, still waiting, can then no longer be cancelled, and an
-- opposite event gets a timer of its own.
pub stale_timer_forgets :
    {A : Type 0} (d : Detector A) (i j : ℕ) (event : EventType) (job : A) (t : Timer A)
    → d.enabled ≡ true
    → get_elem? d.timers i ≡ some t
    → t.status ≡ armed
    → get d.pending t.key ≡ some (record { event_type = event; timer = j })
    → (get (finish i (expire i d)).pending t.key ≡ none)
      × ((check_for_flapping t.key (opposite event) job (finish i (expire i d))).timers
          ≡ (finish i (expire i d)).timers
            ++ record { key = t.key; job = job; status = armed } ∷ [])
unfolding expire finish check_for_flapping delay
stale_timer_forgets d i j event job t on at waits held = (
  ground (
    arith,
    get_elem?-modify (set_status firing) d.timers i t,
    get-del d.pending t.key t.key,
    eq_refl t.key,
  ),
  ground (
    arith,
    get_elem?-modify (set_status firing) d.timers i t,
    get-del d.pending t.key t.key,
    eq_refl t.key,
  ),
)
