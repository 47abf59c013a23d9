-- ===== src/Queue/Transports/Keeping.antt =====
-- What the lists of internal/queues/queueRedis.go keep, in any interleaving of the nodes.
use pusher.Prelude.{
  ◌+◌, ◌≤◌, ◌≡◌, refl, sym, ap, ◌∙◌, Bool, true, false, Option, some, [], ◌∷◌, ◌++◌, arith, Text,
  contains, Bool-cases, Option-cases, inl, inr,
}
use mathlib.Core.List.{append_assoc}
use mathlib.Core.Path.{subst}
use pusher.Queue.{QueuedJobData}
use pusher.Queue.Transports.{
  RedisQueue, empty_lists, add_to_queue, pop_last, fetch, remove_event_from_queue, process_event,
  stop,
}
use pusher.Queue.Transports.Counting.{
  count, count-append, count-remove_one, count_of_contains, contains_of_count, backwards,
  pop_last-snoc, backwards-snoc,
}

-- What the nodes do, in any order: an event is added, fetched, or processed by the node that has it in
-- hand, or that node ends.
pub data ReachesRedis (encode : QueuedJobData → Option Text) (decode : Text → Option QueuedJobData)
    : RedisQueue → Type 0 where
  start : ReachesRedis encode decode empty_lists
  adds :
      {q : RedisQueue} (pushes : Bool) (job : QueuedJobData)
      → ReachesRedis encode decode q
      → ReachesRedis encode decode (add_to_queue encode pushes job q)
  fetches :
      {q q' : RedisQueue}
      → ReachesRedis encode decode q
      → fetch q ≡ some q'
      → ReachesRedis encode decode q'
  processes :
      {q : RedisQueue} (removes : Bool) (e : Text)
      → ReachesRedis encode decode q
      → contains q.in_hand e ≡ true
      → ReachesRedis encode decode (process_event decode removes e q).0
  stops :
      {q : RedisQueue} (e : Text)
      → ReachesRedis encode decode q
      → contains q.in_hand e ≡ true
      → ReachesRedis encode decode (stop e q)

some_inj : {q q' : RedisQueue} → some q ≡ some q' → q ≡ q'
some_inj h = cc

pub record Kept (q : RedisQueue) : Type 0 where
  pub all : (e : Text) → count e q.added ≡ count e q.queue + count e q.working + count e q.removed
  pub held : (e : Text) → count e q.working ≡ count e q.in_hand + count e q.left
  pub done : (e : Text) → count e q.removed ≤ count e q.processed
  pub order : q.fetched ++ backwards q.queue ≡ q.added

add_to_queue-Kept :
    (encode : QueuedJobData → Option Text) (pushes : Bool) (job : QueuedJobData) (q : RedisQueue)
    → Kept q
    → Kept (add_to_queue encode pushes job q)
unfolding add_to_queue backwards
add_to_queue-Kept encode pushes job q k = elim (Option-cases (encode job)) [
  | inl n ↦ rw (n, add_to_queue) k
  | inr (e, y) ↦ elim (Bool-cases pushes) [
    | inl p ↦
        rw (y, p, add_to_queue)
          (record {
            all = λ x. unfold count in omega (arith, k.all x, count-append x q.added (e ∷ []));
            held = k.held;
            done = k.done;
            order =
                sym (append_assoc q.fetched (backwards q.queue) (e ∷ []))
                ∙ ap (λ l. l ++ e ∷ []) k.order;
          })
    | inr p ↦ rw (y, p, add_to_queue) k
  ]
]

fetch-Kept : (q q' : RedisQueue) → Kept q → fetch q ≡ some q' → Kept q'
unfolding fetch backwards
fetch-Kept q q' k h = elim (Option-cases (pop_last q.queue)) [
  | inl n ↦ absurd (ground (arith, h, n))
  | inr ((rest, e), f) ↦
      let snoc = pop_last-snoc q.queue rest e f in
      let is : some (record q {
        queue = rest;
        working = e ∷ q.working;
        in_hand = e ∷ q.in_hand;
        fetched = q.fetched ++ e ∷ [];
      })
          ≡ some q' =
        sym (rw (f, fetch) refl) ∙ h in
      subst Kept (some_inj is) (record {
        all = λ x.
            unfold count in omega (arith, k.all x, ap (count x) snoc, count-append x rest (e ∷ []));
        held = λ x. unfold count in omega (arith, k.held x);
        done = k.done;
        order =
            append_assoc q.fetched (e ∷ []) (backwards rest)
            ∙ (ap (λ l. q.fetched ++ l) (sym (backwards-snoc rest e) ∙ ap backwards (sym snoc))
                ∙ k.order);
      })
]

process_event-Kept :
    (decode : Text → Option QueuedJobData) (removes : Bool) (e : Text) (q : RedisQueue)
    → contains q.in_hand e ≡ true
    → Kept q
    → Kept (process_event decode removes e q).0
unfolding process_event remove_event_from_queue
process_event-Kept decode true e q h k =
    let working_has : contains q.working e ≡ true =
      contains_of_count e q.working (omega (arith, k.held e, count_of_contains e q.in_hand h)) in
    record {
      all = λ x.
          unfold count in
          omega (
            arith,
            k.all x,
            count-remove_one e x q.working working_has,
            count-append x q.removed (e ∷ []),
          );
      held = λ x. omega (
        arith,
        k.held x,
        count-remove_one e x q.working working_has,
        count-remove_one e x q.in_hand h,
      );
      done = λ x.
          unfold count in
          omega (
            arith,
            k.done x,
            count-append x q.removed (e ∷ []),
            count-append x q.processed (e ∷ []),
          );
      order = k.order;
    }
process_event-Kept decode false e q h k = record {
  all = k.all;
  held = λ x. unfold count in omega (arith, k.held x, count-remove_one e x q.in_hand h);
  done = λ x. unfold count in omega (arith, k.done x, count-append x q.processed (e ∷ []));
  order = k.order;
}

stop-Kept : (e : Text) (q : RedisQueue) → contains q.in_hand e ≡ true → Kept q → Kept (stop e q)
unfolding stop
stop-Kept e q h k = record {
  all = k.all;
  held = λ x. unfold count in omega (arith, k.held x, count-remove_one e x q.in_hand h);
  done = k.done;
  order = k.order;
}

reached-Kept :
    (encode : QueuedJobData → Option Text) (decode : Text → Option QueuedJobData) (q : RedisQueue)
    → ReachesRedis encode decode q
    → Kept q
unfolding count backwards
reached-Kept encode decode q ReachesRedis.start = record {
  all = λ x. refl;
  held = λ x. refl;
  done = λ x. omega arith;
  order = refl;
}
reached-Kept encode decode q (ReachesRedis.adds {q = p} pushes job r) =
    add_to_queue-Kept encode pushes job p (reached-Kept encode decode p r)
reached-Kept encode decode q (ReachesRedis.fetches {q = p} r e) =
    fetch-Kept p q (reached-Kept encode decode p r) e
reached-Kept encode decode q (ReachesRedis.processes {q = p} removes e r h) =
    process_event-Kept decode removes e p h (reached-Kept encode decode p r)
reached-Kept encode decode q (ReachesRedis.stops {q = p} e r h) =
    stop-Kept e p h (reached-Kept encode decode p r)

-- No event is lost, whatever the nodes do and wherever they end: as often as an event was pushed, it is
-- still in the queue, or in the working list, or was removed; it is in the working list as often as
-- nodes have it in hand or have left it there when they ended or could not remove it; what was removed
-- was processed before; and events are fetched in the order in which they were pushed.
pub redis_queue_keeps :
    (encode : QueuedJobData → Option Text) (decode : Text → Option QueuedJobData) (q : RedisQueue)
    (e : Text)
    → ReachesRedis encode decode q
    → (count e q.added ≡ count e q.queue + count e q.working + count e q.removed)
      × (count e q.working ≡ count e q.in_hand + count e q.left)
      × (count e q.removed ≤ count e q.processed)
      × (q.fetched ++ backwards q.queue ≡ q.added)
redis_queue_keeps encode decode q e r =
    let k = reached-Kept encode decode q r in (k.all e, k.held e, k.done e, k.order)
