-- ===== src/Queue/Transports/Order.antt =====
-- The channel of internal/queues/queueSync.go hands jobs on in their order.
use pusher.Prelude.{
  ◌≤◌, ◌≡◌, ◌⊎◌, refl, sym, ap, ◌∙◌, false, some, List, [], ◌∷◌, ◌++◌, arith, ltb, length,
  length-append, Bool-cases, inl, inr,
}
use mathlib.Core.List.{append_assoc, append-nil}
use mathlib.Core.Path.{subst}
use pusher.Queue.{QueuedJobData}
use pusher.Queue.Transports.{
  SyncQueue, capacity, empty_channel, add_to_channel, monitor_channel, is_drained,
}

-- calls of addToQueue and rounds of monitorQueue, in any order
pub data ReachesSync : SyncQueue → Type 0 where
  start : ReachesSync empty_channel
  adds :
      {q q' : SyncQueue} (job : QueuedJobData)
      → ReachesSync q
      → add_to_channel job q ≡ some q'
      → ReachesSync q'
  takes : {q q' : SyncQueue} → ReachesSync q → monitor_channel q ≡ some q' → ReachesSync q'

some_inj : {q q' : SyncQueue} → some q ≡ some q' → q ≡ q'
some_inj h = cc

pub record InOrder (q : SyncQueue) : Type 0 where
  pub order : q.sent ++ q.incoming ≡ q.added
  pub bound : length q.incoming ≤ capacity

add_to_channel-InOrder :
    (job : QueuedJobData) (q q' : SyncQueue)
    → InOrder q
    → add_to_channel job q ≡ some q'
    → InOrder q'
unfolding add_to_channel
add_to_channel-InOrder job q q' i e = elim (Bool-cases (ltb (length q.incoming) capacity)) [
  | inl y ↦
      let is : some (record q { incoming = q.incoming ++ job ∷ []; added = q.added ++ job ∷ [] })
          ≡ some q' =
        rw y at e in
      subst InOrder (some_inj is) (record {
        order = sym (append_assoc q.sent q.incoming (job ∷ [])) ∙ ap (λ x. x ++ job ∷ []) i.order;
        bound = ground (arith, y, length-append q.incoming (job ∷ []));
      })
  | inr n ↦ absurd (ground (arith, n, e))
]

monitor_channel-InOrder : (q q' : SyncQueue) → InOrder q → monitor_channel q ≡ some q' → InOrder q'
unfolding monitor_channel
monitor_channel-InOrder q q' i e = go q.incoming refl
  where
    go : (jobs : List QueuedJobData) → q.incoming ≡ jobs → InOrder q'
    go [] f = absurd (ground (arith, e, f))
    go (job ∷ rest) f =
        let is : some (record q { incoming = rest; sent = q.sent ++ job ∷ [] }) ≡ some q' =
          sym (rw (f, monitor_channel) refl) ∙ e in
        subst InOrder (some_inj is) (record {
          order = append_assoc q.sent (job ∷ []) rest ∙ (ap (λ x. q.sent ++ x) (sym f) ∙ i.order);
          bound = omega (arith, i.bound, ap length f);
        })

reached-InOrder : (q : SyncQueue) → ReachesSync q → InOrder q
reached-InOrder q ReachesSync.start = record { order = refl; bound = omega arith }
reached-InOrder q (ReachesSync.adds {q = p} job r e) =
    add_to_channel-InOrder job p q (reached-InOrder p r) e
reached-InOrder q (ReachesSync.takes {q = p} r e) =
    monitor_channel-InOrder p q (reached-InOrder p r) e

-- However the calls that add a job and the rounds that take one are mixed, the channel never has more
-- than 100 jobs, and what went to the sender, followed by what still waits, is exactly what was added, in
-- that order; when Shutdown finds the channel empty, every job has been taken for the sender.
pub sync_queue_in_order :
    (q : SyncQueue)
    → ReachesSync q
    → (length q.incoming ≤ capacity)
      × (q.sent ++ q.incoming ≡ q.added)
      × ((is_drained q ≡ false) ⊎ (q.sent ≡ q.added))
sync_queue_in_order q r =
    let i = reached-InOrder q r in (i.bound, i.order, drained q.incoming refl i.order)
  where
    drained :
        (jobs : List QueuedJobData)
        → q.incoming ≡ jobs
        → q.sent ++ q.incoming ≡ q.added
        → (is_drained q ≡ false) ⊎ (q.sent ≡ q.added)
    drained [] f o = inr (sym (ap (λ x. q.sent ++ x) f ∙ append-nil q.sent) ∙ o)
    drained (job ∷ rest) f o = inl (unfold is_drained in rw (f, is_drained) refl)
