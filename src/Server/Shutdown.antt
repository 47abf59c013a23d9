-- ===== src/Server/Shutdown.antt =====
-- What the shutdown of internal/server.go does to the jobs in the channel of the local queue.
use pusher.Prelude.{
  ◌≡◌, refl, sym, ap, ◌∙◌, Bool, true, false, ◌&&◌, Option, none, some, List, ◌++◌, ltb, length, [],
  ◌∷◌, arith, Bool-cases, inl, inr,
}
use pusher.Queue.{QueuedJobData}
use pusher.Queue.Transports.{SyncQueue, capacity, add_to_channel, monitor_channel, is_drained}
use pusher.Server.{
  Closing, cancel, close_sockets, on_queue, add_job, monitor_job, stop_monitor, shutdown_queue,
}

-- the steps of the goroutines, in any order
pub data Step : Closing → Closing → Type 0 where
  cancels : {s : Closing} → Step s (cancel s)
  closes : {s : Closing} → Step s (close_sockets s)
  adds : {s t : Closing} (job : QueuedJobData) → add_job job s ≡ some t → Step s t
  monitors : {s t : Closing} → monitor_job s ≡ some t → Step s t
  stops : {s t : Closing} → stop_monitor s ≡ some t → Step s t
  shuts : {s t : Closing} → shutdown_queue s ≡ some t → Step s t

pub data Steps (s : Closing) : Closing → Type 0 where
  stay : Steps s s
  next : {t u : Closing} → Steps s t → Step t u → Steps s u

some_inj : {s t : Closing} → some s ≡ some t → s ≡ t
some_inj e = cc

on_queue-some :
    (s t : Closing) (o : Option SyncQueue)
    → on_queue s o ≡ some t
    → (o ≡ some t.queue) × (t.drained ≡ s.drained) × (t.monitoring ≡ s.monitoring)
on_queue-some s t none e = absurd (ground (arith, e))
on_queue-some s t (some q) e =
    let is : record s { queue = q } ≡ t = some_inj e in
    (
      ap (λ (c : Closing). some c.queue) is,
      sym (ap (λ (c : Closing). c.drained) is),
      sym (ap (λ (c : Closing). c.monitoring) is),
    )

add_job-some :
    (job : QueuedJobData) (s t : Closing)
    → add_job job s ≡ some t
    → (add_to_channel job s.queue ≡ some t.queue)
      × (t.drained ≡ s.drained)
      × (t.monitoring ≡ s.monitoring)
unfolding add_job
add_job-some job s t e = on_queue-some s t (add_to_channel job s.queue) e

monitor_job-some :
    (s t : Closing)
    → monitor_job s ≡ some t
    → (s.monitoring ≡ true) × (monitor_channel s.queue ≡ some t.queue)
unfolding monitor_job
monitor_job-some s t e = elim (Bool-cases s.monitoring) [
  | inl y ↦
      let is : on_queue s (monitor_channel s.queue) ≡ some t = ground (arith, e, y) in
      (y, (on_queue-some s t (monitor_channel s.queue) is).0)
  | inr n ↦ absurd (ground (arith, e, n))
]

stop_monitor-some :
    (s t : Closing)
    → stop_monitor s ≡ some t
    → (t.queue ≡ s.queue) × (t.drained ≡ s.drained) × (t.monitoring ≡ false)
unfolding stop_monitor
stop_monitor-some s t e = elim (Bool-cases (s.monitoring && s.cancelled)) [
  | inl y ↦
      let is : some (record s { monitoring = false }) ≡ some t = rw y at e in
      let same = some_inj is in
      (
        sym (ap (λ (c : Closing). c.queue) same),
        sym (ap (λ (c : Closing). c.drained) same),
        sym (ap (λ (c : Closing). c.monitoring) same),
      )
  | inr n ↦ absurd (ground (arith, e, n))
]

shutdown_queue-some :
    (s t : Closing)
    → shutdown_queue s ≡ some t
    → (s.sockets_closed ≡ true) × (is_drained s.queue ≡ true) × (t.queue ≡ s.queue)
unfolding shutdown_queue
shutdown_queue-some s t e = elim (Bool-cases (s.sockets_closed && is_drained s.queue)) [
  | inl y ↦
      let is : some (record s { drained = true }) ≡ some t = rw y at e in
      (ground (arith, y), ground (arith, y), sym (ap (λ (c : Closing). c.queue) (some_inj is)))
  | inr n ↦ absurd (ground (arith, e, n))
]

-- No job is taken any more, and the queue is not found empty.
pub record Stranded (s t : Closing) : Type 0 where
  pub sent : t.queue.sent ≡ s.queue.sent
  pub waiting : is_drained t.queue ≡ false
  pub stopped : t.monitoring ≡ false
  pub never_drained : t.drained ≡ s.drained
  pub no_shutdown : shutdown_queue t ≡ none

-- what stranding keeps
record IsStuck (q0 : SyncQueue) (d0 : Bool) (t : Closing) : Type 0 where
  sent : t.queue.sent ≡ q0.sent
  waiting : is_drained t.queue ≡ false
  stopped : t.monitoring ≡ false
  drained : t.drained ≡ d0

add_to_channel-waiting :
    (job : QueuedJobData) (q q' : SyncQueue)
    → add_to_channel job q ≡ some q'
    → is_drained q ≡ false
    → (q'.sent ≡ q.sent) × (is_drained q' ≡ false)
unfolding add_to_channel is_drained
add_to_channel-waiting job q q' e w = go q.incoming refl
  where
    go :
        (jobs : List QueuedJobData)
        → q.incoming ≡ jobs
        → (q'.sent ≡ q.sent) × (is_drained q' ≡ false)
    go [] f = absurd (ground (arith, f, w))
    go (j ∷ rest) f = elim (Bool-cases (ltb (length q.incoming) capacity)) [
      | inl y ↦
          let is : some
                (record q { incoming = q.incoming ++ job ∷ []; added = q.added ++ job ∷ [] })
              ≡ some q' =
            ground (arith, e, y) in
          (ground (arith, is), ground (arith, is, f))
      | inr n ↦ absurd (ground (arith, n, e))
    ]

same_queue :
    (q0 : SyncQueue) (d0 : Bool) (s t : Closing)
    → IsStuck q0 d0 s
    → t.queue ≡ s.queue
    → t.monitoring ≡ false
    → t.drained ≡ d0
    → IsStuck q0 d0 t
same_queue q0 d0 s t i e m d = record {
  sent = ap (λ (c : SyncQueue). c.sent) e ∙ i.sent;
  waiting = ap is_drained e ∙ i.waiting;
  stopped = m;
  drained = d;
}

step-IsStuck :
    (q0 : SyncQueue) (d0 : Bool) (s t : Closing) → IsStuck q0 d0 s → Step s t → IsStuck q0 d0 t
unfolding cancel close_sockets
step-IsStuck q0 d0 s t i Step.cancels = same_queue q0 d0 s (cancel s) i refl i.stopped i.drained
step-IsStuck q0 d0 s t i Step.closes =
    same_queue q0 d0 s (close_sockets s) i refl i.stopped i.drained
step-IsStuck q0 d0 s t i (Step.adds job e) =
    let (a, d, m) = add_job-some job s t e in
    let (same, w) = add_to_channel-waiting job s.queue t.queue a i.waiting in
    record { sent = same ∙ i.sent; waiting = w; stopped = m ∙ i.stopped; drained = d ∙ i.drained }
step-IsStuck q0 d0 s t i (Step.monitors e) =
    absurd (ground (arith, i.stopped, (monitor_job-some s t e).0))
step-IsStuck q0 d0 s t i (Step.stops e) =
    let (same, d, m) = stop_monitor-some s t e in same_queue q0 d0 s t i same m (d ∙ i.drained)
step-IsStuck q0 d0 s t i (Step.shuts e) =
    absurd (ground (arith, i.waiting, (shutdown_queue-some s t e).1))

Steps-IsStuck :
    (q0 : SyncQueue) (d0 : Bool) (s t : Closing) → IsStuck q0 d0 s → Steps s t → IsStuck q0 d0 t
Steps-IsStuck q0 d0 s t i Steps.stay = i
Steps-IsStuck q0 d0 s t i (Steps.next {t = u} steps step) =
    step-IsStuck q0 d0 u t (Steps-IsStuck q0 d0 s u i steps) step

-- Once monitorQueue has stopped while jobs wait in the channel, then whatever the other goroutines do, no
-- further job is ever sent, the channel is never found empty, and the queue's Shutdown never reports that
-- it is done.
pub stopped_monitor_strands :
    (s t : Closing) → s.monitoring ≡ false → is_drained s.queue ≡ false → Steps s t → Stranded s t
unfolding shutdown_queue
stopped_monitor_strands s t m w steps =
    let i =
      Steps-IsStuck s.queue s.drained s t
        (record { sent = refl; waiting = w; stopped = m; drained = refl }) steps in
    record {
      sent = i.sent;
      waiting = i.waiting;
      stopped = i.stopped;
      never_drained = i.drained;
      no_shutdown = ground (arith, i.waiting);
    }
