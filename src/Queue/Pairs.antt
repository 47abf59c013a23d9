-- ===== src/Queue/Pairs.antt =====
-- Opposite webhook events of internal/queues/queueAbstract.go within the flap window.
use pusher.Prelude.{◌≡◌, refl, ap, ◌∙◌, Bool, true, none, some, List, arith, all, Text, get, ◌==◌}
use pusher.App.{App}
use pusher.FlapDetector.{
  EventType, connect, disconnect, opposite, cancelled, delay, Detector, Step, check_for_flapping,
  steps,
}
use pusher.FlapDetector.Silence.{count_jobs, count_armed, count_armed-append, spares, steps_silent}
use pusher.FlapDetector.Suppression.{flap_suppressed}
use pusher.Queue.{
  Job, WebhookEvent, named, channel_key, member_key, flap_route, send, send_member_added,
  send_member_removed, send_channel_occupied, send_channel_vacated, member_added, member_removed,
  channel_occupied, channel_vacated,
}

-- the two events of a member
abbrev added : Text → Text → WebhookEvent
added channel user = record (named member_added channel) { user_id = user }

abbrev removed : Text → Text → WebhookEvent
removed channel user = record (named member_removed channel) { user_id = user }

route-added :
    (app : App) (c u : Text) → flap_route app (added c u) ≡ some (connect, member_key app.id c u)
unfolding flap_route ◌==◌
route-added app c u = refl

route-removed :
    (app : App) (c u : Text)
    → flap_route app (removed c u) ≡ some (disconnect, member_key app.id c u)
unfolding flap_route ◌==◌
route-removed app c u = refl

route-occupied :
    (app : App) (c : Text)
    → flap_route app (named channel_occupied c) ≡ some (connect, channel_key app.id c)
unfolding flap_route ◌==◌
route-occupied app c = refl

route-vacated :
    (app : App) (c : Text)
    → flap_route app (named channel_vacated c) ≡ some (disconnect, channel_key app.id c)
unfolding flap_route ◌==◌
route-vacated app c = refl

send-routed :
    (app : App) (e : WebhookEvent) (t : EventType) (key : Text) (d : Detector Job)
    → app.webhooks_enabled ≡ true
    → d.enabled ≡ true
    → flap_route app e ≡ some (t, key)
    → send true app e d ≡ check_for_flapping key t (app, e) d
unfolding send
send-routed app e t key d hooks on r = ground (arith, hooks, on, r)

-- The flap detector stays on.
enabled-check :
    (key : Text) (t : EventType) (j : Job) (d : Detector Job)
    → d.enabled ≡ true
    → (check_for_flapping key t j d).enabled ≡ true
unfolding check_for_flapping delay
enabled-check key t j d on = ground (arith, on)

-- The app wants all four events, and the detector is on.
pub record Wanted (app : App) (d : Detector Job) : Type 0 where
  pub webhooks : app.webhooks_enabled ≡ true
  pub joins : app.has_member_added_webhooks ≡ true
  pub leaves : app.has_member_removed_webhooks ≡ true
  pub occupied : app.has_channel_occupied_webhooks ≡ true
  pub vacated : app.has_channel_vacated_webhooks ≡ true
  pub on : d.enabled ≡ true

module _ (p : Job → Bool) where
  -- two routed events on one key, opposite to one another
  pair :
      (app : App) (e f : WebhookEvent) (t : EventType) (key : Text) (d : Detector Job)
      (ss : List (Step Job))
      → app.webhooks_enabled ≡ true
      → d.enabled ≡ true
      → flap_route app e ≡ some (t, key)
      → flap_route app f ≡ some (opposite t, key)
      → get d.pending key ≡ none
      → count_armed p d.timers ≡ 0
      → all (spares p) ss ≡ true
      → count_jobs p (steps ss (send true app f (send true app e d))).dispatched
        ≡ count_jobs p d.dispatched
  pair app e f t key d ss hooks on re rf free none_waits spared =
      let d1 = check_for_flapping key t (app, e) d in
      let one : send true app e d ≡ d1 = send-routed app e t key d hooks on re in
      let two =
        send-routed app f (opposite t) key d1 hooks (enabled-check key t (app, e) d on) rf in
      let (same, timers, others) = flap_suppressed key t (app, e) (app, f) d on free in
      let is = ap (send true app f) one ∙ two in
      rw is (
        steps_silent p ss (check_for_flapping key (opposite t) (app, f) d1) spared (
          ap (count_armed p) timers
          ∙ omega (
            arith,
            none_waits,
            count_armed-append p d.timers
                (record { key = key; job = (app, e); status = cancelled }),
          ))
        ∙ ap (count_jobs p) same)

  -- For an app that wants these events: a member that comes and leaves, or leaves and comes back, and a
  -- channel that is occupied and vacated, with no timer going off in between, send no webhook, then or
  -- later, if nothing was pending for that member and that channel. For any test that no event that waits
  -- passes, whatever timers go off and whatever calls follow that bring no event of the test, as
  -- many events of the test are dispatched as before.
  pub pairs_suppressed :
      (app : App) (c u : Text) (d : Detector Job) (ss : List (Step Job))
      → Wanted app d
      → get d.pending (member_key app.id c u) ≡ none
      → get d.pending (channel_key app.id c) ≡ none
      → count_armed p d.timers ≡ 0
      → all (spares p) ss ≡ true
      → (count_jobs p
            (steps ss
              (send_member_removed true app c u (send_member_added true app c u d))).dispatched
          ≡ count_jobs p d.dispatched)
        × (count_jobs p
              (steps ss
                (send_member_added true app c u (send_member_removed true app c u d))).dispatched
            ≡ count_jobs p d.dispatched)
        × (count_jobs p
              (steps ss
                (send_channel_vacated true app c (send_channel_occupied true app c d))).dispatched
            ≡ count_jobs p d.dispatched)
  unfolding send_member_added send_member_removed send_channel_vacated send_channel_occupied
  pairs_suppressed app c u d ss w nm nc none_waits spared = (
    simp (w.joins, w.leaves)
        (pair app (added c u) (removed c u) connect (member_key app.id c u) d ss w.webhooks w.on
          (route-added app c u) (route-removed app c u) nm none_waits spared),
    simp (w.joins, w.leaves)
        (pair app (removed c u) (added c u) disconnect (member_key app.id c u) d ss w.webhooks w.on
          (route-removed app c u) (route-added app c u) nm none_waits spared),
    simp (w.occupied, w.vacated)
        (pair app (named channel_occupied c) (named channel_vacated c) connect
          (channel_key app.id c) d ss w.webhooks w.on (route-occupied app c) (route-vacated app c)
          nc none_waits spared),
  )
