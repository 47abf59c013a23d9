-- ===== src/Queue/Filters.antt =====
-- prepareQueuedMessages of internal/queues/queueAbstract.go against its filter.
use pusher.Prelude.{◌≡◌, refl, true, ◌⊎◌, inl, inr, ◌↔◌, List, [], ◌∷◌, Occurs, Bool-cases, ap}
use mathlib.Core.Path.{subst}
use pusher.App.{App, Webhook}
use pusher.Queue.{
  WebhookEvent, QueuedJobData, matches_filter, prepare_each, prepare_queued_messages,
}

abbrev pub job_for : App → WebhookEvent → Webhook → QueuedJobData
job_for app e w = record {
  webhook = w;
  payload = e;
  app_id = app.id;
  app_key = app.key;
  app_secret = app.secret;
}

prepare_each_sound :
    (app : App) (e : WebhookEvent) (ws : List Webhook) (j : QueuedJobData)
    → Occurs j (prepare_each app e ws)
    → (w : Webhook) × Occurs w ws × (matches_filter w e.channel ≡ true) × (job_for app e w ≡ j)
unfolding prepare_each
prepare_each_sound app e [] j o = elim o [ ]
prepare_each_sound app e (w ∷ ws) j o = elim (Bool-cases (matches_filter w e.channel)) [
  | inl fits ↦ pick fits (prepare_each_sound app e ws j) (rw (fits, Occurs) at o)
  | inr skips ↦ later (prepare_each_sound app e ws j (rw (skips, Occurs) at o))
]
  where
    Goal : Type 0
    Goal =
        (x : Webhook) × ((w ≡ x) ⊎ Occurs x ws)
        × (matches_filter x e.channel ≡ true)
        × (job_for app e x ≡ j)

    later :
        (x : Webhook) × Occurs x ws × (matches_filter x e.channel ≡ true) × (job_for app e x ≡ j)
        → Goal
    later r = (r.0, inr r.1, r.2, r.3)

    pick :
        matches_filter w e.channel ≡ true
        → (Occurs j (prepare_each app e ws)
            → (x : Webhook) × Occurs x ws
              × (matches_filter x e.channel ≡ true)
              × (job_for app e x ≡ j))
        → (job_for app e w ≡ j) ⊎ Occurs j (prepare_each app e ws)
        → Goal
    pick fits ih (inl p) = (w, inl refl, fits, p)
    pick fits ih (inr q) = later (ih q)

prepare_each_complete :
    (app : App) (e : WebhookEvent) (ws : List Webhook) (w : Webhook)
    → Occurs w ws
    → matches_filter w e.channel ≡ true
    → Occurs (job_for app e w) (prepare_each app e ws)
unfolding prepare_each
prepare_each_complete app e [] w o fits = elim o [ ]
prepare_each_complete app e (x ∷ ws) w (inl p) fits =
    let f : matches_filter x e.channel ≡ true = rw p fits in
    rw (f, Occurs) (inl (ap (job_for app e) p))
prepare_each_complete app e (x ∷ ws) w (inr o) fits =
    let q = prepare_each_complete app e ws w o fits in
    elim (Bool-cases (matches_filter x e.channel)) [
      | inl f ↦ rw (f, Occurs) (inr q)
      | inr f ↦ rw (f, Occurs) q
    ]

-- An event is queued for exactly those webhooks of the app whose filter accepts the event's channel,
-- each job with the app's credentials.
pub prepare_queued_messages_iff :
    (app : App) (e : WebhookEvent) (j : QueuedJobData)
    → Occurs j (prepare_queued_messages app e) ↔ (
        (w : Webhook) × Occurs w app.webhooks
        × (matches_filter w e.channel ≡ true)
        × (record {
          webhook = w;
          payload = e;
          app_id = app.id;
          app_key = app.key;
          app_secret = app.secret;
        }
            ≡ j))
unfolding prepare_queued_messages
prepare_queued_messages_iff app e j = (
  λ o. prepare_each_sound app e app.webhooks j o,
  λ q.
      subst (λ k. Occurs k (prepare_each app e app.webhooks)) q.3
        (prepare_each_complete app e app.webhooks q.0 q.1 q.2),
)
