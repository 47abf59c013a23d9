-- ===== src/Webhooks/Posted.antt =====
-- Which requests and messages the senders of internal/webhooks make of an event.
use pusher.Prelude.{
  ℕ, ◌≡◌, refl, sym, ap, true, false, ◌||◌, not, ◌⊎◌, inl, inr, ◌↔◌, some, List, [], ◌∷◌, ◌++◌,
  if◌then◌else◌, is_nil, Text, codes, arith, Occurs, Bool-cases,
}
use mathlib.Core.Path.{subst}
use pusher.Auth.{hmac_signature}
use pusher.App.{App, Webhook}
use pusher.Queue.{WebhookEvent, QueuedJobData, matches_filter, prepare_queued_messages, deliver}
use pusher.Queue.Filters.{job_for, prepare_queued_messages_iff}
use pusher.Webhooks.{
  HttpRequest, PublishInput, Outgoing, posted, published, SnsWebhook, Outside, signed_request,
  http_send, publish_input, with_names, sns_send, at_time, perform, perform_each, send_webhook,
}

append_right : {A : Type 0} (x : A) (xs ys : List A) → Occurs x ys → Occurs x (xs ++ ys)
append_right x [] ys o = o
append_right x (y ∷ xs) ys o = inr (append_right x xs ys o)

append_left : {A : Type 0} (x : A) (xs ys : List A) → Occurs x xs → Occurs x (xs ++ ys)
append_left x [] ys o = elim o [ ]
append_left x (y ∷ xs) ys (inl e) = inl e
append_left x (y ∷ xs) ys (inr o) = inr (append_left x xs ys o)

append_split :
    {A : Type 0} (x : A) (xs ys : List A) → Occurs x (xs ++ ys) → Occurs x xs ⊎ Occurs x ys
append_split x [] ys o = inr o
append_split x (y ∷ xs) ys (inl e) = inl (inl e)
append_split x (y ∷ xs) ys (inr o) = elim (append_split x xs ys o) [
  | inl l ↦ inl (inr l)
  | inr r ↦ inr r
]

posted_inj : {r q : HttpRequest} → posted r ≡ posted q → r ≡ q
posted_inj e = cc

published_inj : {r q : PublishInput} → published r ≡ published q → r ≡ q
published_inj e = cc

apart : {r : HttpRequest} {p : PublishInput} → posted r ≡ published p → ⊥
apart e = cc

-- the request of an event with this body
abbrev pub request : Text → Text → Text → Text → HttpRequest
request url key signature body = record {
  url = url;
  content_type = codes "application/json";
  pusher_key = key;
  pusher_signature = signature;
  body = body;
}

module _ (out : Outside) (s : SnsWebhook) (now : ℕ) where
  open out use {hmac, marshal, is_address}

  -- the two parts of what is sent
  abbrev by_http : QueuedJobData → List Outgoing
  by_http j = (http_send out (at_time now j.payload) j.webhook.url j.app_key j.app_secret).0

  abbrev by_sns : QueuedJobData → List Outgoing
  by_sns j =
      if is_nil j.webhook.sns_topic_arn
      then []
      else (sns_send out s (at_time now j.payload) j.webhook.sns_topic_arn).0 ++ []

  by_http-no_url : (j : QueuedJobData) → is_nil j.webhook.url ≡ true → by_http j ≡ []
  unfolding http_send
  by_http-no_url j y = ground (arith, y)

  send_webhook_lem : (j : QueuedJobData) → send_webhook out s now j ≡ by_http j ++ by_sns j
  unfolding send_webhook deliver perform_each perform
  send_webhook_lem j = elim (Bool-cases (is_nil j.webhook.url)) [
    | inl y ↦ elim (Bool-cases (is_nil j.webhook.sns_topic_arn)) [
      | inl y' ↦ ground (arith, y, y', by_http-no_url j y)
      | inr n' ↦ ground (arith, y, n', by_http-no_url j y)
    ]
    | inr n ↦ elim (Bool-cases (is_nil j.webhook.sns_topic_arn)) [
      | inl y' ↦ ground (arith, n, y')
      | inr n' ↦ ground (arith, n, n')
    ]
  ]

  -- what is posted, and that nothing else is sent by HTTP
  Posts : QueuedJobData → Text → HttpRequest → Type 0
  Posts j body r =
      (is_nil j.webhook.url ≡ false)
      × (is_address j.webhook.url ≡ true)
      × (request j.webhook.url j.app_key (hmac_signature hmac body j.app_secret) body ≡ r)

  by_http-Posts :
      (j : QueuedJobData) (body : Text) (r : HttpRequest)
      → marshal (at_time now j.payload) ≡ some body
      → Occurs (posted r) (by_http j) ↔ Posts j body r
  unfolding http_send Posts
  by_http-Posts j body r m = elim (Bool-cases (is_nil j.webhook.url)) [
    | inl y ↦ (λ o. elim (nothing y o) [ ], λ q. absurd (ground (arith, y, q.0)))
    | inr n ↦ elim (Bool-cases (is_address j.webhook.url)) [
      | inl a ↦
          let is : by_http j
              ≡ posted (signed_request out j.webhook.url j.app_key j.app_secret body) ∷ [] =
            ground (arith, n, a, m) in
          (
            λ o. elim (subst (Occurs (posted r)) is o) [
              | inl e ↦ (n, a, posted_inj e)
              | inr z ↦ elim z [ ]
            ],
            λ q. subst (Occurs (posted r)) (sym is) (inl (ap posted q.2)),
          )
      | inr b ↦
          let is : by_http j ≡ [] = ground (arith, n, b, m) in
          (λ o. elim (subst (Occurs (posted r)) is o) [ ], λ q. absurd (ground (arith, b, q.1)))
    ]
  ]
    where
      nothing : is_nil j.webhook.url ≡ true → Occurs (posted r) (by_http j) → ⊥
      nothing y o = subst (Occurs (posted r)) (by_http-no_url j y) o

  abbrev message : QueuedJobData → Text → PublishInput
  message j body = publish_input (with_names s) j.webhook.sns_topic_arn body

  by_sns_lem :
      (j : QueuedJobData) (body : Text)
      → marshal (at_time now j.payload) ≡ some body
      → by_sns j ≡ (
          if is_nil j.webhook.sns_topic_arn || not s.has_client
          then []
          else published (message j body) ∷ [])
  unfolding sns_send
  by_sns_lem j body m = elim (Bool-cases (is_nil j.webhook.sns_topic_arn)) [
    | inl y ↦ ground (arith, y)
    | inr n ↦ elim (Bool-cases s.has_client) [
      | inl h ↦ ground (arith, n, h, m)
      | inr h ↦ ground (arith, n, h)
    ]
  ]

  by_sns-posts_none :
      (j : QueuedJobData) (body : Text) (r : HttpRequest)
      → marshal (at_time now j.payload) ≡ some body
      → Occurs (posted r) (by_sns j)
      → ⊥
  by_sns-posts_none j body r m o =
      elim (Bool-cases (is_nil j.webhook.sns_topic_arn || not s.has_client)) [
        | inl y ↦
            let is : by_sns j ≡ [] = ground (arith, by_sns_lem j body m, y) in
            elim (subst (Occurs (posted r)) is o) [ ]
        | inr n ↦
            let is : by_sns j ≡ published (message j body) ∷ [] =
              ground (arith, by_sns_lem j body m, n) in
            elim (subst (Occurs (posted r)) is o) [ inl e ↦ apart (sym e) | inr z ↦ elim z [ ] ]
      ]

  send_webhook-Posts :
      (j : QueuedJobData) (body : Text) (r : HttpRequest)
      → marshal (at_time now j.payload) ≡ some body
      → Occurs (posted r) (send_webhook out s now j) ↔ Posts j body r
  send_webhook-Posts j body r m = (
    λ o.
        elim (append_split (posted r) (by_http j) (by_sns j)
          (subst (Occurs (posted r)) (send_webhook_lem j) o)) [
            | inl l ↦ (by_http-Posts j body r m).0 l
            | inr z ↦ absurd (by_sns-posts_none j body r m z)
          ],
    λ q.
        subst (Occurs (posted r)) (sym (send_webhook_lem j))
          (append_left (posted r) (by_http j) (by_sns j) ((by_http-Posts j body r m).1 q)),
  )

  -- An event that can be encoded is posted exactly to the usable addresses of those webhooks of the app
  -- whose filter accepts the event's channel, by the jobs that are queued for it: each request has the
  -- app's key, the encoded event as its body, and the HMAC of that body under the app's secret.
  pub posted_iff :
      (app : App) (e : WebhookEvent) (body : Text) (r : HttpRequest)
      → marshal (at_time now e) ≡ some body
      → ((j : QueuedJobData) × Occurs j (prepare_queued_messages app e)
          × Occurs (posted r) (send_webhook out s now j))
        ↔ ((w : Webhook) × Occurs w app.webhooks
            × (matches_filter w e.channel ≡ true)
            × (is_nil w.url ≡ false)
            × (is_address w.url ≡ true)
            × (request w.url app.key (hmac_signature hmac body app.secret) body ≡ r))
  unfolding Posts
  posted_iff app e body r m = (
    λ q.
        let (w, here, fits, same) = (prepare_queued_messages_iff app e q.0).0 q.1 in
        let sent = subst (λ j. Occurs (posted r) (send_webhook out s now j)) (sym same) q.2 in
        let posts = (send_webhook-Posts (job_for app e w) body r m).0 sent in
        (w, here, fits, posts.0, posts.1, posts.2),
    λ q. (
      job_for app e q.0,
      (prepare_queued_messages_iff app e (job_for app e q.0)).1 (q.0, q.1, q.2, refl),
      (send_webhook-Posts (job_for app e q.0) body r m).1 (q.3, q.4, q.5),
    ),
  )
