-- ===== src/Tests/Posting.antt =====
-- An event of a room that is posted to one webhook.
use pusher.Prelude.{◌≡◌, refl, true, false, ◌↔◌, some, [], ◌++◌, is_nil, codes, Occurs}
use pusher.Auth.{hmac_signature}
use pusher.App.{Webhook}
use pusher.Queue.{WebhookEvent, QueuedJobData, matches_filter, prepare_queued_messages}
use pusher.Tests.Data.{room, shop}
use pusher.Webhooks.{HttpRequest, SnsWebhook, Outside, posted, signed_request, send_webhook}
use pusher.Webhooks.Posted.{request, posted_iff}

-- the key before the message is its HMAC, every payload is encoded alike, and all is accepted
abbrev outside : Outside
outside = record {
  hmac = λ secret message. secret ++ message;
  marshal = λ p. some (codes "{}");
  is_address = λ url. true;
  respond = λ r. some 200;
  accepts = λ p. true;
}

abbrev sns : SnsWebhook
sns = record {
  has_client = true;
  region = [];
  event_name_key = codes "EventName";
  event_name_value = codes "pusher-webhook";
}

abbrev occupied : WebhookEvent
occupied = record {
  name = codes "channel_occupied";
  channel = room;
  body = [];
  socket_id = [];
  user_id = [];
}

abbrev post : HttpRequest
post = signed_request outside (codes "https://hooks") shop.key shop.secret (codes "{}")

posted_iff_example :
    ((j : QueuedJobData) × Occurs j (prepare_queued_messages shop occupied)
      × Occurs (posted post) (send_webhook outside sns 7 j))
    ↔ ((w : Webhook) × Occurs w shop.webhooks
        × (matches_filter w occupied.channel ≡ true)
        × (is_nil w.url ≡ false)
        × (true ≡ true)
        × (request w.url shop.key
              (hmac_signature outside.hmac (codes "{}") shop.secret)
              (codes "{}")
            ≡ post))
posted_iff_example = posted_iff outside sns 7 shop occupied (codes "{}") post refl
