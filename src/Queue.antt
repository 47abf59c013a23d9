-- ===== src/Queue.antt =====
-- internal/queues/queueAbstract.go: which webhook events are queued, and through the flap detector or
-- past it; and WebhookSender.Send of internal/webhooks/webhooks.go. A job of the detector is an app
-- with an event, and a dispatched job is a call of prepareQueuedMessages. The jobs that come of it go
-- through a transport to the sender: Transports.
pub mod Keys
pub mod Filters
pub mod Pairs
pub mod Transports
use pusher.Prelude.{
  ℕ, Bool, true, false, ◌&&◌, ◌||◌, not, Option, none, some, List, [], ◌∷◌, ◌++◌, if◌then◌else◌,
  is_nil, Text, codes, ◌==◌, has_prefix, has_suffix,
}
use pusher.App.{App, Webhook}
use pusher.FlapDetector.{EventType, connect, disconnect, Detector, check_for_flapping}

-- pusher.WebhookEvent, in the fields that the server sets; its `Data` is `body`.
pub record WebhookEvent : Type 0 where
  pub name : Text
  pub channel : Text
  pub body : Text
  pub socket_id : Text
  pub user_id : Text

-- webhooks.QueuedJobData
pub record QueuedJobData : Type 0 where
  pub webhook : Webhook
  pub payload : WebhookEvent
  pub app_id : Text
  pub app_key : Text
  pub app_secret : Text

abbrev pub Job : Type 0
Job = App × WebhookEvent

abbrev pub channel_occupied : Text
channel_occupied = codes "channel_occupied"

abbrev pub channel_vacated : Text
channel_vacated = codes "channel_vacated"

abbrev pub member_added : Text
member_added = codes "member_added"

abbrev pub member_removed : Text
member_removed = codes "member_removed"

abbrev pub cache_miss : Text
cache_miss = codes "cache_miss"

-- fmt.Sprintf("app:%s:channel:%s", …)
unfoldable pub channel_key : Text → Text → Text
channel_key app channel = codes "app:" ++ (app ++ (codes ":channel:" ++ channel))

-- fmt.Sprintf("app:%s:channel:%s:member:%s", …)
unfoldable pub member_key : Text → Text → Text → Text
member_key app channel user =
    codes "app:" ++ (app ++ (codes ":channel:" ++ (channel ++ (codes ":member:" ++ user))))

-- the switch of Send: the type and the key for flap detection, or none
unfoldable pub flap_route : App → WebhookEvent → Option (EventType × Text)
flap_route app e =
    if e.name == channel_occupied
    then some (connect, channel_key app.id e.channel)
    else if e.name == channel_vacated
    then some (disconnect, channel_key app.id e.channel)
    else if e.name == member_added
    then some (connect, member_key app.id e.channel e.user_id)
    else if e.name == member_removed
    then some (disconnect, member_key app.id e.channel e.user_id)
    else none

-- prepareQueuedMessages is called at once
abbrev pub dispatch_now : App → WebhookEvent → Detector Job → Detector Job
dispatch_now app e d = record d { dispatched = d.dispatched ++ (app, e) ∷ [] }

-- Send; `has_sender` says that q.webhookSender is not nil
unfoldable pub send : Bool → App → WebhookEvent → Detector Job → Detector Job
send has_sender app e d =
    if not has_sender || not app.webhooks_enabled
    then d
    else if d.enabled
    then elim (flap_route app e) [
      | none ↦ dispatch_now app e d
      | some (type, key) ↦ check_for_flapping key type (app, e) d
    ]
    else dispatch_now app e d

-- the filter of prepareQueuedMessages
unfoldable pub matches_filter : Webhook → Text → Bool
matches_filter w channel =
    if not (is_nil w.channel_name_starts_with)
      && not (has_prefix channel w.channel_name_starts_with)
    then false
    else if not (is_nil w.channel_name_ends_with)
        && not (has_suffix channel w.channel_name_ends_with)
    then false
    else true

-- the loop of prepareQueuedMessages: the jobs for addToQueue, in order
unfoldable pub prepare_each : App → WebhookEvent → List Webhook → List QueuedJobData
prepare_each app e [] = []
prepare_each app e (w ∷ ws) =
    let rest = prepare_each app e ws in
    if matches_filter w e.channel
    then record {
      webhook = w;
      payload = e;
      app_id = app.id;
      app_key = app.key;
      app_secret = app.secret;
    }
      ∷ rest
    else rest

unfoldable pub prepare_queued_messages : App → WebhookEvent → List QueuedJobData
prepare_queued_messages app e = prepare_each app e app.webhooks

abbrev pub named : Text → Text → WebhookEvent
named name channel = record {
  name = name;
  channel = channel;
  body = [];
  socket_id = [];
  user_id = [];
}

unfoldable pub send_client_event :
    Bool → App → Text → Text → Text → Text → Text → Detector Job → Detector Job
send_client_event s app channel event body socket user d =
    if app.has_client_event_webhooks
    then send s app
        (record {
          name = event;
          channel = channel;
          body = body;
          socket_id = socket;
          user_id = user;
        })
        d
    else d

unfoldable pub send_member_added : Bool → App → Text → Text → Detector Job → Detector Job
send_member_added s app channel user d =
    if app.has_member_added_webhooks
    then send s app (record (named member_added channel) { user_id = user }) d
    else d

unfoldable pub send_member_removed : Bool → App → Text → Text → Detector Job → Detector Job
send_member_removed s app channel user d =
    if app.has_member_removed_webhooks
    then send s app (record (named member_removed channel) { user_id = user }) d
    else d

unfoldable pub send_channel_vacated : Bool → App → Text → Detector Job → Detector Job
send_channel_vacated s app channel d =
    if app.has_channel_vacated_webhooks then send s app (named channel_vacated channel) d else d

unfoldable pub send_channel_occupied : Bool → App → Text → Detector Job → Detector Job
send_channel_occupied s app channel d =
    if app.has_channel_occupied_webhooks then send s app (named channel_occupied channel) d else d

unfoldable pub send_cache_missed : Bool → App → Text → Detector Job → Detector Job
send_cache_missed s app channel d =
    if app.has_cache_miss_webhooks then send s app (named cache_miss channel) d else d

-- WebhookSender.Send: the requests that are made
pub data Delivery : Type 0 where
  http_request : Text → Text → Text → WebhookEvent → Delivery
  sns_message : Text → WebhookEvent → Delivery

unfoldable pub deliver : Bool → Bool → QueuedJobData → List Delivery
deliver has_http has_sns job =
    let w = job.webhook in
    let sns =
      if is_nil w.sns_topic_arn || not has_sns
      then []
      else sns_message w.sns_topic_arn job.payload ∷ [] in
    if is_nil w.url
    then sns
    else if has_http
    then http_request w.url job.app_key job.app_secret job.payload ∷ sns
    else []
