-- ===== src/Webhooks.antt =====
-- internal/webhooks/http.go and internal/webhooks/sns.go: what the senders make of a queued job, and
-- sendWebhook of internal/queues/queueAbstract.go, which calls them. The JSON encoder, the parsing of
-- an address, the HTTP client and the SNS client are the libraries': parameters say what they give.
pub mod Posted
use pusher.Prelude.{
  ℕ, Bool, true, false, not, Option, none, some, List, [], ◌∷◌, ◌++◌, if◌then◌else◌, eqb, is_nil,
  Text, codes,
}
use pusher.Auth.{hmac_signature}
use pusher.Queue.{WebhookEvent, QueuedJobData, Delivery, http_request, sns_message, deliver}

-- pusher.Webhook
pub record Payload : Type 0 where
  pub time_ms : ℕ
  pub events : List WebhookEvent

-- the POST request, with its three headers
pub record HttpRequest : Type 0 where
  pub url : Text
  pub content_type : Text
  pub pusher_key : Text
  pub pusher_signature : Text
  pub body : Text

-- sns.PublishInput, with its one attribute
pub record PublishInput : Type 0 where
  pub message : Text
  pub topic_arn : Text
  pub attribute_key : Text
  pub attribute_value : Text

pub data SendError : Type 0 where
  not_encoded bad_address no_response no_client no_topic not_published : SendError
  bad_status : ℕ → SendError

-- what leaves the server
pub data Outgoing : Type 0 where
  posted : HttpRequest → Outgoing
  published : PublishInput → Outgoing

abbrev pub status_ok : ℕ
status_ok = 200

pub record SnsWebhook : Type 0 where
  pub has_client : Bool
  pub region : Text
  pub event_name_key : Text
  pub event_name_value : Text

abbrev or_default : Text → Text → Text
or_default t d = if is_nil t then d else t

-- the defaults of the attribute's name and value
unfoldable pub with_names : SnsWebhook → SnsWebhook
with_names s = record s {
  event_name_key = or_default s.event_name_key (codes "EventName");
  event_name_value = or_default s.event_name_value (codes "pusher-webhook");
}

-- NewSnsWebhook, with whether the AWS configuration loads; `none` is an error
unfoldable pub new_sns_webhook : Bool → Text → Option SnsWebhook
new_sns_webhook loads region =
    if loads
    then some (
        with_names (record {
          has_client = true;
          region = region;
          event_name_key = [];
          event_name_value = [];
        }))
    else none

-- What the libraries give: the encoding of a payload, whether an address can be used, the status of the
-- answer if there is one, and whether SNS accepts a message.
pub record Outside : Type 0 where
  pub hmac : Text → Text → Text
  pub marshal : Payload → Option Text
  pub is_address : Text → Bool
  pub respond : HttpRequest → Option ℕ
  pub accepts : PublishInput → Bool

-- the error after the request was made
unfoldable pub response_error : Option ℕ → Option SendError
response_error none = some no_response
response_error (some status) = if eqb status status_ok then none else some (bad_status status)

abbrev pub publish_input : SnsWebhook → Text → Text → PublishInput
publish_input s topic message = record {
  message = message;
  topic_arn = topic;
  attribute_key = s.event_name_key;
  attribute_value = s.event_name_value;
}

abbrev pub at_time : ℕ → WebhookEvent → Payload
at_time now e = record { time_ms = now; events = e ∷ [] }

module _ (out : Outside) where
  open out use {hmac, marshal, is_address, respond, accepts}

  abbrev pub signed_request : Text → Text → Text → Text → HttpRequest
  signed_request url key secret body = record {
    url = url;
    content_type = codes "application/json";
    pusher_key = key;
    pusher_signature = hmac_signature hmac body secret;
    body = body;
  }

  -- HttpWebhook.Send
  unfoldable pub http_send : Payload → Text → Text → Text → List Outgoing × Option SendError
  http_send webhook url key secret = if is_nil url then ([], none) else elim (marshal webhook) [
    | none ↦ ([], some not_encoded)
    | some body ↦
        let r = signed_request url key secret body in
        if is_address url
        then (posted r ∷ [], response_error (respond r))
        else ([], some bad_address)
  ]

  -- SnsWebhook.Send; the names that it sets are those that NewSnsWebhook has set
  unfoldable pub sns_send : SnsWebhook → Payload → Text → List Outgoing × Option SendError
  sns_send s webhook topic =
      if not s.has_client
      then ([], some no_client)
      else if is_nil topic
      then ([], some no_topic)
      else elim (marshal webhook) [
        | none ↦ ([], some not_encoded)
        | some message ↦
            let input = publish_input (with_names s) topic message in
            (published input ∷ [], if accepts input then none else some not_published)
      ]

  -- one of the two calls in WebhookSender.Send, which ignores the errors
  unfoldable pub perform : SnsWebhook → ℕ → Delivery → List Outgoing
  perform s now (http_request url key secret e) = (http_send (at_time now e) url key secret).0
  perform s now (sns_message topic e) = (sns_send s (at_time now e) topic).0

  unfoldable pub perform_each : SnsWebhook → ℕ → List Delivery → List Outgoing
  perform_each s now [] = []
  perform_each s now (d ∷ ds) = perform s now d ++ perform_each s now ds

  -- sendWebhook, with the sender that NewServer makes
  unfoldable pub send_webhook : SnsWebhook → ℕ → QueuedJobData → List Outgoing
  send_webhook s now job = perform_each s now (deliver true true job)
