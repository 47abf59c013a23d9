-- ===== src/Api/Events.antt =====
-- internal/apiEvents.go: events that the app's own server triggers. The binding of the request's form
-- is the library's: a handler takes its result, `none` for an error. The metrics are left out.
use pusher.Prelude.{
  ℕ, ◌*◌, Bool, true, ◌&&◌, not, Option, none, some, List, [], ◌∷◌, if◌then◌else◌, is_nil, length,
  Text, exceeds, scale,
}
use pusher.App.{App}
use pusher.Cache
use pusher.Cache.{second}
use pusher.ChannelName.{valid_channel, is_cache_channel}
use pusher.Session.World.{World, Frame, server_event, broadcast}

-- payloads.PusherApiMessage
pub record ApiMessage : Type 0 where
  pub name : Text
  pub body : Text
  pub channel : Text
  pub channels : List Text
  pub socket_id : Text

-- the answer's status: 200, 400, 413 or 500
pub data Status : Type 0 where
  ok bad_request entity_too_large internal_error : Status

-- the first line of checkMessageToBroadcast: the one channel becomes the list
unfoldable pub with_channels : ApiMessage → ApiMessage
with_channels m =
    if not (is_nil m.channel) && is_nil m.channels
    then record m { channels = m.channel ∷ [] }
    else m

unfoldable pub all_valid : List Text → App → Bool
all_valid [] app = true
all_valid (c ∷ cs) app = valid_channel c app.max_channel_name_length && all_valid cs app

-- the tests of checkMessageToBroadcast, on the message with its channels; `none` is the nil error
unfoldable pub message_problem : App → ApiMessage → Option Status
message_problem app m =
    if not (all_valid m.channels app)
    then some bad_request
    else if exceeds (length m.channels) app.max_event_channels_at_once
    then some entity_too_large
    else if exceeds (length m.name) app.max_event_name_length
    then some entity_too_large
    else if exceeds (length m.body) (scale app.max_event_payload_in_kb 1024)
    then some entity_too_large
    else none

-- 30 minutes
abbrev pub cached_for : ℕ
cached_for = 1800 * second

-- the event for one channel
abbrev pub event_for : ApiMessage → Text → Frame
event_for m channel = server_event m.name channel m.body m.socket_id

-- broadcastMessage for one channel; `encode` is ToJson
unfoldable pub broadcast_one : (Frame → Text) → App → ApiMessage → Text → World → World
broadcast_one encode app m channel s =
    let s' = broadcast app.id channel (event_for m channel) m.socket_id s in
    if is_cache_channel channel
    then record s' {
      cache =
          Cache.store_ex s'.now s'.cache (Cache.channel_cache_key app.id channel)
            (encode (event_for m channel)) cached_for;
    }
    else s'

unfoldable pub broadcast_each : (Frame → Text) → App → ApiMessage → List Text → World → World
broadcast_each encode app m [] s = s
broadcast_each encode app m (c ∷ cs) s =
    broadcast_each encode app m cs (broadcast_one encode app m c s)

unfoldable pub broadcast_message : (Frame → Text) → App → ApiMessage → World → World
broadcast_message encode app m s = broadcast_each encode app m m.channels s

-- EventTrigger; the app is `none` where the middleware has set none
unfoldable pub event_trigger :
    (Frame → Text) → Option App → Option ApiMessage → World → World × Status
event_trigger encode none bound s = (s, internal_error)
event_trigger encode (some app) none s = (s, bad_request)
event_trigger encode (some app) (some form) s =
    let m = with_channels form in
    elim (message_problem app m) [
      | some status ↦ (s, status)
      | none ↦ (broadcast_message encode app m s, ok)
    ]

-- the loop of BatchEventTrigger
unfoldable pub trigger_each : (Frame → Text) → App → List ApiMessage → World → World × Status
trigger_each encode app [] s = (s, ok)
trigger_each encode app (form ∷ batch) s =
    let m = with_channels form in
    let rest = trigger_each encode app batch (broadcast_message encode app m s) in
    elim (message_problem app m) [ some status ↦ (s, status) | none ↦ rest ]

unfoldable pub batch_event_trigger :
    (Frame → Text) → Option App → Option (List ApiMessage) → World → World × Status
batch_event_trigger encode none bound s = (s, internal_error)
batch_event_trigger encode (some app) none s = (s, bad_request)
batch_event_trigger encode (some app) (some batch) s = trigger_each encode app batch s
