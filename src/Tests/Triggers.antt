-- ===== src/Tests/Triggers.antt =====
-- Events that the app's server triggers, and what the HTTP API tells.
use pusher.Prelude.{
  ℕ, ◌*◌, ◌≡◌, all, ◌≢◌, refl, ◌↔◌, ◌⊎◌, none, some, List, [], ◌∷◌, ◌++◌, arith, length, lacks,
  contains, Text, codes, ◌==◌, Map, get, put, has_prefix, pos,
}
use pusher.Api.Channels.{
  channel_index, channel_show, channel_users, Shown, index, users, info_fields, parts, drop_blank,
}
use pusher.Api.Events.{
  ApiMessage, ok, with_channels, all_valid, message_problem, event_for, broadcast_message,
  event_trigger,
}
use pusher.Api.Replay.{event_is_replayed}
use pusher.Api.Reports.{user_counts_agree}
use pusher.Api.Triggering.{IsWithin, event_trigger_lem}
use pusher.App.{App}
use pusher.Cache.{second}
use pusher.Channel.{create_channel}
use pusher.ChannelName.{
  valid_channel, matches_channel_regex, is_name_word, is_name_byte, is_cache_channel,
  is_presence_channel, is_private_channel, is_private_encrypted_channel, validate_channel_name,
}
use pusher.Namespace.{or_zero}
use pusher.Api.Deliveries.{Wrote, deliveries}
use pusher.Session.Events.{IsOpen}
use pusher.Session.Requests.{handle_subscribe_request}
use pusher.Session.World.{
  World, Frame, Codec, SubscribeData, server_event, cached, subscription_succeeded, empty_object,
}
use pusher.Tests.Data.{node, busy, room, room_channel, shop, world, lobby}

-- an encoding that keeps the body
abbrev encode : Frame → Text
encode (server_event name channel body socket) = body
encode _ = []

abbrev ample : App
ample = record shop { max_event_channels_at_once = pos 10 }

abbrev news : Text
news = codes "cache-news"

abbrev bulletin : ApiMessage
bulletin = record {
  name = codes "update";
  body = codes "hi";
  channel = news;
  channels = [];
  socket_id = [];
}

abbrev nameless : ApiMessage
nameless = record bulletin { channel = codes "no spaces" }

world-IsOpen : IsOpen world
world-IsOpen = record {
  closed = λ q. ground arith;
  connected = λ q. ground arith;
  reachable = λ q. refl;
}

event_trigger_lem_example :
    (((event_trigger encode (some ample) (some bulletin) world).1 ≡ ok)
      ↔ IsWithin ample (with_channels bulletin))
    × ((((event_trigger encode (some ample) (some bulletin) world).1 ≡ ok)
          × Wrote world
              (event_trigger encode (some ample) (some bulletin) world).0
              (deliveries node ample (with_channels bulletin) (with_channels bulletin).channels))
        ⊎ (((event_trigger encode (some ample) (some bulletin) world).0 ≡ world)
            × ((event_trigger encode (some ample) (some bulletin) world).1 ≢ ok)))
event_trigger_lem_example = event_trigger_lem encode ample bulletin world world-IsOpen

-- the event is sent
triggered : (event_trigger encode (some ample) (some bulletin) world).1 ≡ ok
unfolding event_trigger message_problem with_channels all_valid valid_channel matches_channel_regex
    is_name_word is_name_byte all
triggered = refl

-- the event on its channel, and the world a minute later
abbrev on_news : ApiMessage
on_news = record bulletin { channels = news ∷ [] }

abbrev after : World
after = record world {
  cache = (broadcast_message encode shop on_news world).cache;
  now = 60 * second;
}

abbrev to_news : SubscribeData
to_news = record { channel = news; auth = []; channel_data = [] }

-- every message asks for the channel
abbrev codec : Codec
codec = record {
  hmac = λ secret message. secret ++ message;
  event_name = λ t. none;
  subscribe = λ t. some to_news;
  unsubscribe = λ t. none;
  signin = λ t. none;
  user_id = λ t. none;
  client_event = λ t. none;
  member = λ t. none;
}

event_is_replayed_example :
    (u : World) × (handle_subscribe_request codec [] 0 after ≡ some (u, none))
    × (u.frames
        ≡ after.frames
          ++ (0, subscription_succeeded news empty_object)
            ∷ (0, cached (encode (event_for on_news news)))
            ∷ [])
unfolding lacks contains ◌==◌ is_cache_channel has_prefix validate_channel_name
    matches_channel_regex is_name_word is_name_byte all create_channel is_presence_channel
    is_private_channel is_private_encrypted_channel get put
event_is_replayed_example =
    event_is_replayed encode shop on_news codec [] 0 to_news world after busy
      ((room, room_channel) ∷ []) refl refl refl refl (omega arith) refl refl refl refl refl refl
      refl refl refl (record { closed = refl; connected = refl; reachable = refl })

abbrev asking : Text
asking = codes "user_count,"

user_counts_agree_example :
    (ids : List Text) × (m : Map ℕ) × (shown : Shown) × (channel_users (some shop) lobby world
      ≡ users ids)
    × (channel_index (some shop) (codes "presence-") asking world ≡ index m)
    × (channel_show (some shop) lobby asking world ≡ some shown)
    × (or_zero (get m lobby) ≡ length ids)
    × (shown.user_count ≡ length ids)
unfolding info_fields parts drop_blank contains ◌==◌ is_presence_channel has_prefix
user_counts_agree_example = user_counts_agree shop asking lobby world refl refl
