-- ===== src/Tests/Data.antt =====
-- The connections, the app and the namespaces that the tests share.
use pusher.Prelude.{true, false, some, [], ◌∷◌, Text, codes, pos, if◌then◌else◌, eqb, get}
use pusher.App.{App, Webhook}
use pusher.Channel.{Channel, public}
use pusher.LocalAdapter
use pusher.LocalAdapter.{Adapter, Gauges}
use pusher.LocalAdapter.Calls.{AllTidy, store-AllTidy}
use pusher.Namespace.{Namespace, blank, add_socket, add_to_channel, add_user}
use pusher.Namespace.Tidy.{
  IsTidy, blank-IsTidy, add_socket-IsTidy, add_to_channel-IsTidy, add_user-IsTidy,
}
use pusher.FlapDetector.{init}
use pusher.Session.World.{World}
use pusher.Socket.{WebSocket, absent, Heap}

abbrev pub room : Text
room = codes "room"

abbrev pub lobby : Text
lobby = codes "presence-lobby"

abbrev pub webhook : Webhook
webhook = record {
  url = codes "https://hooks";
  channel_name_starts_with = codes "room";
  channel_name_ends_with = [];
  sns_topic_arn = [];
}

abbrev pub shop : App
shop = record {
  id = codes "7";
  key = codes "key";
  secret = codes "secret";
  activity_timeout = pos 30;
  read_timeout = pos 0;
  authorization_timeout_seconds = pos 0;
  authorization_timeout = pos 0;
  max_connections = pos 0;
  enable_client_messages = true;
  enabled = false;
  max_backend_events_per_second = pos 0;
  max_client_events_per_second = pos 0;
  max_read_requests_per_second = pos 0;
  webhooks = webhook ∷ [];
  max_presence_members_per_channel = pos 0;
  max_presence_member_size_in_kb = pos 2;
  max_channel_name_length = pos 100;
  max_event_channels_at_once = pos 0;
  max_event_name_length = pos 100;
  max_event_payload_in_kb = pos 10;
  max_event_batch_size = pos 0;
  require_channel_authorization = false;
  has_client_event_webhooks = true;
  has_channel_occupied_webhooks = true;
  has_channel_vacated_webhooks = true;
  has_member_added_webhooks = true;
  has_member_removed_webhooks = true;
  has_cache_miss_webhooks = true;
  webhook_batching_enabled = false;
  webhooks_enabled = true;
}

abbrev pub room_channel : Channel
room_channel = record {
  app = shop;
  name = room;
  kind = public;
  requires_auth = false;
  is_cache = false;
  is_encrypted = false;
}

abbrev pub alice : WebSocket
alice = record {
  id = codes "1.1";
  app = some shop;
  subscribed_channels = some ((room, room_channel) ∷ []);
  presence_data = some ((lobby, record { user_id = codes "alice"; user_info = [] }) ∷ []);
  connected = true;
  closed = false;
  attached = true;
  user_id = codes "alice";
  user_auth_channel = absent;
  user_has_authorized = false;
}

abbrev pub bob : WebSocket
bob = record alice { id = codes "2.2"; user_id = codes "bob"; presence_data = some [] }

-- two connections, at 0 and at 1
abbrev pub heap : Heap
heap q = if eqb q 0 then alice else bob

-- Both are connected, alice is in both channels and bob in one, and alice is signed in.
abbrev pub signed : Namespace
signed = add_user heap 0 (add_socket heap 0 blank).0

abbrev pub joined : Namespace
joined = (add_to_channel heap 0 room (add_socket heap 1 signed).0).0

abbrev pub both : Namespace
both = (add_to_channel heap 1 room joined).0

abbrev pub busy : Namespace
busy = (add_to_channel heap 0 lobby both).0

pub joined-IsTidy : IsTidy joined
joined-IsTidy = add_to_channel-IsTidy heap 0 room _ (
    add_socket-IsTidy heap 1 signed
      (add_user-IsTidy heap 0 _ (add_socket-IsTidy heap 0 blank blank-IsTidy)))

pub busy-IsTidy : IsTidy busy
busy-IsTidy =
    add_to_channel-IsTidy heap 0 lobby both (add_to_channel-IsTidy heap 1 room joined joined-IsTidy)

abbrev pub empty_node : Adapter
empty_node = record {
  namespaces = some [];
  gauges = record { total = 0; presence = 0; private = 0; public = 0 };
}

abbrev pub node : Adapter
node = LocalAdapter.store empty_node shop.id busy

empty_node-AllTidy : AllTidy empty_node
unfolding get
empty_node-AllTidy = record { at = λ app n e. cc }

pub node-AllTidy : AllTidy node
node-AllTidy = store-AllTidy empty_node shop.id busy empty_node-AllTidy busy-IsTidy

abbrev pub world : World
world = record {
  heap = heap;
  adapter = node;
  cache = [];
  detector = init true;
  frames = [];
  closing = false;
  reachable = λ r. true;
  closable = λ r. true;
  now = 0;
}
