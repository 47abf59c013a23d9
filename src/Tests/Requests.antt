-- ===== src/Tests/Requests.antt =====
-- Subscriptions and client events of two connections.
use pusher.Prelude.{
  ◌≡◌, refl, if◌then◌else◌, ◌↔◌, true, false, ◌&&◌, ◌||◌, not, inr, Option, none, some, List, [],
  ◌∷◌, ◌++◌, Text, codes, ◌==◌, get, put, is_nil, Occurs, has_prefix, contains, arith, all,
}
use pusher.Auth
use pusher.Auth.{validate_channel_auth}
use pusher.Channel.{create_channel}
use pusher.ChannelName.{
  validate_channel_name, matches_channel_regex, is_name_word, is_name_byte, is_presence_channel,
  is_private_channel, is_private_encrypted_channel,
}
use pusher.LocalAdapter
use pusher.Namespace
use pusher.Namespace.{add_socket, add_to_channel, add_user}
use pusher.Queue
use pusher.Session.Events.{handle_client_event-Quiet, handle_client_event-relays, IsOpen, to_each}
use pusher.Session.Granted.{subscribe_granted, noted}
use pusher.Session.Messages.{handle_client_event, event_problem, sender_id}
use pusher.Session.Quiet.{Quiet}
use pusher.Session.Refusals.{Refused, subscribe_unauthorized}
use pusher.Session.Requests.{handle_subscribe_request}
use pusher.Session.World.{World, Codec, SubscribeData, ClientEvent, ErrorCode, channel_event, raw}
use pusher.Socket.{Ref}
use pusher.Tests.Data.{room, room_channel, lobby, alice, bob, shop, busy, node, world}

abbrev typing : ClientEvent
typing = record { event = codes "client-typing"; channel = room; body = codes "{}" }

abbrev to_room : SubscribeData
to_room = record { channel = room; auth = []; channel_data = [] }

abbrev to_lobby : SubscribeData
to_lobby = record { channel = lobby; auth = codes "key:00"; channel_data = [] }

-- every message is one client event, and the key before the message is its HMAC
abbrev codec : Codec
codec = record {
  hmac = λ secret message. secret ++ message;
  event_name = λ t. none;
  subscribe = λ t. if is_nil t then some to_room else some to_lobby;
  unsubscribe = λ t. none;
  signin = λ t. none;
  user_id = λ t. none;
  client_event = λ t. some typing;
  member = λ t. none;
}

subscribe_unauthorized_example : Refused 1 world (handle_subscribe_request codec lobby 1 world)
unfolding create_channel is_presence_channel has_prefix validate_channel_auth Auth.split_colon
    Auth.check_parts Auth.hmac_signature Auth.hex Auth.hex_digit Auth.channel_string ◌==◌
subscribe_unauthorized_example =
    subscribe_unauthorized codec lobby shop 1 to_lobby world refl refl refl refl refl

subscribe_granted_example :
    (t : World) × (handle_subscribe_request codec [] 1 world ≡ some (t, none))
    × ((j d : Text)
        → LocalAdapter.is_in_channel t.adapter shop.id d j
          ≡ (room == d && bob.id == j || LocalAdapter.is_in_channel node shop.id d j))
    × ((t.heap 1).subscribed_channels
        ≡ some (noted ((room, room_channel) ∷ []) (create_channel shop room)))
unfolding validate_channel_name matches_channel_regex is_name_word is_name_byte all create_channel
    is_presence_channel is_private_channel is_private_encrypted_channel has_prefix get put ◌==◌
subscribe_granted_example =
    subscribe_granted codec [] shop 1 to_room world busy ((room, room_channel) ∷ []) refl refl refl
      refl refl refl refl refl refl

handle_client_event-Quiet_example :
    (t : World) × (error : Option ErrorCode) × (handle_client_event codec [] 0
        (record world { adapter = LocalAdapter.store node shop.id Namespace.blank })
      ≡ some (t, error))
    × Quiet 0 (record world { adapter = LocalAdapter.store node shop.id Namespace.blank }) t
unfolding LocalAdapter.is_in_channel Namespace.is_in_channel get put ◌==◌
handle_client_event-Quiet_example =
    handle_client_event-Quiet codec [] 0
      (record world { adapter = LocalAdapter.store node shop.id Namespace.blank }) shop typing refl
      refl (inr (inr refl))

world-IsOpen : IsOpen world
world-IsOpen = record {
  closed = λ q. ground arith;
  connected = λ q. ground arith;
  reachable = λ q. refl;
}

handle_client_event-relays_example :
    (t : World) × (found : List Ref) × (handle_client_event codec [] 0 world ≡ some (t, none))
    × (t.frames ≡ to_each found (channel_event typing.event room (raw typing.body) []))
    × (t.detector
        ≡ Queue.send_client_event true shop room typing.event typing.body alice.id []
            world.detector)
    × (Occurs 1 found ↔ (
        (id : Text) × (Namespace.is_in_channel busy id room ≡ true)
        × (get busy.sockets id ≡ some 1)
        × ((not (is_nil alice.id) && id == alice.id) ≡ false)))
unfolding LocalAdapter.is_in_channel Namespace.is_in_channel get put ◌==◌ contains add_socket
    add_to_channel add_user event_problem sender_id has_prefix
handle_client_event-relays_example =
    handle_client_event-relays codec [] 0 world shop typing room_channel busy [] 1 refl refl refl
      refl refl refl refl refl world-IsOpen
