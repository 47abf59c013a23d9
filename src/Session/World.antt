-- ===== src/Session/World.antt =====
-- What the handlers of internal/websocket.go act on: the shared sockets, the adapter, the cache, the
-- webhook detector, and the frames that were written. Frames are what internal/payloads/payload.go
-- packs, before its JSON encoding.
use pusher.Prelude.{
  ℤ, ℕ, Bool, true, ◌||◌, not, Option, none, some, List, [], ◌∷◌, ◌++◌, if◌then◌else◌, Text, Map,
}
use pusher.Cache.{Cache}
use pusher.FlapDetector.{Detector}
use pusher.LocalAdapter
use pusher.LocalAdapter.{Adapter}
use pusher.Queue.{Job}
use pusher.Socket.{WebSocket, MemberData, Ref, Heap, update}

-- util.ErrorCode, in the codes that the handlers use
pub data ErrorCode : Type 0 where
  unauthorized_connection internal_server_error over_capacity server_shutting_down : ErrorCode
  generic_reconnect close_expected client_event_rejected invalid_payload : ErrorCode
  invalid_channel not_subscribed subscription_access_denied abnormal_closure : ErrorCode
  over_quota app_not_exist app_disabled unsupported_protocol_version : ErrorCode

-- the data of a subscription_succeeded frame: "{}", or the members' ids with their map and count
pub data Subscribed : Type 0 where
  empty_object : Subscribed
  presence : List Text → Map (Map Text) → ℕ → Subscribed

-- the data of a channel event that the server or a client makes
pub data EventBody : Type 0 where
  raw : Text → EventBody
  member : MemberData → EventBody
  user : Text → EventBody
  failure : ErrorCode → Text → EventBody

-- A server_event is a ChannelEvent of the HTTP API: event, channel, data and the excluded socket.
pub data Frame : Type 0 where
  error_frame : ErrorCode → Text → Frame
  pong : Frame
  established : Text → ℤ → Frame
  subscription_succeeded : Text → Subscribed → Frame
  subscription_error : Text → Text → Text → ErrorCode → Frame
  channel_event : Text → Text → EventBody → Text → Frame
  server_event : Text → Text → Text → Text → Frame
  payload : Text → Text → Frame
  cached : Text → Frame

-- `reachable` and `closable` say of which connections writing and closing succeeds; `now` is the clock.
pub record World : Type 0 where
  pub heap : Heap
  pub adapter : Adapter
  pub cache : Cache
  pub detector : Detector Job
  pub frames : List (Ref × Frame)
  pub closing : Bool
  pub reachable : Ref → Bool
  pub closable : Ref → Bool
  pub now : ℕ

-- A handler's step; `none` is a panic.
abbrev pub Act : Type 0
Act = World → Option World

abbrev pub write : Ref → (WebSocket → WebSocket) → World → World
write r f s = record s { heap = update s.heap r (f (s.heap r)) }

-- WebSocket.Send: nothing on a closed connection; a failed write closes it
unfoldable pub send : Ref → Frame → World → World
send r f s =
    if (s.heap r).closed || not (s.heap r).connected
    then s
    else if s.reachable r
    then record s { frames = s.frames ++ (r, f) ∷ [] }
    else write r (λ w. record w { closed = true }) s

unfoldable pub send_all : List Ref → Frame → World → World
send_all [] f s = s
send_all (r ∷ rs) f s = send_all rs f (send r f s)

-- Adapter.Send; the handlers drop its error
unfoldable pub broadcast : Text → Text → Frame → Text → World → World
broadcast app channel f except s = elim (LocalAdapter.send s.adapter app channel except) [
  | none ↦ s
  | some rs ↦ send_all rs f s
]

-- what stands for the parts that the repository takes from its libraries: HMAC-SHA256 and the JSON
-- decoder, at each type that is decoded (`none` is an error)
pub record SubscribeData : Type 0 where
  pub channel : Text
  pub auth : Text
  pub channel_data : Text

pub record ClientEvent : Type 0 where
  pub event : Text
  pub channel : Text
  pub body : Text

pub record SigninData : Type 0 where
  pub user_data : Text
  pub auth : Text

-- `user_id` decodes AuthDataUserData to its ID, and `member` a member of a presence channel: there
-- `none` is the nil pointer that the JSON text null, or an error, leaves.
pub record Codec : Type 0 where
  pub hmac : Text → Text → Text
  pub event_name : Text → Option Text
  pub subscribe : Text → Option SubscribeData
  pub unsubscribe : Text → Option Text
  pub signin : Text → Option SigninData
  pub user_id : Text → Option (Option Text)
  pub client_event : Text → Option ClientEvent
  pub member : Text → Option MemberData
