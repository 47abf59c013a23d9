-- ===== src/Socket.antt =====
-- internal/websocket.go: the state of one connection (type WebSocket). The server shares these
-- objects by pointers: a `Ref` is such a pointer, and a `Heap` holds what they point to.
use pusher.Prelude.{ℕ, Bool, eqb, if◌then◌else◌, Text, Map, Option, none, some, get, []}
use pusher.App.{App}
use pusher.Channel.{Channel}

-- pusherClient.MemberData
pub record MemberData : Type 0 where
  pub user_id : Text
  pub user_info : Map Text

-- userAuthChannel, a Go channel of capacity 1: nil, or whether a value stands in its buffer
pub data AuthChannel : Type 0 where
  absent empty_buffer signalled : AuthChannel

-- A map field is `none` where it is the nil map, `app` where the pointer is nil. `connected` says
-- that `conn` is not nil, `attached` that `server` is not nil.
pub record WebSocket : Type 0 where
  pub id : Text
  pub app : Option App
  pub subscribed_channels : Option (Map Channel)
  pub presence_data : Option (Map MemberData)
  pub connected : Bool
  pub closed : Bool
  pub attached : Bool
  pub user_id : Text
  pub user_auth_channel : AuthChannel
  pub user_has_authorized : Bool

abbrev pub Ref : Type 0
Ref = ℕ

abbrev pub Heap : Type 0
Heap = Ref → WebSocket

-- the object at `r` is overwritten
abbrev pub update : Heap → Ref → WebSocket → Heap
update h r w q = if eqb r q then w else h q

-- Reading a nil map is reading an empty one.
abbrev pub entries {ℓ} : {V : Type ℓ} → Option (Map V) → Map V
entries none = []
entries (some m) = m

-- getPresenceDataForChannel
unfoldable pub presence_data_for_channel : WebSocket → Text → Option MemberData
presence_data_for_channel w channel = get (entries w.presence_data) channel
