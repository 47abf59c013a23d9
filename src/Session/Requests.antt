-- ===== src/Session/Requests.antt =====
-- The handlers of internal/websocket.go for what a client sends: subscribe, unsubscribe, sign in and
-- client events, and parseIncomingPayload, which chooses among them.
use pusher.Prelude.{
  ℕ, Bool, true, false, ◌&&◌, not, Option, none, some, List, [], ◌∷◌, ◌++◌, if◌then◌else◌, eqb,
  is_nil, is_some, length, Text, codes, ◌==◌, Map, get, put, ◌>>=◌,
}
use pusher.App.{App}
use pusher.Cache
use pusher.Channel.{Channel, create_channel}
use pusher.ChannelName.{
  server_to_user_prefix, validate_channel_name, NameError, name_too_long, invalid_characters,
}
use pusher.LocalAdapter
use pusher.Queue
use pusher.Session.Joining.{join, accepted, rejected, is_presence}
use pusher.Session.Leaving.{on_detector, unsubscribe_from_channel}
use pusher.Session.World.{
  World, ErrorCode, unauthorized_connection, generic_reconnect, invalid_payload, invalid_channel,
  subscription_access_denied, write, send, broadcast, error_frame, subscription_succeeded,
  subscription_error, channel_event, payload, cached, empty_object, presence, member, SubscribeData,
  Codec,
}
use pusher.Socket.{
  WebSocket, MemberData, Ref, AuthChannel, absent, empty_buffer, signalled, entries,
}

-- A handler's result: the state and the error to report, if any; `none` is a panic.
abbrev pub Reply : Type 0
Reply = Option (World × Option ErrorCode)

abbrev pub done : World → Reply
done s = some (s, none)

abbrev pub fail : ErrorCode → World → Reply
fail e s = some (s, some e)

-- the non-blocking send on userAuthChannel
abbrev pub signal : WebSocket → WebSocket
signal w = elim w.user_auth_channel [
  | absent ↦ w
  | empty_buffer ↦ if w.user_has_authorized then w else record w { user_auth_channel = signalled }
  | signalled ↦ w
]

-- signalAuthenticated
unfoldable pub signal_authenticated : Ref → World → World
signal_authenticated r s = write r signal s

-- sendCacheIfNeeded
unfoldable pub send_cache_if_needed : App → Channel → Ref → World → World
send_cache_if_needed app c r s =
    if c.is_cache
    then elim (Cache.lookup s.now s.cache (Cache.channel_cache_key app.id c.name)) [
      | some text ↦ send r (cached text) s
      | none ↦
          on_detector (Queue.send_cache_missed true app c.name)
            (send r (payload (codes "pusher:cache_miss") []) s)
    ]
    else s

-- the loop of sendPresenceSubscriptionSuccess
unfoldable pub presence_ids : Map MemberData → List Text
presence_ids [] = []
presence_ids ((k, m) ∷ rest) = m.user_id ∷ presence_ids rest

unfoldable pub presence_hash : Map MemberData → Map (Map Text)
presence_hash [] = []
presence_hash ((k, m) ∷ rest) = put (presence_hash rest) m.user_id m.user_info

unfoldable pub send_presence_success : Channel → Ref → Map MemberData → World → World
send_presence_success c r members s =
    let ids = presence_ids members in
    send r (subscription_succeeded c.name (presence ids (presence_hash members) (length ids))) s

-- handleMemberAddedEvent: the state, and the members with the new one
unfoldable pub handle_member_added :
    App → Channel → Ref → MemberData → Map MemberData → World → World × Map MemberData
handle_member_added app c r m members s =
    if is_some (get members m.user_id) then (s, members) else (
      broadcast app.id c.name
          (channel_event (codes "pusher_internal:member_added") c.name (member m) []) (s.heap r).id
          (on_detector (Queue.send_member_added true app c.name m.user_id) s),
      put members m.user_id m,
    )

-- handlePresenceChannelSubscription; a nil member is dereferenced
unfoldable pub handle_presence : App → Channel → Ref → Option MemberData → World → Reply
handle_presence app c r none s = none
handle_presence app c r (some m) s = if is_nil m.user_id then fail invalid_payload s else do
  let members = LocalAdapter.channel_members s.heap s.adapter app.id c.name
  table ← (s.heap r).presence_data
  let s1 = write r (λ w. record w { presence_data = some (put table c.name m) }) s
  let (s2, all_members) = handle_member_added app c r m members s1
  done (send_cache_if_needed app c r (send_presence_success c r all_members s2))

-- the subscription is noted, unless it is there; writing to the nil map panics
abbrev pub note_channel : Channel → Option (Map Channel) → Option (Map Channel)
note_channel c none = none
note_channel c (some m) = if is_some (get m c.name) then some m else some (put m c.name c)

abbrev pub waits : AuthChannel → Bool
waits absent = false
waits _ = true

abbrev pub member_user : Option MemberData → Text
member_user none = []
member_user (some m) = m.user_id

-- handleSubscribeRequest after a successful Join
unfoldable pub subscribed : App → Channel → Ref → ℕ → Option MemberData → World → Reply
subscribed app c r connections m s = do
  table ← note_channel c (s.heap r).subscribed_channels
  let s1 = write r (λ w. record w { subscribed_channels = some table }) s
  let w = s1.heap r
  let needs_auth = c.requires_auth && not w.user_has_authorized && waits w.user_auth_channel
  let named = if is_nil w.user_id then record w { user_id = member_user m } else w
  let s2 = if needs_auth then signal_authenticated r (write r (λ x. named) s1) else s1
  let s3 =
      if eqb connections 1 then on_detector (Queue.send_channel_occupied true app c.name) s2 else s2
  if is_presence c.kind
      then handle_presence app c r m s3
      else done
          (send_cache_if_needed app c r (send r (subscription_succeeded c.name empty_object) s3))

abbrev pub message_of : NameError → Text
message_of name_too_long = codes "channel name too long"
message_of invalid_characters = codes "invalid characters in channel name"

abbrev pub is_access_denied : ErrorCode → Bool
is_access_denied subscription_access_denied = true
is_access_denied _ = false

-- handleSubscribeRequest after a refused Join: two frames, and the error
unfoldable pub join_refused : Channel → Ref → ErrorCode → Text → World → Reply
join_refused c r code kind s =
    let s1 = send r (subscription_error c.name kind [] code) s in
    if is_access_denied code
    then fail subscription_access_denied
        (send r (subscription_error c.name (codes "AuthError") [] code) s1)
    else fail generic_reconnect (send r (subscription_error c.name (codes "Unknown") [] code) s1)

unfoldable pub subscribe : Codec → App → Ref → SubscribeData → World → Reply
subscribe codec app r m s = elim (validate_channel_name m.channel app.max_channel_name_length) [
  | some e ↦ fail invalid_channel (send r (error_frame unauthorized_connection (message_of e)) s)
  | none ↦
      let c = create_channel app m.channel in
      let (s1, response) = join codec c r m s in
      elim response [
        | rejected code kind ↦ join_refused c r code kind s1
        | accepted k found ↦ subscribed app c r k found s1
      ]
]

unfoldable pub handle_subscribe_request : Codec → Text → Ref → World → Reply
handle_subscribe_request codec msg r s =
    if s.closing then fail generic_reconnect s else elim (codec.subscribe msg) [
      | none ↦ fail invalid_payload s
      | some m ↦
          if not (is_nil (s.heap r).user_id)
            && m.channel == (server_to_user_prefix ++ (s.heap r).user_id)
          then done (send r (subscription_succeeded m.channel empty_object) s)
          else do app ← (s.heap r).app; subscribe codec app r m s
    ]

unfoldable pub handle_unsubscribe_request : Codec → Text → Ref → World → Reply
handle_unsubscribe_request codec msg r s = elim (codec.unsubscribe msg) [
  | none ↦ fail invalid_payload s
  | some channel ↦ elim (get (entries (s.heap r).subscribed_channels) channel) [
    | none ↦ fail invalid_payload s
    | some c ↦ do s' ← unsubscribe_from_channel c r s; done s'
  ]
]
