-- ===== src/Session/Messages.antt =====
-- The rest of the handlers of internal/websocket.go: client events, sign-in, parseIncomingPayload,
-- and the authorization timer of WatchForAuthentication.
use pusher.Prelude.{
  ◌/◌, true, not, Option, none, some, [], if◌then◌else◌, is_nil, is_some, length, Text, codes, ◌==◌,
  get, exceeds, ◌>>=◌,
}
use pusher.App.{App}
use pusher.Auth.{signin_token_is_valid}
use pusher.Channel.{Channel}
use pusher.ChannelName.{is_client_event}
use pusher.LocalAdapter
use pusher.Queue
use pusher.Session.Joining.{is_presence}
use pusher.Session.Leaving.{on_detector, close_connection}
use pusher.Session.Requests.{
  Reply, done, fail, signal_authenticated, handle_subscribe_request, handle_unsubscribe_request,
}
use pusher.Session.World.{
  World, Act, ErrorCode, unauthorized_connection, client_event_rejected, invalid_payload,
  not_subscribed, write, send, broadcast, pong, channel_event, payload, raw, failure, ClientEvent,
  Codec,
}
use pusher.Socket.{WebSocket, Ref, absent, empty_buffer, signalled, entries}

-- sendChannelError
abbrev pub channel_error : Text → ErrorCode → Text → Ref → World → World
channel_error channel code message r s =
    send r (channel_event (codes "pusher:error") channel (failure code message) []) s

-- validateClientEvent: the message of the first test that fails
unfoldable pub event_problem : App → Text → Text → Option Text
event_problem app event msg =
    if not app.enable_client_messages
    then some (codes "Client events are disabled for this app")
    else if exceeds (length event) app.max_event_name_length
    then some (codes "Event name is too long")
    else if exceeds (length msg / 1024) app.max_event_payload_in_kb
    then some (codes "Payload is too big")
    else none

-- the user id that goes with the event: that of the presence data in a presence channel, where
-- `none` is that there are none
unfoldable pub sender_id : Channel → Text → WebSocket → Option Text
sender_id c channel w =
    if is_presence c.kind
    then elim (get (entries w.presence_data) channel) [ none ↦ none | some m ↦ some m.user_id ]
    else some []

-- the end of handleClientEvent
unfoldable pub relay : App → Channel → Ref → ClientEvent → World → World
relay app c r e s = elim (sender_id c e.channel (s.heap r)) [
  | none ↦ s
  | some user_id ↦
      on_detector (Queue.send_client_event true app e.channel e.event e.body (s.heap r).id user_id)
        (broadcast app.id e.channel (channel_event e.event e.channel (raw e.body) user_id)
          (s.heap r).id s)
]

unfoldable pub handle_client_event : Codec → Text → Ref → World → Reply
handle_client_event codec msg r s = elim (codec.client_event msg) [
  | none ↦ fail invalid_payload s
  | some e ↦ elim (get (entries (s.heap r).subscribed_channels) e.channel) [
    | none ↦
        done (channel_error e.channel client_event_rejected (codes "Client is not subscribed") r s)
    | some c ↦ do
      app ← (s.heap r).app
      elim (event_problem app e.event msg) [
        | some problem ↦
            fail client_event_rejected (channel_error e.channel client_event_rejected problem r s)
        | none ↦
            if LocalAdapter.is_in_channel s.adapter app.id e.channel (s.heap r).id
            then done (relay app c r e s)
            else fail not_subscribed s
      ]
  ]
]

abbrev pub or_empty : Option Text → Text
or_empty none = []
or_empty (some t) = t

-- handleUserSignin with a valid token
unfoldable pub signed_in : App → Text → Text → Ref → World → Reply
signed_in app user_id user_data r s =
    let s1 = write r (λ w. record w { user_id = user_id }) s in
    let (l, e) = LocalAdapter.add_user s1.heap app.id r s1.adapter in
    let s2 = record s1 { adapter = l } in
    if is_some e
    then fail invalid_payload s2
    else done
        (signal_authenticated r (send r (payload (codes "pusher:signin_success") user_data) s2))

unfoldable pub handle_user_signin : Codec → Text → Ref → World → Reply
handle_user_signin codec msg r s = elim (codec.signin msg) [
  | none ↦ fail invalid_payload s
  | some m ↦ elim (codec.user_id m.user_data) [
    | none ↦ fail invalid_payload s
    | some u ↦ if is_nil (or_empty u) then fail invalid_payload s else do
      app ← (s.heap r).app
      if signin_token_is_valid codec.hmac app.key app.secret (s.heap r).id m.user_data m.auth
          then signed_in app (or_empty u) m.user_data r s
          else do s' ← close_connection r unauthorized_connection s; fail unauthorized_connection s'
  ]
]

-- parseIncomingPayload
unfoldable pub parse_incoming_payload : Codec → Text → Ref → World → Reply
parse_incoming_payload codec msg r s = elim (codec.event_name msg) [
  | none ↦ fail invalid_payload s
  | some name ↦
      if name == codes "pusher:ping"
      then done (send r pong s)
      else if name == codes "pusher:subscribe"
      then handle_subscribe_request codec msg r s
      else if name == codes "pusher:unsubscribe"
      then handle_unsubscribe_request codec msg r s
      else if name == codes "pusher:signin"
      then handle_user_signin codec msg r s
      else if is_client_event name
      then handle_client_event codec msg r s
      else fail client_event_rejected s
]

-- WatchForAuthentication: the channel is made, once
unfoldable pub watch : Ref → World → World
watch r s =
    write r
      (λ w. record w {
        user_auth_channel = elim w.user_auth_channel [
          | absent ↦ empty_buffer
          | empty_buffer ↦ empty_buffer
          | signalled ↦ signalled
        ];
      })
      s

-- its goroutine receives the signal: the channel is closed and forgotten
unfoldable pub authorized : Ref → World → World
authorized r s =
    write r
      (λ w. elim w.user_auth_channel [
        | absent ↦ w
        | empty_buffer ↦ w
        | signalled ↦ record w { user_has_authorized = true; user_auth_channel = absent }
      ])
      s

-- or its timer goes off
unfoldable pub authorization_timeout : Ref → Act
authorization_timeout r s = close_connection r unauthorized_connection s
