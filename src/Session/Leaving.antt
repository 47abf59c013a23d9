-- ===== src/Session/Leaving.antt =====
-- Leave of internal/channels.go, and the ends of subscriptions and connections in
-- internal/websocket.go: unsubscribeFromChannel, unsubscribeFromAllChannels, closeConnection, Cleanup;
-- TerminateUserConnections of internal/namespace.go and CloseAllLocalSockets of internal/server.go.
use pusher.Prelude.{
  ℕ, true, false, Option, none, some, [], ◌∷◌, if◌then◌else◌, eqb, is_nil, is_some, Text, codes,
  ◌==◌, Map, get, del, ◌>>=◌,
}
use pusher.App.{App}
use pusher.Channel.{Channel}
use pusher.LocalAdapter
use pusher.LocalAdapter.{Adapter, namespace}
use pusher.Queue
use pusher.Queue.{Job}
use pusher.FlapDetector.{Detector}
use pusher.Session.Joining.{is_presence}
use pusher.Session.World.{
  World, Act, ErrorCode, unauthorized_connection, server_shutting_down, write, send, broadcast,
  channel_event, error_frame, user, failure,
}
use pusher.Socket.{WebSocket, MemberData, Ref, absent, entries, presence_data_for_channel}

-- delete(m, k); of no effect on the nil map
abbrev pub del_entry {ℓ} : {V : Type ℓ} → Text → Option (Map V) → Option (Map V)
del_entry k none = none
del_entry k (some m) = some (del m k)

-- Leave: the adapter afterwards, the connections that remain and the member
unfoldable pub leave : Channel → Ref → World → Option (World × ℕ × Option MemberData)
leave c r s = do
  (l, k) ← LocalAdapter.remove_from_channel c.app.id (c.name ∷ []) (s.heap r).id s.adapter
  some (
    record s { adapter = l },
    LocalAdapter.channel_sockets_count l c.app.id c.name,
    if is_presence c.kind then presence_data_for_channel (s.heap r) c.name else none,
  )

abbrev pub on_detector : (Detector Job → Detector Job) → World → World
on_detector f s = record s { detector = f s.detector }

-- the end of unsubscribeFromChannel: the vacated event, and the channel's entry
unfoldable pub drop_subscription : Channel → Ref → ℕ → Act
drop_subscription c r remaining s =
    let dropped =
      write r (λ w. record w { subscribed_channels = del_entry c.name w.subscribed_channels }) in
    if eqb remaining 0
    then (do
      app ← (s.heap r).app
      some (dropped (on_detector (Queue.send_channel_vacated true app c.name) s)))
    else some (dropped s)

-- the last socket of the user is gone: webhook and event
unfoldable pub announce_removed : App → Channel → Ref → Text → World → World
announce_removed app c r user_id s =
    broadcast app.id c.name
      (channel_event (codes "pusher_internal:member_removed") c.name (user user_id) [])
      (s.heap r).id (on_detector (Queue.send_member_removed true app c.name user_id) s)

-- the presence part of unsubscribeFromChannel: with no member it returns at once, and the entry of
-- SubscribedChannels stays
unfoldable pub leave_presence : Channel → Ref → ℕ → Option MemberData → Act
leave_presence c r remaining member s = do
  app ← (s.heap r).app
  let s' = write r (λ w. record w { presence_data = del_entry c.name w.presence_data }) s
  let members = LocalAdapter.channel_members s'.heap s'.adapter app.id c.name
  elim member [
    | none ↦ some s'
    | some m ↦
        drop_subscription c r remaining
          (if is_some (get members m.user_id) then s' else announce_removed app c r m.user_id s')
  ]

unfoldable pub unsubscribe_from_channel : Channel → Ref → Act
unsubscribe_from_channel c r s = do
  (s1, remaining, member) ← leave c r s
  if is_presence c.kind
      then leave_presence c r remaining member s1
      else drop_subscription c r remaining s1

unfoldable pub unsubscribe_each : Map Channel → Ref → Act
unsubscribe_each [] r s = some s
unsubscribe_each ((k, c) ∷ cs) r s = do
  s' ← unsubscribe_from_channel c r s
  unsubscribe_each cs r s'

unfoldable pub unsubscribe_from_all_channels : Ref → Act
unsubscribe_from_all_channels r s = do
  s' ← unsubscribe_each (entries (s.heap r).subscribed_channels) r s
  some (write r (λ w. record w { subscribed_channels = none }) s')

-- Cleanup
abbrev pub cleaned : WebSocket
cleaned = record {
  id = [];
  app = none;
  subscribed_channels = none;
  presence_data = none;
  connected = false;
  closed = true;
  attached = false;
  user_id = [];
  user_auth_channel = absent;
  user_has_authorized = false;
}

-- the adapter's part of closeConnection
unfoldable pub detach : Ref → Act
detach r s =
    let w = s.heap r in
    elim w.app [
      | none ↦ some s
      | some app ↦
          if w.attached
          then (do
            l ← LocalAdapter.remove_socket s.heap app.id w.id s.adapter
            some (record s { adapter = l }))
          else some s
    ]

unfoldable pub sign_out : Ref → Act
sign_out r s =
    let w = s.heap r in
    if is_nil w.user_id then some s else do
      app ← w.app
      (l, e) ← if w.attached then LocalAdapter.remove_user s.heap app.id r s.adapter else none
      some (record s { adapter = l })

-- the farewell and the closing of the connection; where that fails `conn` stays
unfoldable pub hang_up : Ref → ErrorCode → World → World
hang_up r code s =
    let s' = send r (error_frame code (codes "closing connection")) s in
    let gone = write r (λ w. record w { connected = false }) s' in
    if (s.heap r).connected then (if s'.closable r then gone else s') else s

unfoldable pub close_connection : Ref → ErrorCode → Act
close_connection r code s = do
  s1 ← unsubscribe_from_all_channels r s
  s2 ← detach r s1
  s3 ← sign_out r s2
  let s4 = hang_up r code s3
  some (if (s4.heap r).closed then s4 else write r (λ w. cleaned) s4)

-- TerminateUserConnections: the loop over the sockets
unfoldable pub terminate_each : Text → Map Ref → Act
terminate_each user_id [] s = some s
terminate_each user_id ((id, r) ∷ rest) s = do
  s' ←
      if (s.heap r).user_id == user_id
      then close_connection r unauthorized_connection (
          send r
            (channel_event (codes "pusher:error") []
              (failure unauthorized_connection (codes "You have been disconnected by the app")) [])
            s)
      else some s
  terminate_each user_id rest s'

unfoldable pub terminate_user_connections : Text → Text → Act
terminate_user_connections app user_id s =
    terminate_each user_id (LocalAdapter.sockets s.adapter app) s

-- CloseAllLocalSockets, the closing goroutines one after the other
unfoldable pub close_each : Map Ref → Act
close_each [] s = some s
close_each ((id, r) ∷ rest) s = do
  s' ← close_connection r server_shutting_down s
  close_each rest s'
