-- ===== src/Session/Events.antt =====
-- Client events of internal/websocket.go: whom they do not reach, and whom they do.
use pusher.Prelude.{
  ◌≡◌, refl, sym, ap, ◌∙◌, true, false, ◌&&◌, not, ◌⊎◌, inl, inr, Option, none, some, List, [], ◌∷◌,
  ◌++◌, append-nil, append_assoc, arith, is_some, Text, codes, ◌==◌, get, Option-cases,
}
use pusher.App.{App}
use pusher.Channel.{Channel}
use pusher.LocalAdapter
use pusher.LocalAdapter.{Adapter, joined, refused, namespace}
use pusher.Namespace
use pusher.Namespace.{Namespace}
use pusher.Queue.{Job}
use pusher.Session.Messages.{handle_client_event, channel_error, event_problem}
use pusher.Session.World.{
  World, ErrorCode, Frame, Codec, ClientEvent, send, client_event_rejected, not_subscribed,
}
use pusher.ChannelName.{server_to_user_prefix}
use pusher.LocalAdapter.Delivery.{send_reaches}
use pusher.Queue
use pusher.Session.Leaving.{on_detector}
use pusher.Session.Messages.{relay, sender_id}
use pusher.Session.World.{broadcast, send_all, channel_event, raw}
use pusher.Prelude.{◌↔◌, Occurs, is_nil, has_prefix}
use pusher.Socket.{Ref, entries}
use pusher.Session.Quiet.{Quiet, Quiet-refl, send-Quiet}

-- A client event that the client may not send reaches nobody: if the connection is not subscribed to
-- the channel, the event breaks one of the app's limits, or the adapter does not have the connection
-- in the channel, then no other connection is written to or changed, and the adapter, the cache and
-- the webhooks stay as they are.
pub handle_client_event-Quiet :
    (codec : Codec) (msg : Text) (r : Ref) (s : World) (app : App) (e : ClientEvent)
    → codec.client_event msg ≡ some e
    → (s.heap r).app ≡ some app
    → (get (entries (s.heap r).subscribed_channels) e.channel ≡ none)
      ⊎ (is_some (event_problem app e.event msg) ≡ true)
      ⊎ (LocalAdapter.is_in_channel s.adapter app.id e.channel (s.heap r).id ≡ false)
    → (t : World) × (error : Option ErrorCode) × (handle_client_event codec msg r s
        ≡ some (t, error))
      × Quiet r s t
unfolding handle_client_event
handle_client_event-Quiet codec msg r s app e parsed of_app why =
    elim (Option-cases (get (entries (s.heap r).subscribed_channels) e.channel)) [
      | inl f ↦ (
        channel_error e.channel client_event_rejected (codes "Client is not subscribed") r s,
        none,
        rw (parsed, handle_client_event, f) refl,
        send-Quiet r _ s,
      )
      | inr (c, f) ↦ elim (Option-cases (event_problem app e.event msg)) [
        | inr (p, g) ↦ (
          channel_error e.channel client_event_rejected p r s,
          some client_event_rejected,
          ground (arith, parsed, f, of_app, g),
          send-Quiet r _ s,
        )
        | inl g ↦
            let out : LocalAdapter.is_in_channel s.adapter app.id e.channel (s.heap r).id ≡ false =
              ground (arith, why, f, g) in
            (s, some not_subscribed, ground (arith, parsed, f, of_app, g, out), Quiet-refl r s)
      ]
    ]

-- the frame to each of the connections
unfoldable pub to_each : List Ref → Frame → List (Ref × Frame)
to_each [] f = []
to_each (q ∷ qs) f = (q, f) ∷ to_each qs f

-- every connection can be written to
pub record IsOpen (s : World) : Type 0 where
  pub closed : (q : Ref) → (s.heap q).closed ≡ false
  pub connected : (q : Ref) → (s.heap q).connected ≡ true
  pub reachable : (q : Ref) → s.reachable q ≡ true

send-IsOpen :
    (q : Ref) (f : Frame) (s : World)
    → IsOpen s
    → send q f s ≡ record s { frames = s.frames ++ (q, f) ∷ [] }
unfolding send
send-IsOpen q f s o = rw (o.closed q, o.connected q, o.reachable q) refl

pub send_all-IsOpen :
    (qs : List Ref) (f : Frame) (s : World)
    → IsOpen s
    → send_all qs f s ≡ record s { frames = s.frames ++ to_each qs f }
unfolding send_all to_each
send_all-IsOpen [] f s o = ap (λ l. record s { frames = l }) (sym (append-nil s.frames))
send_all-IsOpen (q ∷ qs) f s o =
    let s1 : World = record s { frames = s.frames ++ (q, f) ∷ [] } in
    let o1 : IsOpen s1 = record {
      closed = o.closed;
      connected = o.connected;
      reachable = o.reachable;
    } in
    ap (send_all qs f) (send-IsOpen q f s o)
    ∙ send_all-IsOpen qs f s1 o1
    ∙ ap (λ l. record s { frames = l }) (append_assoc s.frames ((q, f) ∷ []) (to_each qs f))

-- With every connection open, a client event that passes all tests, on a channel that is not one of a
-- single user, is written once to each of a list of connections, in which are exactly the connections
-- that the app has in the channel under another id than the sender's (all of them, if that is empty);
-- nothing else is written, and the event goes to the webhooks with the sender's user id.
pub handle_client_event-relays :
    (codec : Codec) (msg : Text) (r : Ref) (s : World) (app : App) (e : ClientEvent) (c : Channel)
    (n : Namespace) (user : Text) (q : Ref)
    → codec.client_event msg ≡ some e
    → (s.heap r).app ≡ some app
    → get (entries (s.heap r).subscribed_channels) e.channel ≡ some c
    → event_problem app e.event msg ≡ none
    → namespace s.adapter app.id ≡ some n
    → LocalAdapter.is_in_channel s.adapter app.id e.channel (s.heap r).id ≡ true
    → sender_id c e.channel (s.heap r) ≡ some user
    → has_prefix e.channel server_to_user_prefix ≡ false
    → IsOpen s
    → (t : World) × (found : List Ref) × (handle_client_event codec msg r s ≡ some (t, none))
      × (t.frames ≡ s.frames ++ to_each found (channel_event e.event e.channel (raw e.body) user))
      × (t.detector
          ≡ Queue.send_client_event true app e.channel e.event e.body (s.heap r).id user s.detector)
      × (Occurs q found ↔ (
          (id : Text) × (Namespace.is_in_channel n id e.channel ≡ true)
          × (get n.sockets id ≡ some q)
          × ((not (is_nil (s.heap r).id) && id == (s.heap r).id) ≡ false)))
unfolding handle_client_event relay broadcast
handle_client_event-relays codec msg r s app e c n user q parsed of_app sub fine ns inside sender
      plain all_open =
    let (found, sent, reach) = send_reaches s.adapter app.id e.channel (s.heap r).id n q ns plain in
    let f = channel_event e.event e.channel (raw e.body) user in
    let b : broadcast app.id e.channel f (s.heap r).id s
        ≡ record s { frames = s.frames ++ to_each found f } =
      ap (λ o. elim o [ none ↦ s | some rs ↦ send_all rs f s ]) sent
      ∙ send_all-IsOpen found f s all_open in
    let h = Queue.send_client_event true app e.channel e.event e.body (s.heap r).id user in
    (
      on_detector h (record s { frames = s.frames ++ to_each found f }),
      found,
      ground (arith, parsed, of_app, sub, fine, inside, sender, b),
      refl,
      refl,
      reach,
    )
