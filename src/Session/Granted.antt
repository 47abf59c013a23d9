-- ===== src/Session/Granted.antt =====
-- Subscriptions that internal/websocket.go grants.
use pusher.Prelude.{
  ℕ, ◌≡◌, refl, ap, ◌∙◌, true, false, ◌&&◌, ◌||◌, not, inl, inr, Option, none, some, [],
  if◌then◌else◌, arith, eqb, eqb_self, is_nil, is_some, Text, codes, ◌==◌, eq_refl, Map, get, put,
  get-put, Bool-cases, if_both, >>=-some,
}
use pusher.App.{App}
use pusher.Auth.{validate_channel_auth}
use pusher.Cache
use pusher.Channel.{Channel, create_channel}
use pusher.ChannelName.{validate_channel_name}
use pusher.FlapDetector.{Detector}
use pusher.LocalAdapter
use pusher.LocalAdapter.{Adapter, namespace, store, update_channel_metrics}
use pusher.Namespace
use pusher.Namespace.{Namespace}
use pusher.Namespace.Membership.{add_to_channel_lem}
use pusher.Queue
use pusher.Queue.{Job}
use pusher.Session.Joining.{join, join_plain, accepted, is_presence}
use pusher.Session.Leaving.{on_detector}
use pusher.Session.Refusals.{create_channel-fields, is_own_channel}
use pusher.Session.Requests.{
  subscribe, handle_subscribe_request, subscribed, send_cache_if_needed, signal_authenticated,
  signal, note_channel, member_user, waits,
}
use pusher.Session.World.{
  World, Frame, Codec, SubscribeData, write, send, subscription_succeeded, empty_object, cached,
  payload,
}
use pusher.Socket.{WebSocket, MemberData, Ref, entries}

-- the subscriptions of the connection and the adapter stay as they are
pub record Keeps (r : Ref) (s t : World) : Type 0 where
  pub adapter : t.adapter ≡ s.adapter
  pub subscribed : (t.heap r).subscribed_channels ≡ (s.heap r).subscribed_channels

Keeps-refl : (r : Ref) (s : World) → Keeps r s s
Keeps-refl r s = record { adapter = refl; subscribed = refl }

Keeps-trans : {r : Ref} {s t u : World} → Keeps r s t → Keeps r t u → Keeps r s u
Keeps-trans a b = record {
  adapter = b.adapter ∙ a.adapter;
  subscribed = b.subscribed ∙ a.subscribed;
}

send-Keeps : (r : Ref) (f : Frame) (s : World) → Keeps r s (send r f s)
unfolding send
send-Keeps r f s =
    if_both ((s.heap r).closed || not (s.heap r).connected) (Keeps r s) (Keeps-refl r s) (
      if_both (s.reachable r) (Keeps r s) (record { adapter = refl; subscribed = refl })
        (record { adapter = refl; subscribed = rw (eqb_self r) refl }))

signal-subscribed : (w : WebSocket) → (signal w).subscribed_channels ≡ w.subscribed_channels
signal-subscribed w = ground arith

signal_authenticated-Keeps : (r : Ref) (s : World) → Keeps r s (signal_authenticated r s)
unfolding signal_authenticated
signal_authenticated-Keeps r s = record {
  adapter = refl;
  subscribed = rw (eqb_self r) (signal-subscribed (s.heap r));
}

detector-Keeps :
    (r : Ref) (f : Detector Job → Detector Job) (s : World) → Keeps r s (on_detector f s)
detector-Keeps r f s = record { adapter = refl; subscribed = refl }

-- the two cases of a cache channel
cached_or_missed :
    (app : App) (c : Channel) (r : Ref) (s : World) (o : Option Text)
    → Keeps r s (elim o [
      | some text ↦ send r (cached text) s
      | none ↦
          on_detector
            (Queue.send_cache_missed true app c.name)
            (send r (payload (codes "pusher:cache_miss") []) s)
    ])
cached_or_missed app c r s (some text) = send-Keeps r (cached text) s
cached_or_missed app c r s none =
    Keeps-trans (send-Keeps r _ s) (detector-Keeps r (Queue.send_cache_missed true app c.name) _)

send_cache_if_needed-Keeps :
    (app : App) (c : Channel) (r : Ref) (s : World) → Keeps r s (send_cache_if_needed app c r s)
unfolding send_cache_if_needed
send_cache_if_needed-Keeps app c r s =
    if_both c.is_cache (Keeps r s)
      (cached_or_missed app c r s
        (Cache.lookup s.now s.cache (Cache.channel_cache_key app.id c.name)))
      (Keeps-refl r s)

-- the user id that a subscription may bring
name-Keeps :
    (r : Ref) (u : Text) (s : World)
    → Keeps r s (
        write r
          (λ x. if is_nil (s.heap r).user_id then record (s.heap r) { user_id = u } else s.heap r)
          s)
name-Keeps r u s = record { adapter = refl; subscribed = rw (eqb_self r) (ground arith) }

-- the subscriptions with the channel
abbrev pub noted : Map Channel → Channel → Map Channel
noted table c = if is_some (get table c.name) then table else put table c.name c

pub note_channel-noted :
    (c : Channel) (table : Map Channel) → note_channel c (some table) ≡ some (noted table c)
note_channel-noted c table = elim (Bool-cases (is_some (get table c.name))) [
  | inl y ↦ rw y refl
  | inr n ↦ rw n refl
]

-- what handleSubscribeRequest does after it has noted a channel that is no presence channel
finished :
    (app : App) (c : Channel) (r : Ref) (k : ℕ) (m : Option MemberData) (s1 : World)
    → is_presence c.kind ≡ false
    → (t : World) × ((let w = s1.heap r in
          let needs_auth =
            c.requires_auth && not w.user_has_authorized && waits w.user_auth_channel in
          let named = if is_nil w.user_id then record w { user_id = member_user m } else w in
          let s2 = if needs_auth then signal_authenticated r (write r (λ x. named) s1) else s1 in
          let s3 =
            if eqb k 1 then on_detector (Queue.send_channel_occupied true app c.name) s2 else s2 in
          send_cache_if_needed app c r (send r (subscription_succeeded c.name empty_object) s3))
        ≡ t)
      × Keeps r s1 t
finished app c r k m s1 plain =
    let w = s1.heap r in
    let needs_auth = c.requires_auth && not w.user_has_authorized && waits w.user_auth_channel in
    let named = if is_nil w.user_id then record w { user_id = member_user m } else w in
    let s2 = if needs_auth then signal_authenticated r (write r (λ x. named) s1) else s1 in
    let k2 : Keeps r s1 s2 =
      if_both needs_auth (Keeps r s1)
        (Keeps-trans (name-Keeps r (member_user m) s1) (signal_authenticated-Keeps r _))
        (Keeps-refl r s1) in
    let s3 = if eqb k 1 then on_detector (Queue.send_channel_occupied true app c.name) s2 else s2 in
    let k3 : Keeps r s2 s3 =
      if_both (eqb k 1) (Keeps r s2)
        (detector-Keeps r (Queue.send_channel_occupied true app c.name) s2) (Keeps-refl r s2) in
    let s4 = send r (subscription_succeeded c.name empty_object) s3 in
    (
      send_cache_if_needed app c r s4,
      refl,
      Keeps-trans k2 (
          Keeps-trans k3 (Keeps-trans (send-Keeps r _ s3) (send_cache_if_needed-Keeps app c r s4))),
    )

-- After a granted Join of a channel that is no presence channel the entry is noted, and nothing else
-- of the subscriptions changes.
subscribed-notes :
    (app : App) (c : Channel) (r : Ref) (k : ℕ) (m : Option MemberData) (s : World)
    (table : Map Channel)
    → is_presence c.kind ≡ false
    → (s.heap r).subscribed_channels ≡ some table
    → (t : World) × (subscribed app c r k m s ≡ some (t, none))
      × (t.adapter ≡ s.adapter)
      × ((t.heap r).subscribed_channels ≡ some (noted table c))
unfolding subscribed
subscribed-notes app c r k m s table plain has_table =
    let s1 = write r (λ w. record w { subscribed_channels = some (noted table c) }) s in
    let (t, e, keeps) = finished app c r k m s1 plain in
    (
      t,
      >>=-some _ (ap (note_channel c) has_table ∙ note_channel-noted c table)
          ∙ rw plain (ap (λ x. some (x, none)) e),
      keeps.adapter,
      keeps.subscribed ∙ rw (eqb_self r) refl,
    )

-- Join of a channel that is no presence channel, with a token that is accepted or not needed
pub join-accepted :
    (codec : Codec) (c : Channel) (r : Ref) (m : SubscribeData) (s : World) (n : Namespace)
    → (c.requires_auth
        && not (
            validate_channel_auth codec.hmac m.auth c.app.secret
              (s.heap r).id
              c.name
              m.channel_data))
      ≡ false
    → is_presence c.kind ≡ false
    → namespace s.adapter c.app.id ≡ some n
    → (l : Adapter) × (k : ℕ) × (join codec c r m s ≡ (record s { adapter = l }, accepted k none))
      × ((j d : Text)
          → LocalAdapter.is_in_channel l c.app.id d j ≡ (
              c.name == d && (s.heap r).id == j
              || LocalAdapter.is_in_channel s.adapter c.app.id d j))
unfolding join join_plain LocalAdapter.add_to_channel LocalAdapter.is_in_channel
    update_channel_metrics
join-accepted codec c r m s n ok plain ns =
    let n' = (Namespace.add_to_channel s.heap r c.name n).0 in
    (
      update_channel_metrics (store s.adapter c.app.id n') c.app.id,
      (Namespace.add_to_channel s.heap r c.name n).1,
      ground (arith, ok, plain, ns),
      λ j d. ground (
        arith,
        ns,
        get-put (entries s.adapter.namespaces) c.app.id n' c.app.id,
        eq_refl c.app.id,
        add_to_channel_lem s.heap r c.name n j d,
      ),
    )

-- the same for what follows once the request has been read
granted_tail :
    (codec : Codec) (app : App) (r : Ref) (m : SubscribeData) (s : World) (n : Namespace)
    (table : Map Channel)
    → validate_channel_name m.channel app.max_channel_name_length ≡ none
    → ((create_channel app m.channel).requires_auth
        && not (
            validate_channel_auth codec.hmac m.auth app.secret
              (s.heap r).id
              m.channel
              m.channel_data))
      ≡ false
    → is_presence (create_channel app m.channel).kind ≡ false
    → namespace s.adapter app.id ≡ some n
    → (s.heap r).subscribed_channels ≡ some table
    → (t : World) × (subscribe codec app r m s ≡ some (t, none))
      × ((j d : Text)
          → LocalAdapter.is_in_channel t.adapter app.id d j ≡ (
              m.channel == d && (s.heap r).id == j
              || LocalAdapter.is_in_channel s.adapter app.id d j))
      × ((t.heap r).subscribed_channels ≡ some (noted table (create_channel app m.channel)))
unfolding subscribe
granted_tail codec app r m s n table valid ok plain ns has_table =
    let c = create_channel app m.channel in
    let (a, nm) = create_channel-fields app m.channel in
    let (l, k, granted, members) = join-accepted codec c r m s n (rw (a, nm) ok) plain (rw a ns) in
    let (t, done, same, subs) =
      subscribed-notes app c r k none (record s { adapter = l }) table plain has_table in
    (
      t,
      rw (valid, subscribe, ap (λ p. p.1) granted, ap (λ p. p.0) granted) done,
      λ j d. ap (λ x. LocalAdapter.is_in_channel x app.id d j) same ∙ (rw (a, nm) at members j d),
      subs,
    )

-- a request that handleSubscribeRequest passes on
pub request_passed :
    (codec : Codec) (msg : Text) (app : App) (r : Ref) (m : SubscribeData) (s : World)
    → s.closing ≡ false
    → codec.subscribe msg ≡ some m
    → (s.heap r).app ≡ some app
    → is_own_channel s r m.channel ≡ false
    → handle_subscribe_request codec msg r s ≡ subscribe codec app r m s
unfolding handle_subscribe_request
request_passed codec msg app r m s up parsed of_app other = simp (up, parsed, of_app, other)

-- While the server is not closing, a request to subscribe to a channel that is neither a presence
-- channel nor the one of the connection's own user, with a valid name and a token that is accepted or not
-- needed, for a connection of an app that has a namespace, is granted: the connection is in the
-- channel for the adapter, no other membership changes, and the connection notes the channel and keeps
-- its other subscriptions.
pub subscribe_granted :
    (codec : Codec) (msg : Text) (app : App) (r : Ref) (m : SubscribeData) (s : World)
    (n : Namespace) (table : Map Channel)
    → s.closing ≡ false
    → codec.subscribe msg ≡ some m
    → (s.heap r).app ≡ some app
    → is_own_channel s r m.channel ≡ false
    → validate_channel_name m.channel app.max_channel_name_length ≡ none
    → ((create_channel app m.channel).requires_auth
        && not (
            validate_channel_auth codec.hmac m.auth app.secret
              (s.heap r).id
              m.channel
              m.channel_data))
      ≡ false
    → is_presence (create_channel app m.channel).kind ≡ false
    → namespace s.adapter app.id ≡ some n
    → (s.heap r).subscribed_channels ≡ some table
    → (t : World) × (handle_subscribe_request codec msg r s ≡ some (t, none))
      × ((j d : Text)
          → LocalAdapter.is_in_channel t.adapter app.id d j ≡ (
              m.channel == d && (s.heap r).id == j
              || LocalAdapter.is_in_channel s.adapter app.id d j))
      × ((t.heap r).subscribed_channels ≡ some (noted table (create_channel app m.channel)))
subscribe_granted codec msg app r m s n table up parsed of_app other valid ok plain ns has_table =
    let (t, done, members, subs) =
      granted_tail codec app r m s n table valid ok plain ns has_table in
    (t, request_passed codec msg app r m s up parsed of_app other ∙ done, members, subs)
