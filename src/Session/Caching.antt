-- ===== src/Session/Caching.antt =====
-- What internal/websocket.go writes to a connection that subscribes to a cache channel.
use pusher.Prelude.{
  ℕ, ◌≡◌, refl, ap, ◌∙◌, true, false, ◌&&◌, not, Option, none, some, [], ◌∷◌, ◌++◌, append_assoc,
  if◌then◌else◌, if_both, arith, eqb, eqb_self, is_nil, Text, Map, >>=-some,
}
use pusher.App.{App}
use pusher.Auth.{validate_channel_auth}
use pusher.Cache
use pusher.Channel.{Channel, create_channel}
use pusher.ChannelName.{validate_channel_name}
use pusher.FlapDetector.{Detector}
use pusher.LocalAdapter.{namespace}
use pusher.Namespace.{Namespace}
use pusher.Queue
use pusher.Queue.{Job}
use pusher.Session.Granted.{join-accepted, request_passed, note_channel-noted, noted}
use pusher.Session.Joining.{is_presence}
use pusher.Session.Leaving.{on_detector}
use pusher.Session.Refusals.{create_channel-fields, is_own_channel}
use pusher.Session.Requests.{
  subscribe, subscribed, handle_subscribe_request, send_cache_if_needed, signal_authenticated,
  signal, note_channel, member_user, waits,
}
use pusher.Session.World.{
  World, Frame, Codec, SubscribeData, write, send, subscription_succeeded, empty_object, cached,
}
use pusher.Socket.{WebSocket, MemberData, Ref}

-- The connection can be written to.
pub record CanWrite (r : Ref) (s : World) : Type 0 where
  pub closed : (s.heap r).closed ≡ false
  pub connected : (s.heap r).connected ≡ true
  pub reachable : s.reachable r ≡ true

-- nothing is written, and what decides the next frames is as before
record Still (r : Ref) (s t : World) : Type 0 where
  frames : t.frames ≡ s.frames
  cache : t.cache ≡ s.cache
  clock : t.now ≡ s.now
  closed : (t.heap r).closed ≡ (s.heap r).closed
  connected : (t.heap r).connected ≡ (s.heap r).connected
  reachable : t.reachable ≡ s.reachable

Still-refl : (r : Ref) (s : World) → Still r s s
Still-refl r s = record {
  frames = refl;
  cache = refl;
  clock = refl;
  closed = refl;
  connected = refl;
  reachable = refl;
}

Still-trans : {r : Ref} {s t u : World} → Still r s t → Still r t u → Still r s u
Still-trans a b = record {
  frames = b.frames ∙ a.frames;
  cache = b.cache ∙ a.cache;
  clock = b.clock ∙ a.clock;
  closed = b.closed ∙ a.closed;
  connected = b.connected ∙ a.connected;
  reachable = b.reachable ∙ a.reachable;
}

Still-CanWrite : {r : Ref} {s t : World} → Still r s t → CanWrite r s → CanWrite r t
Still-CanWrite {r} k w = record {
  closed = k.closed ∙ w.closed;
  connected = k.connected ∙ w.connected;
  reachable = ap (λ f. f r) k.reachable ∙ w.reachable;
}

-- changes of the object that leave it open
write-Still :
    (r : Ref) (f : WebSocket → WebSocket) (s : World)
    → (f (s.heap r)).closed ≡ (s.heap r).closed
    → (f (s.heap r)).connected ≡ (s.heap r).connected
    → Still r s (write r f s)
write-Still r f s c n = record {
  frames = refl;
  cache = refl;
  clock = refl;
  closed = rw (eqb_self r) c;
  connected = rw (eqb_self r) n;
  reachable = refl;
}

signal-open :
    (w : WebSocket) → ((signal w).closed ≡ w.closed) × ((signal w).connected ≡ w.connected)
signal-open w = (ground arith, ground arith)

signal_authenticated-Still : (r : Ref) (s : World) → Still r s (signal_authenticated r s)
unfolding signal_authenticated
signal_authenticated-Still r s = let (c, n) = signal-open (s.heap r) in write-Still r signal s c n

detector-Still :
    (r : Ref) (f : Detector Job → Detector Job) (s : World) → Still r s (on_detector f s)
detector-Still r f s = record {
  frames = refl;
  cache = refl;
  clock = refl;
  closed = refl;
  connected = refl;
  reachable = refl;
}

send-CanWrite :
    (r : Ref) (f : Frame) (s : World)
    → CanWrite r s
    → send r f s ≡ record s { frames = s.frames ++ (r, f) ∷ [] }
unfolding send
send-CanWrite r f s w = rw (w.closed, w.connected, w.reachable) refl

-- the two frames
success_and_cached :
    (app : App) (c : Channel) (r : Ref) (text : Text) (s : World)
    → CanWrite r s
    → c.is_cache ≡ true
    → Cache.lookup s.now s.cache (Cache.channel_cache_key app.id c.name) ≡ some text
    → (send_cache_if_needed app c r (send r (subscription_succeeded c.name empty_object) s)).frames
      ≡ s.frames ++ (r, subscription_succeeded c.name empty_object) ∷ (r, cached text) ∷ []
unfolding send_cache_if_needed
success_and_cached app c r text s w flag hit =
    let f = subscription_succeeded c.name empty_object in
    let s1 : World = record s { frames = s.frames ++ (r, f) ∷ [] } in
    let w1 : CanWrite r s1 = record {
      closed = w.closed;
      connected = w.connected;
      reachable = w.reachable;
    } in
    ap (λ x. (send_cache_if_needed app c r x).frames) (send-CanWrite r f s w)
    ∙ simp (flag, hit) (ap (λ (x : World). x.frames) (send-CanWrite r (cached text) s1 w1))
    ∙ append_assoc s.frames ((r, f) ∷ []) ((r, cached text) ∷ [])

-- handleSubscribeRequest after a granted Join of a cache channel with an entry
subscribed_frames :
    (app : App) (c : Channel) (r : Ref) (k : ℕ) (m : Option MemberData) (text : Text) (s : World)
    (table : Map Channel)
    → is_presence c.kind ≡ false
    → (s.heap r).subscribed_channels ≡ some table
    → CanWrite r s
    → c.is_cache ≡ true
    → Cache.lookup s.now s.cache (Cache.channel_cache_key app.id c.name) ≡ some text
    → (t : World) × (subscribed app c r k m s ≡ some (t, none))
      × (t.frames
          ≡ s.frames ++ (r, subscription_succeeded c.name empty_object) ∷ (r, cached text) ∷ [])
unfolding subscribed
subscribed_frames app c r k m text s table plain has_table w flag hit =
    let note : WebSocket → WebSocket =
      λ x. record x { subscribed_channels = some (noted table c) } in
    let s1 = write r note s in
    let v = s1.heap r in
    let needs_auth = c.requires_auth && not v.user_has_authorized && waits v.user_auth_channel in
    let named = if is_nil v.user_id then record v { user_id = member_user m } else v in
    let s2 = if needs_auth then signal_authenticated r (write r (λ x. named) s1) else s1 in
    let k1 : Still r s s1 = write-Still r note s refl refl in
    let named_open : (named.closed ≡ v.closed) × (named.connected ≡ v.connected) =
      (ground arith, ground arith) in
    let k2 : Still r s1 s2 =
      if_both needs_auth (Still r s1)
        (Still-trans (write-Still r (λ x. named) s1 named_open.0 named_open.1)
          (signal_authenticated-Still r _))
        (Still-refl r s1) in
    let s3 = if eqb k 1 then on_detector (Queue.send_channel_occupied true app c.name) s2 else s2 in
    let k3 : Still r s2 s3 =
      if_both (eqb k 1) (Still r s2)
        (detector-Still r (Queue.send_channel_occupied true app c.name) s2) (Still-refl r s2) in
    let still = Still-trans k1 (Still-trans k2 k3) in
    let hit3 : Cache.lookup s3.now s3.cache (Cache.channel_cache_key app.id c.name) ≡ some text =
      ap (λ n. Cache.lookup n s3.cache (Cache.channel_cache_key app.id c.name)) still.clock
      ∙ ap (λ x. Cache.lookup s.now x (Cache.channel_cache_key app.id c.name)) still.cache
      ∙ hit in
    let frames = success_and_cached app c r text s3 (Still-CanWrite still w) flag hit3 in
    (
      send_cache_if_needed app c r (send r (subscription_succeeded c.name empty_object) s3),
      >>=-some _ (ap (note_channel c) has_table ∙ note_channel-noted c table) ∙ rw plain refl,
      frames
          ∙ ap (λ l. l ++ (r, subscription_succeeded c.name empty_object) ∷ (r, cached text) ∷ [])
              still.frames,
    )

-- A request to subscribe that is granted, for a cache channel with an entry, is answered by the success
-- and the entry.
pub request_answered :
    (codec : Codec) (msg : Text) (app : App) (r : Ref) (m : SubscribeData) (s : World)
    (n : Namespace) (table : Map Channel) (text : Text)
    → s.closing ≡ false
    → codec.subscribe msg ≡ some m
    → (s.heap r).app ≡ some app
    → is_own_channel s r m.channel ≡ false
    → validate_channel_name m.channel app.max_channel_name_length ≡ none
    → ((create_channel app m.channel).requires_auth
        && not (
            validate_channel_auth codec.hmac m.auth app.secret
              (s.heap r).id
              m.channel
              m.channel_data))
      ≡ false
    → is_presence (create_channel app m.channel).kind ≡ false
    → namespace s.adapter app.id ≡ some n
    → (s.heap r).subscribed_channels ≡ some table
    → CanWrite r s
    → (create_channel app m.channel).is_cache ≡ true
    → Cache.lookup s.now s.cache (Cache.channel_cache_key app.id m.channel) ≡ some text
    → (t : World) × (handle_subscribe_request codec msg r s ≡ some (t, none))
      × (t.frames
          ≡ s.frames ++ (r, subscription_succeeded m.channel empty_object) ∷ (r, cached text) ∷ [])
unfolding subscribe
request_answered codec msg app r m s n table text up parsed of_app other valid ok plain ns has_table
      w flag hit =
    let c = create_channel app m.channel in
    let (a, nm) = create_channel-fields app m.channel in
    let (l, k, granted, members) = join-accepted codec c r m s n (rw (a, nm) ok) plain (rw a ns) in
    let (t, done, frames) =
      subscribed_frames app c r k none text (record s { adapter = l }) table plain has_table
        (record { closed = w.closed; connected = w.connected; reachable = w.reachable }) flag
        (ap (λ x. Cache.lookup s.now s.cache (Cache.channel_cache_key app.id x)) nm ∙ hit) in
    (
      t,
      request_passed codec msg app r m s up parsed of_app other
          ∙ rw (valid, subscribe, ap (λ p. p.1) granted, ap (λ p. p.0) granted) done,
      frames
          ∙ ap (λ x. s.frames ++ (r, subscription_succeeded x empty_object) ∷ (r, cached text) ∷ [])
              nm,
    )
