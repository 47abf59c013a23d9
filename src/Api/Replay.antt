-- ===== src/Api/Replay.antt =====
-- Events on cache channels: what internal/apiEvents.go keeps, and internal/websocket.go sends to a new
-- subscriber.
use pusher.Prelude.{
  ℕ, ◌+◌, ◌<◌, ◌≡◌, refl, sym, ap, ◌∙◌, true, false, ◌&&◌, not, none, some, List, Map, [], ◌∷◌,
  ◌++◌, arith, if◌then◌else◌, Text, ◌==◌, eq_iff, contains, lacks, Option-cases, Bool-cases, inl,
  inr,
}
use pusher.App.{App}
use pusher.Cache.{channel_cache_key, lookup}
use pusher.Cache.Laws.{lookup-writes, channel_cache_key_injective}
use pusher.Channel.{create_channel}
use pusher.Channel.Classes.{is_cache-is_cache_channel}
use pusher.ChannelName.{is_cache_channel}
use pusher.LocalAdapter
use pusher.Auth.{validate_channel_auth}
use pusher.Channel.{Channel}
use pusher.ChannelName.{validate_channel_name}
use pusher.LocalAdapter.{namespace}
use pusher.Namespace.{Namespace}
use pusher.Session.Caching.{CanWrite, request_answered}
use pusher.Session.Joining.{is_presence}
use pusher.Session.Refusals.{is_own_channel}
use pusher.Session.Requests.{handle_subscribe_request}
use pusher.Session.World.{
  World, Frame, Codec, SubscribeData, send, send_all, broadcast, cached, subscription_succeeded,
  empty_object,
}
use pusher.Api.Events.{
  ApiMessage, event_for, broadcast_one, broadcast_each, broadcast_message, cached_for,
}
use pusher.Socket.{Ref}

-- sending leaves the cache and the clock alone
send-cache :
    (r : Ref) (f : Frame) (s : World) → ((send r f s).cache ≡ s.cache) × ((send r f s).now ≡ s.now)
unfolding send
send-cache r f s = ground arith

send_all-cache :
    (rs : List Ref) (f : Frame) (s : World)
    → ((send_all rs f s).cache ≡ s.cache) × ((send_all rs f s).now ≡ s.now)
unfolding send_all
send_all-cache [] f s = (refl, refl)
send_all-cache (r ∷ rs) f s =
    let (a, b) = send-cache r f s in let (c, d) = send_all-cache rs f (send r f s) in (c ∙ a, d ∙ b)

broadcast-cache :
    (app c : Text) (f : Frame) (except : Text) (s : World)
    → ((broadcast app c f except s).cache ≡ s.cache) × ((broadcast app c f except s).now ≡ s.now)
unfolding broadcast
broadcast-cache app c f except s = elim (Option-cases (LocalAdapter.send s.adapter app c except)) [
  | inl e ↦ ground (arith, e)
  | inr (rs, e) ↦ ground (arith, e, send_all-cache rs f s)
]

same_key :
    (app c d : Text)
    → lacks b'#' app ≡ true
    → (channel_cache_key app c == channel_cache_key app d) ≡ (c == d)
same_key app c d l =
    let from = channel_cache_key_injective app app c d l l in
    let key_eq = eq_iff (channel_cache_key app c) (channel_cache_key app d) in
    elim (Bool-cases (c == d)) [
      | inl y ↦ key_eq.1 (ap (channel_cache_key app) ((eq_iff c d).0 y)) ∙ sym y
      | inr n ↦ elim (Bool-cases (channel_cache_key app c == channel_cache_key app d)) [
        | inl z ↦ z ∙ sym ((eq_iff c d).1 (from (key_eq.0 z)).1)
        | inr z ↦ z ∙ sym n
      ]
    ]

-- one channel's event in the cache
broadcast_one-cache :
    (encode : Frame → Text) (app : App) (m : ApiMessage) (k c : Text) (s : World) (later : ℕ)
    → lacks b'#' app.id ≡ true
    → later < s.now + cached_for
    → (lookup later (broadcast_one encode app m k s).cache (channel_cache_key app.id c) ≡ (
        if k == c && is_cache_channel c
        then some (encode (event_for m c))
        else lookup later s.cache (channel_cache_key app.id c)))
      × ((broadcast_one encode app m k s).now ≡ s.now)
unfolding broadcast_one
broadcast_one-cache encode app m k c s later l lt =
    let s' = broadcast app.id k (event_for m k) m.socket_id s in
    let (kept, clock) = broadcast-cache app.id k (event_for m k) m.socket_id s in
    let key = channel_cache_key app.id c in
    let same = same_key app.id k c l in
    let put_ =
      (lookup-writes s'.cache (channel_cache_key app.id k) key (encode (event_for m k)) s'.now
        cached_for later).1 in
    let kept' = ap (λ x. lookup later x key) kept in
    elim (Bool-cases (k == c)) [
      | inl y ↦
          let is : k ≡ c = (eq_iff k c).0 y in
          let whose = ap is_cache_channel is in
          let what = ap (λ x. encode (event_for m x)) is in
          ground (arith, put_, same, kept', clock, y, whose, what, lt)
      | inr n ↦ ground (arith, put_, same, kept', clock, n)
    ]

broadcast_each-cache :
    (encode : Frame → Text) (app : App) (m : ApiMessage) (cs : List Text) (c : Text) (s : World)
    (later : ℕ)
    → lacks b'#' app.id ≡ true
    → later < s.now + cached_for
    → lookup later (broadcast_each encode app m cs s).cache (channel_cache_key app.id c) ≡ (
        if contains cs c && is_cache_channel c
        then some (encode (event_for m c))
        else lookup later s.cache (channel_cache_key app.id c))
unfolding broadcast_each contains
broadcast_each-cache encode app m [] c s later l lt = refl
broadcast_each-cache encode app m (k ∷ cs) c s later l lt =
    let (one, clock) = broadcast_one-cache encode app m k c s later l lt in
    let s1 = broadcast_one encode app m k s in
    let rest = broadcast_each-cache encode app m cs c s1 later l (omega (arith, lt, clock)) in
    ground (arith, one, rest)

-- An event that is triggered on a cache channel is what a client gets that subscribes to the channel
-- within the next 30 minutes. Let t be any state with the cache that the event has left, for an app id
-- without `#`, in which the server is not closing. A request of a connection that can be written to, for
-- that cache channel (no presence channel, nor the one of its own user), with a valid name and a
-- token that is accepted or not needed, is answered by exactly two frames, both to that connection:
-- the success, and then the encoded event.
pub event_is_replayed :
    (encode : Frame → Text) (app : App) (e : ApiMessage) (codec : Codec) (msg : Text) (r : Ref)
    (m : SubscribeData) (s t : World) (n : Namespace) (table : Map Channel)
    → lacks b'#' app.id ≡ true
    → contains e.channels m.channel ≡ true
    → is_cache_channel m.channel ≡ true
    → t.cache ≡ (broadcast_message encode app e s).cache
    → t.now < s.now + cached_for
    → t.closing ≡ false
    → codec.subscribe msg ≡ some m
    → (t.heap r).app ≡ some app
    → is_own_channel t r m.channel ≡ false
    → validate_channel_name m.channel app.max_channel_name_length ≡ none
    → ((create_channel app m.channel).requires_auth
        && not (
            validate_channel_auth codec.hmac m.auth app.secret
              (t.heap r).id
              m.channel
              m.channel_data))
      ≡ false
    → is_presence (create_channel app m.channel).kind ≡ false
    → namespace t.adapter app.id ≡ some n
    → (t.heap r).subscribed_channels ≡ some table
    → CanWrite r t
    → (u : World) × (handle_subscribe_request codec msg r t ≡ some (u, none))
      × (u.frames
          ≡ t.frames
            ++ (r, subscription_succeeded m.channel empty_object)
              ∷ (r, cached (encode (event_for e m.channel)))
              ∷ [])
unfolding broadcast_message
event_is_replayed encode app e codec msg r m s t n table l has is kept lt up parsed of_app other
      valid ok plain ns has_table w =
    let c = m.channel in
    let found = broadcast_each-cache encode app e e.channels c s t.now l lt in
    let hit : lookup t.now t.cache (channel_cache_key app.id c) ≡ some (encode (event_for e c)) =
      ap (λ x. lookup t.now x (channel_cache_key app.id c)) kept ∙ found ∙ rw (has, is) refl in
    request_answered codec msg app r m t n table (encode (event_for e c)) up parsed of_app other
      valid ok plain ns has_table w (is_cache-is_cache_channel app c ∙ is) hit
