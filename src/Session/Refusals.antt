-- ===== src/Session/Refusals.antt =====
-- Subscriptions that internal/websocket.go refuses.
use pusher.Prelude.{
  ℕ, ◌≡◌, refl, Bool, true, false, ◌&&◌, not, is_nil, ◌++◌, ◌==◌, ◌⊎◌, inl, inr, Option, none, some,
  arith, is_some, Text, codes, Option-cases, Bool-cases, if_both,
}
use pusher.App.{App}
use pusher.Auth.{validate_channel_auth}
use pusher.Channel.{Channel, create_channel}
use pusher.ChannelName.{validate_channel_name, server_to_user_prefix}
use pusher.LocalAdapter
use pusher.LocalAdapter.{Adapter, joined, refused, namespace}
use pusher.Namespace
use pusher.Namespace.{Namespace}
use pusher.Session.Joining.{
  join, join_plain, join_presence, rejected, accepted, is_presence, presence_limits,
}
use pusher.Session.Requests.{
  Reply, subscribe, handle_subscribe_request, join_refused, is_access_denied, message_of,
}
use pusher.Session.World.{
  World, ErrorCode, error_frame, unauthorized_connection, Codec, SubscribeData, send,
  subscription_access_denied, generic_reconnect, invalid_channel,
}
use pusher.Socket.{MemberData, Ref}
use pusher.Session.Quiet.{Quiet, Quiet-refl, Quiet-trans, send-Quiet}

-- the adapter refuses a channel only where the app has no namespace, and then it stays as it is
add_to_channel-refused :
    (s : World) (app c : Text) (r : Ref)
    → namespace s.adapter app ≡ none
    → LocalAdapter.add_to_channel s.heap app c r s.adapter
      ≡ (s.adapter, refused LocalAdapter.namespace_not_found)
unfolding LocalAdapter.add_to_channel
add_to_channel-refused s app c r e = ground (arith, e)

add_to_channel-joined :
    (s : World) (app c : Text) (r : Ref) (n : Namespace)
    → namespace s.adapter app ≡ some n
    → (k : ℕ) × ((LocalAdapter.add_to_channel s.heap app c r s.adapter).1 ≡ joined k)
unfolding LocalAdapter.add_to_channel
add_to_channel-joined s app c r n e =
    ((Namespace.add_to_channel s.heap r c n).1, rw (e, LocalAdapter.add_to_channel) refl)

accepted≢rejected :
    {k : ℕ} {m : Option MemberData} {code : ErrorCode} {kind : Text}
    → accepted k m ≡ rejected code kind
    → ⊥
accepted≢rejected e = cc

join_plain-rejected :
    (c : Channel) (r : Ref) (s : World) (code : ErrorCode) (kind : Text)
    → (join_plain c r s).1 ≡ rejected code kind
    → (join_plain c r s).0 ≡ s
unfolding join_plain
join_plain-rejected c r s code kind e = elim (Option-cases (namespace s.adapter c.app.id)) [
  | inl f ↦ rw (add_to_channel-refused s c.app.id c.name r f) refl
  | inr (n, f) ↦
      let (k, g) = add_to_channel-joined s c.app.id c.name r n f in absurd (ground (arith, e, g))
]

join_presence-rejected :
    (codec : Codec) (c : Channel) (r : Ref) (m : SubscribeData) (s : World) (code : ErrorCode)
    (kind : Text)
    → (join_presence codec c r m s).1 ≡ rejected code kind
    → (join_presence codec c r m s).0 ≡ s
unfolding join_presence
join_presence-rejected codec c r m s code kind e = elim (Option-cases (presence_limits c m s)) [
  | inr (no_, f) ↦ rw (f, join_presence) refl
  | inl f ↦ elim (Option-cases (namespace s.adapter c.app.id)) [
    | inl g ↦ rw (f, join_presence, add_to_channel-refused s c.app.id c.name r g) refl
    | inr (n, g) ↦
        let (k, h) = add_to_channel-joined s c.app.id c.name r n g in
        absurd (ground (arith, e, f, h))
  ]
]

-- A refused Join changes nothing.
join-rejected :
    (codec : Codec) (c : Channel) (r : Ref) (m : SubscribeData) (s : World) (code : ErrorCode)
    (kind : Text)
    → (join codec c r m s).1 ≡ rejected code kind
    → (join codec c r m s).0 ≡ s
unfolding join
join-rejected codec c r m s code kind e =
    let b =
      c.requires_auth
      && not (
          validate_channel_auth codec.hmac m.auth c.app.secret (s.heap r).id c.name
            m.channel_data) in
    elim (Bool-cases b) [
      | inl y ↦ rw y refl
      | inr n ↦ elim (Bool-cases (is_presence c.kind)) [
        | inl p ↦
            rw (n, p) (join_presence-rejected codec c r m s code kind (ground (arith, n, p, e)))
        | inr p ↦ rw (n, p) (join_plain-rejected c r s code kind (ground (arith, n, p, e)))
      ]
    ]

-- what a refused request comes to: an error is returned, and nobody else notices
pub record Refused (r : Ref) (s : World) (o : Reply) : Type 0 where
  pub after : World
  pub error : ErrorCode
  pub returns : o ≡ some (after, some error)
  pub quiet : Quiet r s after

join_refused-Refused :
    (c : Channel) (r : Ref) (code : ErrorCode) (kind : Text) (s : World)
    → Refused r s (join_refused c r code kind s)
unfolding join_refused
join_refused-Refused c r code kind s =
    if_both (is_access_denied code) (Refused r s)
      (record {
        after = _;
        error = subscription_access_denied;
        returns = refl;
        quiet = Quiet-trans (send-Quiet r _ s) (send-Quiet r _ _);
      })
      (record {
        after = _;
        error = generic_reconnect;
        returns = refl;
        quiet = Quiet-trans (send-Quiet r _ s) (send-Quiet r _ _);
      })

-- A subscription whose channel name is not valid, or whose Join is refused for whatever reason, comes
-- to an error for the client: no other connection is written to or changed, and the adapter, the cache
-- and the webhooks stay as they are.
pub subscribe-Refused :
    (codec : Codec) (app : App) (r : Ref) (m : SubscribeData) (s : World)
    → (is_some (validate_channel_name m.channel app.max_channel_name_length) ≡ true)
      ⊎ ((code : ErrorCode) × (kind : Text) × ((join codec (create_channel app m.channel) r m s).1
            ≡ rejected code kind))
    → Refused r s (subscribe codec app r m s)
unfolding subscribe
subscribe-Refused codec app r m s why =
    elim (Option-cases (validate_channel_name m.channel app.max_channel_name_length)) [
      | inr (e, f) ↦ record {
        after = send r (error_frame unauthorized_connection (message_of e)) s;
        error = invalid_channel;
        returns = rw (f, subscribe) refl;
        quiet = send-Quiet r (error_frame unauthorized_connection (message_of e)) s;
      }
      | inl f ↦ elim why [
        | inl g ↦ absurd (ground (arith, f, g))
        | inr (code, kind, g) ↦
            let c = create_channel app m.channel in
            let same = join-rejected codec c r m s code kind g in
            rw (f, subscribe, g, same) (join_refused-Refused c r code kind s)
      ]
    ]

pub create_channel-fields :
    (app : App) (n : Text) → ((create_channel app n).app ≡ app) × ((create_channel app n).name ≡ n)
unfolding create_channel
create_channel-fields app n = ground arith

-- a token that is not accepted, for a channel that needs one
tail_unauthorized :
    (codec : Codec) (app : App) (r : Ref) (m : SubscribeData) (s : World)
    → (create_channel app m.channel).requires_auth ≡ true
    → validate_channel_auth codec.hmac m.auth app.secret (s.heap r).id m.channel m.channel_data
      ≡ false
    → Refused r s (subscribe codec app r m s)
unfolding join
tail_unauthorized codec app r m s needs bad =
    let (a, n) = create_channel-fields app m.channel in
    subscribe-Refused codec app r m s
      (inr (subscription_access_denied, codes "AuthError", rw (needs, a, n, bad) refl))

-- the channel is the one of the connection's own user, which handleSubscribeRequest answers for itself
abbrev pub is_own_channel : World → Ref → Text → Bool
is_own_channel s r c =
    not (is_nil (s.heap r).user_id) && c == (server_to_user_prefix ++ (s.heap r).user_id)

-- A client without a valid token cannot get into a channel that requires authorization: a request to
-- subscribe to such a channel, other than the one of the connection's own user, with a token that is not
-- accepted for this socket, channel and channel data, comes to an error for the client and changes
-- nothing for anybody else.
pub subscribe_unauthorized :
    (codec : Codec) (msg : Text) (app : App) (r : Ref) (m : SubscribeData) (s : World)
    → codec.subscribe msg ≡ some m
    → (s.heap r).app ≡ some app
    → is_own_channel s r m.channel ≡ false
    → (create_channel app m.channel).requires_auth ≡ true
    → validate_channel_auth codec.hmac m.auth app.secret (s.heap r).id m.channel m.channel_data
      ≡ false
    → Refused r s (handle_subscribe_request codec msg r s)
unfolding handle_subscribe_request
subscribe_unauthorized codec msg app r m s parsed of_app other needs bad =
    if_both s.closing (Refused r s)
      (record { after = s; error = generic_reconnect; returns = refl; quiet = Quiet-refl r s })
      (rw (parsed, other, of_app) (tail_unauthorized codec app r m s needs bad))
