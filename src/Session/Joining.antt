-- ===== src/Session/Joining.antt =====
-- Join of internal/channels.go.
use pusher.Prelude.{
  ℕ, ◌+◌, ◌/◌, Bool, true, false, ◌&&◌, not, Option, none, some, if◌then◌else◌, length, Text, codes,
  exceeds, is_positive,
}
use pusher.Auth.{validate_channel_auth}
use pusher.Channel.{Channel, ChannelType, presence}
use pusher.LocalAdapter
use pusher.LocalAdapter.{joined, refused}
use pusher.Session.World.{
  World, ErrorCode, over_capacity, client_event_rejected, internal_server_error,
  subscription_access_denied, SubscribeData, Codec,
}
use pusher.Socket.{MemberData, Ref}

-- ChannelJoinResponse: a success with the connections and the member, or an error's code and type
pub data JoinResponse : Type 0 where
  accepted : ℕ → Option MemberData → JoinResponse
  rejected : ErrorCode → Text → JoinResponse

-- the tests of joinPresenceChannel, in their order; `none` is to go on
unfoldable pub presence_limits : Channel → SubscribeData → World → Option JoinResponse
presence_limits c m s =
    let count = LocalAdapter.channel_members_count s.heap s.adapter c.app.id c.name in
    if is_positive c.app.max_presence_members_per_channel
      && exceeds (count + 1) c.app.max_presence_members_per_channel
    then some (rejected over_capacity (codes "LimitReached"))
    else if exceeds (length m.channel_data / 1024) c.app.max_presence_member_size_in_kb
    then some (rejected client_event_rejected (codes "LimitReached"))
    else none

abbrev pub internal_error : JoinResponse
internal_error = rejected internal_server_error (codes "InternalError")

-- joinPresenceChannel
unfoldable pub join_presence : Codec → Channel → Ref → SubscribeData → World → World × JoinResponse
join_presence codec c r m s = elim (presence_limits c m s) [
  | some no_ ↦ (s, no_)
  | none ↦
      let (l, result) = LocalAdapter.add_to_channel s.heap c.app.id c.name r s.adapter in
      let count = LocalAdapter.channel_sockets_count l c.app.id c.name in
      (
        record s { adapter = l },
        elim result [
          | refused e ↦ internal_error
          | joined k ↦ accepted count (codec.member m.channel_data)
        ],
      )
]

-- joinNonPresenceChannel
unfoldable pub join_plain : Channel → Ref → World → World × JoinResponse
join_plain c r s =
    let (l, result) = LocalAdapter.add_to_channel s.heap c.app.id c.name r s.adapter in
    (
      record s { adapter = l },
      elim result [ refused e ↦ internal_error | joined k ↦ accepted k none ],
    )

abbrev pub is_presence : ChannelType → Bool
is_presence presence = true
is_presence _ = false

-- Join; the server always has an adapter
unfoldable pub join : Codec → Channel → Ref → SubscribeData → World → World × JoinResponse
join codec c r m s =
    if c.requires_auth
      && not
          (validate_channel_auth codec.hmac m.auth c.app.secret (s.heap r).id c.name m.channel_data)
    then (s, rejected subscription_access_denied (codes "AuthError"))
    else if is_presence c.kind
    then join_presence codec c r m s
    else join_plain c r s
