-- ===== src/Horizontal/Answering.antt =====
-- onRequest of internal/adaptersHorizontal.go: what a node answers to another one's request.
use pusher.Prelude.{
  Option, none, some, List, [], ◌∷◌, if◌then◌else◌, is_nil, contains, Text, codes, Map, get,
}
use pusher.Socket.{Heap, entries}
use pusher.LocalAdapter
use pusher.LocalAdapter.{Adapter}
use pusher.Horizontal.{
  RequestType, sockets, channels, channel_sockets, channel_members, sockets_count,
  channel_members_count, channel_sockets_count, socket_exists_in_channel,
  channels_with_sockets_count, terminate_user_connections, presence_channels_with_users_count,
  Answer, empty,
}

-- HorizontalRequestBody
pub record RequestBody : Type 0 where
  pub kind : RequestType
  pub request_id : Text
  pub app_id : Text
  pub opts : Map Text

-- the bodies that sendRequest makes, under a fresh id: without options, or for a channel
abbrev pub plain_request : RequestType → Text → Text → RequestBody
plain_request kind id app = record { kind = kind; request_id = id; app_id = app; opts = [] }

abbrev pub channel_request : RequestType → Text → Text → Text → RequestBody
channel_request kind id app channel = record (plain_request kind id app) {
  opts = (codes "channel", channel) ∷ [];
}

-- What comes of a request: no answer; the answer that is published; a call of
-- TerminateUserConnections, which is the node's own method and so asks the other nodes again; or a
-- panic.
pub data Reply : Type 0 where
  ignored : Reply
  replies : Answer → Reply
  terminates : Text → Text → Reply
  panics : Reply

-- request.HorizontalRequestOptions.Opts["channel"]
abbrev pub with_channel : RequestBody → (Text → Reply) → Reply
with_channel b answer = elim (get b.opts (codes "channel")) [ none ↦ ignored | some ch ↦ answer ch ]

-- the switch; the entries of the node's channels are written to a nil map
unfoldable pub answer_locally : Heap → RequestBody → Adapter → Reply
answer_locally h b l = elim b.kind [
  | sockets ↦ replies (record empty { sockets = LocalAdapter.sockets l b.app_id })
  | channel_sockets ↦
      with_channel b
        (λ ch. replies (record empty { sockets = LocalAdapter.channel_sockets l b.app_id ch }))
  | channels ↦ if is_nil (entries (LocalAdapter.channels l b.app_id)) then replies empty else panics
  | channels_with_sockets_count ↦
      replies (record empty { counts = LocalAdapter.channels_with_sockets_count l b.app_id })
  | channel_members ↦
      with_channel b
        (λ ch. replies (record empty { members = LocalAdapter.channel_members h l b.app_id ch }))
  | sockets_count ↦ replies (record empty { total = LocalAdapter.sockets_count l b.app_id })
  | channel_members_count ↦
      with_channel b (λ ch.
        replies (record empty { total = LocalAdapter.channel_members_count h l b.app_id ch }))
  | channel_sockets_count ↦
      with_channel b
        (λ ch. replies (record empty { total = LocalAdapter.channel_sockets_count l b.app_id ch }))
  | socket_exists_in_channel ↦ with_channel b (λ ch. elim (get b.opts (codes "socketId")) [
    | none ↦ ignored
    | some id ↦ replies (record empty { exists = LocalAdapter.is_in_channel l b.app_id ch id })
  ])
  | terminate_user_connections ↦ elim (get b.opts (codes "userId")) [
    | none ↦ ignored
    | some user ↦ terminates b.app_id user
  ]
  | presence_channels_with_users_count ↦
      replies
        (record empty { counts = LocalAdapter.presence_channels_with_users_count h l b.app_id })
]

-- `own` are the ids of the node's own requests; of the request, `none` is that it cannot be decoded
unfoldable pub on_request : Heap → List Text → Option RequestBody → Adapter → Reply
on_request h own none l = ignored
on_request h own (some b) l = if contains own b.request_id then ignored else answer_locally h b l
