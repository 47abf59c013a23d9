-- ===== src/Horizontal/Relay.antt =====
-- Events over several nodes: Send of internal/adaptersHorizontal.go, and the Redis channels of
-- internal/adaptersRedis.go. Redis hands every message of a channel to every node, the sender included.
use pusher.Prelude.{
  ◌||◌, not, Option, none, List, [], ◌++◌, if◌then◌else◌, is_nil, Text, codes, ◌==◌, has_prefix,
}
use pusher.Socket.{Ref}
use pusher.LocalAdapter
use pusher.LocalAdapter.{Adapter}

-- AdapterMessageToSend
pub record AdapterMessage : Type 0 where
  pub uuid : Text
  pub app_id : Text
  pub channel : Text
  pub body : Text
  pub excepting_id : Text

-- horizontalPubsubBroadcastedMessage
pub record BroadcastedMessage : Type 0 where
  pub uuid : Text
  pub app_id : Text
  pub channel : Text
  pub body : Text
  pub excepting_ids : Text

-- the JSON of the one read as the other: a field goes over by its name, and ExceptingId is not the
-- name of a field of the receiver's
unfoldable pub over_the_wire : AdapterMessage → BroadcastedMessage
over_the_wire m = record {
  uuid = m.uuid;
  app_id = m.app_id;
  channel = m.channel;
  body = m.body;
  excepting_ids = [];
}

-- Send: the message for the other nodes, and the connections of this node that the event is written to
unfoldable pub send :
    Text → Adapter → Text → Text → Text → Text → AdapterMessage × Option (List Ref)
send uuid l app channel body except = (
  record { uuid = uuid; app_id = app; channel = channel; body = body; excepting_id = except },
  LocalAdapter.send l app channel except,
)

-- Init of the Redis adapter: the channel with its prefix, and those of requests and responses
unfoldable pub channel_name : Text → Text → Text
channel_name prefix channel = if is_nil prefix then channel else prefix ++ (codes "#" ++ channel)

unfoldable pub request_channel : Text → Text
request_channel channel = channel ++ codes "#comms#req"

unfoldable pub response_channel : Text → Text
response_channel channel = channel ++ codes "#comms#res"

-- which handler processMessage calls
pub data Route : Type 0 where
  on_response on_request dropped : Route

unfoldable pub process_message : Text → Text → Route
process_message channel redis_channel =
    if has_prefix redis_channel (response_channel channel)
    then on_response
    else if has_prefix redis_channel (request_channel channel)
    then on_request
    else dropped

-- onMessage of a node with this uuid and this channel: the connections that the event is written to,
-- none of them where it is ignored or the local adapter gives an error
unfoldable pub on_message : Text → Text → Adapter → Text → BroadcastedMessage → Option (List Ref)
on_message uuid channel l redis_channel m =
    if not (has_prefix redis_channel channel)
    then none
    else if uuid == m.uuid || is_nil m.app_id || is_nil m.channel || is_nil m.body
    then none
    else LocalAdapter.send l m.app_id m.channel m.excepting_ids
