-- ===== src/Horizontal.antt =====
-- internal/adaptersHorizontal.go: several nodes, each with a local adapter, that ask one another for
-- what they hold. A request goes out on a shared channel; the asking node adds up the answers until
-- all other nodes have answered or none has for a while. The network decides which answers arrive, and
-- in which order: a run of waitForResponse is a list of arrivals. What getNumSub returns is a
-- parameter, `none` for its error. Requests are named by fresh ids, so only answers to one's own
-- request arrive; the JSON of a request or an answer carries its fields, and a map that is nil there
-- is read as an empty one. The queries themselves are in Queries, a node's answers in Answering, and
-- events in Relay.
pub mod Queries
pub mod Answering
pub mod Cluster
pub mod Relay
pub mod Waiting
pub mod Totals
pub mod Merging
pub mod Membership
pub mod Aliasing
pub mod Storm
pub mod Unending
pub mod Delivery
use pusher.Prelude.{
  ℕ, ◌+◌, Bool, true, false, ◌||◌, Option, none, some, List, [], ◌∷◌, ◌++◌, if◌then◌else◌, eqb,
  Text, Map, get, put,
}
use pusher.Socket.{Ref, Heap, MemberData}
use pusher.Namespace.{ids_or_empty, or_zero}

-- HorizontalRequestType
pub data RequestType : Type 0 where
  sockets channels channel_sockets channel_members sockets_count channel_members_count : RequestType
  channel_sockets_count socket_exists_in_channel channels_with_sockets_count : RequestType
  terminate_user_connections presence_channels_with_users_count : RequestType

-- HorizontalResponse without its request id. A socket in an answer is an object that the JSON decoder
-- makes on the asking node.
pub record Answer : Type 0 where
  pub sockets : Map Ref
  pub members : Map MemberData
  pub channels : Map (List Text)
  pub counts : Map ℕ
  pub total : ℕ
  pub exists : Bool

abbrev pub empty : Answer
empty = record { sockets = []; members = []; channels = []; counts = []; total = 0; exists = false }

-- finalResponse.Sockets[socket.ID] = socket
unfoldable pub add_sockets : Heap → Map Ref → Map Ref → Map Ref
add_sockets h final [] = final
add_sockets h final ((id, ws) ∷ rest) = add_sockets h (put final (h ws).id ws) rest

-- finalResponse.Channels[ch] = append(finalResponse.Channels[ch], sockets...)
unfoldable pub add_channels : Map (List Text) → Map (List Text) → Map (List Text)
add_channels final [] = final
add_channels final ((ch, ids) ∷ rest) =
    add_channels (put final ch (ids_or_empty (get final ch) ++ ids)) rest

-- finalResponse.Members[id] = member
unfoldable pub add_members : Map MemberData → Map MemberData → Map MemberData
add_members final [] = final
add_members final ((id, member) ∷ rest) = add_members (put final id member) rest

-- the two cases that add counts
unfoldable pub add_counts : Map ℕ → Map ℕ → Map ℕ
add_counts final [] = final
add_counts final ((channel, count) ∷ rest) =
    add_counts (put final channel (or_zero (get final channel) + count)) rest

-- the switch of waitForResponse
unfoldable pub absorb : Heap → RequestType → Answer → Answer → Answer
absorb h sockets final a = record final { sockets = add_sockets h final.sockets a.sockets }
absorb h channel_sockets final a = record final { sockets = add_sockets h final.sockets a.sockets }
absorb h channels final a = record final { channels = add_channels final.channels a.channels }
absorb h channels_with_sockets_count final a = record final {
  counts = add_counts final.counts a.counts;
}
absorb h channel_members final a = record final { members = add_members final.members a.members }
absorb h sockets_count final a = record final { total = final.total + a.total }
absorb h channel_members_count final a = record final { total = final.total + a.total }
absorb h channel_sockets_count final a = record final { total = final.total + a.total }
absorb h socket_exists_in_channel final a = record final { exists = final.exists || a.exists }
absorb h presence_channels_with_users_count final a = record final {
  counts = add_counts final.counts a.counts;
}
absorb h terminate_user_connections final a = final

-- what the select of waitForResponse receives
pub data Arrival : Type 0 where
  answers : Answer → Arrival
  times_out : Arrival

-- one node that has the socket is enough
abbrev pub is_settled : RequestType → Answer → Bool
is_settled socket_exists_in_channel a = a.exists
is_settled _ a = false

-- The loop of waitForResponse with `countOfMessages`; `none` is that it still waits. The test
-- countOfMessages == numSub-1 is on integers: it fails for a `num_sub` of 0.
unfoldable pub wait_for_response :
    Heap → RequestType → ℕ → ℕ → Answer → List Arrival → Option Answer
wait_for_response h kind num_sub count final [] = none
wait_for_response h kind num_sub count final (times_out ∷ rest) = some final
wait_for_response h kind num_sub count final (answers a ∷ rest) =
    let final' = absorb h kind final a in
    let later = wait_for_response h kind num_sub (count + 1) final' rest in
    if is_settled kind a
    then some final'
    else if eqb (count + 2) num_sub
    then some final'
    else later
