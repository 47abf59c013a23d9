-- ===== src/Namespace.antt =====
-- internal/namespace.go: the channels, sockets and users of one app, with one function for each
-- method. The methods run under the namespace's mutex, so each is one step. The three maps hold
-- socket ids; `sockets` leads from an id to the shared object, which is never a nil pointer there.
-- TerminateUserConnections sends and closes, and stands in Session.
pub mod Removal
pub mod Tidy
pub mod Calls
pub mod Compact
pub mod Views
pub mod Membership
pub mod Departure
use pusher.Prelude.{
  ℕ, zero, suc, Bool, true, false, Option, none, some, List, [], ◌∷◌, ◌++◌, if◌then◌else◌, length,
  is_nil, is_some, Text, ◌==◌, Map, get, put, del, keys, contains, without, ◌>>=◌,
}
use pusher.ChannelName.{is_presence_channel}
use pusher.Socket.{WebSocket, Ref, Heap, MemberData, presence_data_for_channel, entries}

pub record Namespace : Type 0 where
  pub channels : Map (List Text)
  pub sockets : Map Ref
  pub users : Map (List Text)

-- createBlankNamespace
abbrev pub blank : Namespace
blank = record { channels = []; sockets = []; users = [] }

-- GetChannelsWithSocketsCount
unfoldable pub count_each : Map (List Text) → Map ℕ
count_each [] = []
count_each ((channel, sockets) ∷ rest) = put (count_each rest) channel (length sockets)

unfoldable pub channels_with_sockets_count : Namespace → Map ℕ
channels_with_sockets_count n = count_each n.channels

-- the loops of CompactMaps over the channels and over the users
unfoldable pub drop_empty : Map (List Text) → Map (List Text)
drop_empty [] = []
drop_empty ((k, ids) ∷ rest) =
    let kept = drop_empty rest in if is_nil ids then kept else (k, ids) ∷ kept

-- The loop over the sockets drops nil pointers, and there are none.
unfoldable pub compact_maps : Namespace → Namespace
compact_maps n = record n { channels = drop_empty n.channels; users = drop_empty n.users }

unfoldable pub add_socket : Heap → Ref → Namespace → Namespace × Bool
add_socket h ws n =
    if is_some (get n.sockets (h ws).id)
    then (n, false)
    else (record n { sockets = put n.sockets (h ws).id ws }, true)

-- the closure `remove` of RemoveFromChannel and the loop body of RemoveSocket: the slice without the
-- id, and no entry if that is empty. `none` is a panic: the source makes the new slice with the
-- capacity `len(ids) - 1`, which Go refuses at an empty slice.
unfoldable pub remove_id : Text → Map (List Text) → Text → Option (Map (List Text))
remove_id id m k = elim (get m k) [
  | none ↦ some m
  | some ids ↦
      let m' = put m k (without id ids) in
      if is_nil ids then none else some (if is_nil (without id ids) then del m' k else m')
]

-- `for channel := range n.Channels`
unfoldable pub remove_id_each : Text → Map (List Text) → List Text → Option (Map (List Text))
remove_id_each id m [] = some m
remove_id_each id m (k ∷ ks) = do m' ← remove_id id m k; remove_id_each id m' ks

unfoldable pub remove_socket : Heap → Text → Namespace → Option Namespace
remove_socket h id n = elim (get n.sockets id) [
  | none ↦ some n
  | some ws ↦ do
    users ← if is_nil (h ws).user_id then some n.users else remove_id id n.users (h ws).user_id
    channels ← remove_id_each id n.channels (keys n.channels)
    some (record { channels = channels; sockets = del n.sockets id; users = users })
]

-- the slice under a key, or the empty one that the source puts there first
abbrev pub ids_or_empty : Option (List Text) → List Text
ids_or_empty none = []
ids_or_empty (some ids) = ids

unfoldable pub add_to_channel : Heap → Ref → Text → Namespace → Namespace × ℕ
add_to_channel h ws channel n =
    let ids = ids_or_empty (get n.channels channel) ++ (h ws).id ∷ [] in
    (record n { channels = put n.channels channel ids }, length ids)

-- what the closure `remove` returns: the connections that remain
unfoldable pub remaining : Text → Option (List Text) → ℕ
remaining id none = 0
remaining id (some ids) = length (without id ids)

-- the loop of RemoveFromChannel, with `removeResults`; on a missing channel `remove_id` does nothing
unfoldable pub remove_each :
    Text → Map (List Text) → Map ℕ → List Text → Option (Map (List Text) × Map ℕ)
remove_each id m results [] = some (m, results)
remove_each id m results (c ∷ cs) = do
  m' ← remove_id id m c
  remove_each id m' (if is_some (get m c) then put results c (remaining id (get m c)) else results)
      cs

abbrev pub or_zero : Option ℕ → ℕ
or_zero none = 0
or_zero (some k) = k

-- the result of a single channel; for none or several it is 0
unfoldable pub single_result : Map ℕ → List Text → ℕ
single_result results [] = 0
single_result results (c ∷ []) = or_zero (get results c)
single_result results (c ∷ d ∷ cs) = 0

unfoldable pub remove_from_channel : Text → List Text → Namespace → Option (Namespace × ℕ)
remove_from_channel id cs n = do
  (m, results) ← remove_each id n.channels [] cs
  some (record n { channels = m }, single_result results cs)

-- the loop of GetChannelSockets
unfoldable pub collect_sockets : Map Ref → Map Ref → List Text → Map Ref
collect_sockets sockets found [] = found
collect_sockets sockets found (id ∷ ids) =
    let found' : Map Ref = elim (get sockets id) [ none ↦ found | some ws ↦ put found id ws ] in
    collect_sockets sockets found' ids

unfoldable pub channel_sockets : Namespace → Text → Map Ref
channel_sockets n channel = elim (get n.channels channel) [
  | none ↦ []
  | some ids ↦ collect_sockets n.sockets [] ids
]

-- the loop of GetChannelMembers
unfoldable pub collect_members : Heap → Text → Map MemberData → Map Ref → Map MemberData
collect_members h channel found [] = found
collect_members h channel found ((id, ws) ∷ rest) =
    let found' : Map MemberData = elim (presence_data_for_channel (h ws) channel) [
      | none ↦ found
      | some val ↦ put found val.user_id val
    ] in
    collect_members h channel found' rest

unfoldable pub channel_members : Heap → Namespace → Text → Map MemberData
channel_members h n channel = collect_members h channel [] (channel_sockets n channel)

-- GetPresenceChannelsWithUsersCount
unfoldable pub count_members : Heap → Namespace → List Text → Map ℕ
count_members h n [] = []
count_members h n (channel ∷ rest) =
    let counts = count_members h n rest in
    if is_presence_channel channel
    then put counts channel (length (channel_members h n channel))
    else counts

unfoldable pub presence_channels_with_users_count : Heap → Namespace → Map ℕ
presence_channels_with_users_count h n = count_members h n (keys n.channels)

unfoldable pub is_in_channel : Namespace → Text → Text → Bool
is_in_channel n id channel = elim (get n.channels channel) [
  | none ↦ false
  | some ids ↦ contains ids id
]

unfoldable pub add_user : Heap → Ref → Namespace → Namespace
add_user h ws n =
    let ids = ids_or_empty (get n.users (h ws).user_id) in
    if is_nil (h ws).user_id then n else record n {
      users =
          put n.users (h ws).user_id
            (if contains ids (h ws).id then ids else ids ++ (h ws).id ∷ []);
    }

unfoldable pub remove_user : Heap → Ref → Namespace → Option Namespace
remove_user h ws n =
    if is_nil (h ws).user_id
    then some n
    else do users ← remove_id (h ws).id n.users (h ws).user_id; some (record n { users = users })

-- the loop of GetUserSockets
unfoldable pub live_sockets : Map Ref → List Text → List Ref
live_sockets sockets [] = []
live_sockets sockets (id ∷ ids) =
    let rest = live_sockets sockets ids in
    elim (get sockets id) [ none ↦ rest | some ws ↦ ws ∷ rest ]

-- an unknown user has the nil slice
unfoldable pub user_sockets : Namespace → Text → List Ref
user_sockets n user = live_sockets n.sockets (ids_or_empty (get n.users user))
