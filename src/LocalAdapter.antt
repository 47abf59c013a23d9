-- ===== src/LocalAdapter.antt =====
-- internal/adaptersLocal.go: the namespaces of all apps of one node, and the channel gauges. Each
-- method is one step: it runs under the adapter's mutex, but updateChannelMetrics releases that while
-- it counts, and the model is the run in which no other call comes in between. `none` in place of a
-- result is a panic of the namespace.
-- The background compaction that createBlankNamespace starts is Namespace.compact_maps.
pub mod Calls
pub mod Delivery
pub mod Kinds
use pusher.Prelude.{
  ℕ, ◌+◌, Bool, true, false, ◌&&◌, not, Option, none, some, List, [], ◌∷◌, if◌then◌else◌, length,
  is_nil, is_some, Text, ◌==◌, has_prefix, trim_prefix, Map, get, put, keys, ◌>>=◌,
}
use pusher.ChannelName.{is_presence_channel, is_private_channel, server_to_user_prefix}
use pusher.Socket.{Ref, Heap, MemberData, entries}
use pusher.Namespace
use pusher.Namespace.{Namespace, blank}

-- what updateChannelMetrics reports
pub record Gauges : Type 0 where
  pub total : ℕ
  pub presence : ℕ
  pub private : ℕ
  pub public : ℕ

-- `namespaces` is `none` where the map is nil.
pub record Adapter : Type 0 where
  pub namespaces : Option (Map Namespace)
  pub gauges : Gauges

pub data AdapterError : Type 0 where
  not_initialized socket_exists namespace_not_found : AdapterError

abbrev pub namespace : Adapter → Text → Option Namespace
namespace l app = get (entries l.namespaces) app

-- `l.Namespaces[appID]` now holds `n`
abbrev pub store : Adapter → Text → Namespace → Adapter
store l app n = record l { namespaces = some (put (entries l.namespaces) app n) }

-- NewLocalAdapter and Init; Init keeps what the gauges say
abbrev pub init : Adapter → Adapter
init l = record l { namespaces = some [] }

-- GetChannelsWithSocketsCount
unfoldable pub channels_with_sockets_count : Adapter → Text → Map ℕ
channels_with_sockets_count l app = elim (namespace l app) [
  | none ↦ []
  | some n ↦ Namespace.channels_with_sockets_count n
]

-- the counting loop of updateChannelMetrics
unfoldable pub count_kinds : List Text → Gauges
count_kinds [] = record { total = 0; presence = 0; private = 0; public = 0 }
count_kinds (c ∷ cs) =
    let rest = count_kinds cs in
    let one = record rest { total = rest.total + 1 } in
    if is_presence_channel c
    then record one { presence = rest.presence + 1 }
    else if is_private_channel c
    then record one { private = rest.private + 1 }
    else record one { public = rest.public + 1 }

unfoldable pub update_channel_metrics : Adapter → Text → Adapter
update_channel_metrics l app = record l {
  gauges = count_kinds (keys (channels_with_sockets_count l app));
}

-- a namespace is made where the app has none
abbrev pub or_blank : Option Namespace → Namespace
or_blank none = blank
or_blank (some n) = n

unfoldable pub add_socket : Heap → Text → Ref → Adapter → Adapter × Option AdapterError
add_socket h app ws l = elim l.namespaces [
  | none ↦ (l, some not_initialized)
  | some m ↦
      let (n, added) = Namespace.add_socket h ws (or_blank (get m app)) in
      let l' = store l app n in
      if added then (update_channel_metrics l' app, none) else (l', some socket_exists)
]

unfoldable pub remove_socket : Heap → Text → Text → Adapter → Option Adapter
remove_socket h app id l = elim (namespace l app) [
  | none ↦ some l
  | some n ↦ do
    n' ← Namespace.remove_socket h id n
    some (update_channel_metrics (store l app n') app)
]

pub data Joined : Type 0 where
  joined : ℕ → Joined
  refused : AdapterError → Joined

unfoldable pub add_to_channel : Heap → Text → Text → Ref → Adapter → Adapter × Joined
add_to_channel h app channel ws l = elim (namespace l app) [
  | none ↦ (l, refused namespace_not_found)
  | some n ↦
      let (n', count) = Namespace.add_to_channel h ws channel n in
      (update_channel_metrics (store l app n') app, joined count)
]

unfoldable pub remove_from_channel : Text → List Text → Text → Adapter → Option (Adapter × ℕ)
remove_from_channel app channels id l = elim (namespace l app) [
  | none ↦ some (l, 0)
  | some n ↦ do
    (n', count) ← Namespace.remove_from_channel id channels n
    some (update_channel_metrics (store l app n') app, count)
]

unfoldable pub add_user : Heap → Text → Ref → Adapter → Adapter × Option AdapterError
add_user h app ws l = elim (namespace l app) [
  | none ↦ (l, some namespace_not_found)
  | some n ↦ (store l app (Namespace.add_user h ws n), none)
]

unfoldable pub remove_user : Heap → Text → Ref → Adapter → Option (Adapter × Option AdapterError)
remove_user h app ws l = elim (namespace l app) [
  | none ↦ some (l, some namespace_not_found)
  | some n ↦ do n' ← Namespace.remove_user h ws n; some (store l app n', none)
]

unfoldable pub clear_namespace : Text → Adapter → Adapter
clear_namespace app l = if is_some (namespace l app) then store l app blank else l

unfoldable pub clear_namespaces : Adapter → Adapter
clear_namespaces l = record l { namespaces = some [] }

-- GetUserSockets
unfoldable pub user_sockets : Adapter → Text → Text → Option (List Ref)
user_sockets l app user = elim (namespace l app) [
  | none ↦ none
  | some n ↦ some (Namespace.user_sockets n user)
]

unfoldable pub channel_sockets : Adapter → Text → Text → Map Ref
channel_sockets l app channel = elim (namespace l app) [
  | none ↦ []
  | some n ↦ Namespace.channel_sockets n channel
]

unfoldable pub channel_sockets_count : Adapter → Text → Text → ℕ
channel_sockets_count l app channel = length (channel_sockets l app channel)

unfoldable pub channel_members : Heap → Adapter → Text → Text → Map MemberData
channel_members h l app channel = elim (namespace l app) [
  | none ↦ []
  | some n ↦ Namespace.channel_members h n channel
]

unfoldable pub channel_members_count : Heap → Adapter → Text → Text → ℕ
channel_members_count h l app channel = length (channel_members h l app channel)

unfoldable pub is_in_channel : Adapter → Text → Text → Text → Bool
is_in_channel l app channel id = elim (namespace l app) [
  | none ↦ false
  | some n ↦ Namespace.is_in_channel n id channel
]

unfoldable pub sockets : Adapter → Text → Map Ref
sockets l app = elim (namespace l app) [ none ↦ [] | some n ↦ n.sockets ]

unfoldable pub sockets_count : Adapter → Text → ℕ
sockets_count l app = length (sockets l app)

-- GetChannels: the map, or nil
unfoldable pub channels : Adapter → Text → Option (Map (List Text))
channels l app = elim (namespace l app) [ none ↦ none | some n ↦ some n.channels ]

unfoldable pub presence_channels_with_users_count : Heap → Adapter → Text → Map ℕ
presence_channels_with_users_count h l app = elim (namespace l app) [
  | none ↦ []
  | some n ↦ Namespace.presence_channels_with_users_count h n
]

-- the loop of Send: all sockets but the one whose id is excluded (the empty id excludes none)
unfoldable pub targets : Text → Map Ref → List Ref
targets except [] = []
targets except ((id, ws) ∷ rest) =
    let more = targets except rest in
    if not (is_nil except) && id == except then more else ws ∷ more

-- Send: the sockets that the bytes are sent to, or `none` for the error "namespace not found". A
-- channel of one user leads to that user's sockets, and excludes none.
unfoldable pub send : Adapter → Text → Text → Text → Option (List Ref)
send l app channel except =
    if has_prefix channel server_to_user_prefix
    then user_sockets l app (trim_prefix channel server_to_user_prefix)
    else elim (namespace l app) [
      | none ↦ none
      | some n ↦ some (targets except (Namespace.channel_sockets n channel))
    ]
