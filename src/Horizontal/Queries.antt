-- ===== src/Horizontal/Queries.antt =====
-- The queries of internal/adaptersHorizontal.go over all nodes. Each takes what getNumSub returns and
-- the arrivals of its request, and gives `none` as long as it waits. GetSockets and GetChannels hand
-- the namespace's own map to waitForResponse, which writes into it: they return the adapter too.
use pusher.Prelude.{ℕ, Bool, Option, none, some, List, if◌then◌else◌, leb, Text, Map, ◌>>=◌}
use pusher.Socket.{Ref, Heap, MemberData, entries}
use pusher.LocalAdapter
use pusher.LocalAdapter.{Adapter, namespace, store}
use pusher.Horizontal.{
  RequestType, sockets_count, channel_members_count, channel_sockets_count,
  channels_with_sockets_count, presence_channels_with_users_count, channel_sockets, channel_members,
  socket_exists_in_channel, empty, Arrival, wait_for_response,
}

-- the three early returns of each query, and otherwise what the request gives
abbrev pub unless_alone {ℓ} : {A : Type ℓ} → Bool → Option ℕ → A → (ℕ → Option A) → Option A
unless_alone only_local none local ask = some local
unless_alone only_local (some n) local ask =
    if only_local then some local else if leb n 1 then some local else ask n

module _ (h : Heap) (l : Adapter) (app : Text) (only_local : Bool) (num_sub : Option ℕ)
    (arrivals : List Arrival) where
  unfoldable pub get_sockets_count : Option ℕ
  get_sockets_count =
      let local = LocalAdapter.sockets_count l app in
      unless_alone only_local num_sub local λ n. do
        a ← wait_for_response h sockets_count n 0 (record empty { total = local }) arrivals
        some a.total

  unfoldable pub get_channels_with_sockets_count : Option (Map ℕ)
  get_channels_with_sockets_count =
      let local = LocalAdapter.channels_with_sockets_count l app in
      unless_alone only_local num_sub local λ n. do
        a ←
            wait_for_response h channels_with_sockets_count n 0 (record empty { counts = local })
              arrivals
        some a.counts

  unfoldable pub get_presence_channels_with_users_count : Option (Map ℕ)
  get_presence_channels_with_users_count =
      let local = LocalAdapter.presence_channels_with_users_count h l app in
      unless_alone only_local num_sub local λ n. do
        a ←
            wait_for_response h presence_channels_with_users_count n 0
              (record empty { counts = local }) arrivals
        some a.counts

  unfoldable pub get_channel_sockets : Text → Option (Map Ref)
  get_channel_sockets channel =
      let local = LocalAdapter.channel_sockets l app channel in
      unless_alone only_local num_sub local λ n. do
        a ← wait_for_response h channel_sockets n 0 (record empty { sockets = local }) arrivals
        some a.sockets

  unfoldable pub get_channel_sockets_count : Text → Option ℕ
  get_channel_sockets_count channel =
      let local = LocalAdapter.channel_sockets_count l app channel in
      unless_alone only_local num_sub local λ n. do
        a ← wait_for_response h channel_sockets_count n 0 (record empty { total = local }) arrivals
        some a.total

  unfoldable pub get_channel_members : Text → Option (Map MemberData)
  get_channel_members channel =
      let local = LocalAdapter.channel_members h l app channel in
      unless_alone only_local num_sub local λ n. do
        a ← wait_for_response h channel_members n 0 (record empty { members = local }) arrivals
        some a.members

  unfoldable pub get_channel_members_count : Text → Option ℕ
  get_channel_members_count channel =
      let local = LocalAdapter.channel_members_count h l app channel in
      unless_alone only_local num_sub local λ n. do
        a ← wait_for_response h channel_members_count n 0 (record empty { total = local }) arrivals
        some a.total

  -- the request starts from "does not exist", whatever the node itself has
  unfoldable pub is_in_channel : Text → Text → Option Bool
  is_in_channel channel id =
      unless_alone only_local num_sub (LocalAdapter.is_in_channel l app channel id)
        λ n. do a ← wait_for_response h socket_exists_in_channel n 0 empty arrivals; some a.exists

  -- the namespace's map is the one that the answers are written to
  abbrev pub store_sockets : Map Ref → Adapter
  store_sockets m = elim (namespace l app) [
    | none ↦ l
    | some n ↦ store l app (record n { sockets = m })
  ]

  unfoldable pub get_sockets : Option (Adapter × Map Ref)
  get_sockets =
      let local = LocalAdapter.sockets l app in
      unless_alone only_local num_sub (l, local)
        λ n. do
          a ←
              wait_for_response h RequestType.sockets n 0 (record empty { sockets = local })
                arrivals
          some (store_sockets a.sockets, a.sockets)

  abbrev pub store_channels : Map (List Text) → Adapter
  store_channels m = elim (namespace l app) [
    | none ↦ l
    | some n ↦ store l app (record n { channels = m })
  ]

  -- a nil map is replaced by an empty one for the request
  unfoldable pub get_channels : Option (Adapter × Option (Map (List Text)))
  get_channels =
      let local = LocalAdapter.channels l app in
      unless_alone only_local num_sub (l, local)
        λ n. do
          a ←
              wait_for_response h RequestType.channels n 0
                (record empty { channels = entries local }) arrivals
          some (store_channels a.channels, some a.channels)
