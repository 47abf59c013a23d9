-- ===== src/Namespace/Compact.antt =====
-- CompactMaps of internal/namespace.go runs beside the server every five minutes.
use pusher.Prelude.{◌≡◌, arith, Text}
use pusher.Socket.{Heap}
use pusher.Namespace.{
  Namespace, compact_maps, is_in_channel, channel_sockets, channel_members, user_sockets,
}
use pusher.Namespace.Tidy.{IsTidy, get-drop_empty}

-- On a tidy namespace compaction cannot be noticed: membership, the sockets and the members of each
-- channel and the sockets of each user are what they were.
pub compact_maps_invisible :
    (h : Heap) (n : Namespace) (c id u : Text)
    → IsTidy n
    → (is_in_channel (compact_maps n) id c ≡ is_in_channel n id c)
      × (channel_sockets (compact_maps n) c ≡ channel_sockets n c)
      × (channel_members h (compact_maps n) c ≡ channel_members h n c)
      × (user_sockets (compact_maps n) u ≡ user_sockets n u)
unfolding compact_maps is_in_channel channel_sockets channel_members user_sockets
compact_maps_invisible h n c id u t =
    let channel = get-drop_empty n.channels c (t.channels_ne c) in
    let user = get-drop_empty n.users u (t.users_ne u) in
    let sockets : channel_sockets (compact_maps n) c ≡ channel_sockets n c =
      ground (arith, channel) in
    (ground (arith, channel), sockets, rw sockets, ground (arith, user))
