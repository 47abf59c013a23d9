-- ===== src/Tests/Sessions.antt =====
-- Two connections to one node.
use pusher.Prelude.{◌≡◌, refl, true, some, ◌==◌, get, put}
use pusher.LocalAdapter
use pusher.Namespace.{add_socket, add_to_channel, add_user}
use pusher.Session.Closing.{Gone, close_connection-Gone}
use pusher.Session.Leaving.{close_connection}
use pusher.Session.World.{World, close_expected}
use pusher.Tests.Data.{alice, shop, node, node-AllTidy, world}

close_connection-Gone_example :
    (t : World) × (close_connection 0 close_expected world ≡ some t)
    × Gone node t.adapter shop.id alice.id
    × ((t.heap 0).closed ≡ true)
unfolding LocalAdapter.sockets get put add_socket add_to_channel add_user ◌==◌
close_connection-Gone_example =
    close_connection-Gone 0 close_expected world shop 0 node-AllTidy refl refl refl
