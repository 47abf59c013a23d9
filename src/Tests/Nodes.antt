-- ===== src/Tests/Nodes.antt =====
-- A node with one app.
use pusher.Prelude.{
  ℕ, ◌≡◌, refl, ◌↔◌, true, false, ◌&&◌, not, some, List, Text, ◌==◌, get, put, is_nil, has_prefix,
  Occurs,
}
use pusher.LocalAdapter.{send}
use pusher.LocalAdapter.Calls.{Contained, invoke, invoke-Contained, join}
use pusher.LocalAdapter.Delivery.{send_reaches}
use pusher.Namespace
use pusher.Namespace.{Namespace}
use pusher.Tests.Data.{room, alice, heap, busy, node, node-AllTidy, shop}

invoke-Contained_example : Contained shop.id node (invoke heap shop.id (join room 1) node)
invoke-Contained_example = invoke-Contained heap shop.id (join room 1) node node-AllTidy

send_reaches_example :
    (found : List ℕ) × (send node shop.id room alice.id ≡ some found)
    × (Occurs 1 found ↔ (
        (id : Text) × (Namespace.is_in_channel busy id room ≡ true)
        × (get busy.sockets id ≡ some 1)
        × ((not (is_nil alice.id) && id == alice.id) ≡ false)))
unfolding get put ◌==◌ has_prefix
send_reaches_example = send_reaches node shop.id room alice.id busy 1 refl refl
