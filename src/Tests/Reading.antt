-- ===== src/Tests/Reading.antt =====
-- Connections whose read loop ends.
use pusher.Prelude.{
  ℕ, zero, suc, ◌≡◌, refl, true, false, none, some, List, [], ◌∷◌, ◌++◌, Text, codes, length, arith,
  get, put, ◌==◌,
}
use pusher.LocalAdapter
use pusher.Namespace.{add_to_channel, add_socket, add_user}
use pusher.Session.Closing.{Gone}
use pusher.Session.Listening.{Received, whole, fails, reading, returned, end_of_file, listen, round}
use pusher.Session.Reading.{listen_oversized, listen_cut_off}
use pusher.Session.World.{World, ErrorCode, Codec}
use pusher.Tests.Data.{alice, shop, node, node-AllTidy, world}

abbrev codec : Codec
codec = record {
  hmac = λ secret message. secret ++ message;
  event_name = λ t. none;
  subscribe = λ t. none;
  unsubscribe = λ t. none;
  signin = λ t. none;
  user_id = λ t. none;
  client_event = λ t. none;
  member = λ t. none;
}

abbrev explain : ErrorCode → Text
explain e = codes "error"

-- a message of n zero bytes
zeros : ℕ → Text
zeros zero = []
zeros (suc n) = 0 ∷ zeros n

length-zeros : (n : ℕ) → length (zeros n) ≡ n
unfolding zeros
length-zeros zero = refl
length-zeros (suc n) = omega (arith, length-zeros n)

-- one byte, which the loop ignores
abbrev ignored : List Received
ignored = whole (codes "a") ∷ []

-- the loop is still reading after it
still_reading : listen codec explain 0 ignored world ≡ some (world, reading)
unfolding listen round
still_reading = refl

listen_oversized_example :
    (listen codec explain 0 (ignored ++ whole (zeros 20481) ∷ []) world ≡ some (world, returned))
    × ((world.heap 0).closed ≡ false)
    × ((world.heap 0).connected ≡ true)
listen_oversized_example =
    listen_oversized codec explain 0 ignored [] (zeros 20481) world world still_reading
      (omega (arith, length-zeros 20481))

listen_cut_off_example :
    (u : World) × (listen codec explain 0 (ignored ++ fails end_of_file ∷ []) world
      ≡ some (u, returned))
    × Gone node u.adapter shop.id alice.id
    × ((u.heap 0).closed ≡ true)
unfolding get LocalAdapter.sockets put ◌==◌ add_to_channel add_socket add_user
listen_cut_off_example =
    listen_cut_off codec explain 0 ignored [] end_of_file world world shop 0 still_reading
      node-AllTidy refl refl refl
