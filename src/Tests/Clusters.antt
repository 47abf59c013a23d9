-- ===== src/Tests/Clusters.antt =====
-- Two nodes that both have the connections of Data.
use pusher.Prelude.{
  ℕ, ◌+◌, ◌≤◌, ◌≡◌, ◌≢◌, Option, refl, ◌↔◌, true, false, ◌&&◌, ◌||◌, not, none, some, List, [], ◌∷◌,
  ◌++◌, arith, Text, codes, Map, ◌==◌, get, put, is_some, is_nil, length, contains, has_prefix,
  Occurs, inr,
}
use mathlib.Core.List.Perm
use pusher.Horizontal.{
  sockets_count, channel_sockets_count, channel_members_count, channel_members,
  terminate_user_connections, Answer, empty, answers, wait_for_response,
}
use pusher.Horizontal.Answering.{plain_request, channel_request, on_request, answer_locally}
use pusher.Horizontal.Cluster.{Node, Heard, nobody, one, total_over, any_over}
use pusher.Horizontal.Delivery.{send_everywhere}
use pusher.Horizontal.Membership.{exists_request, has_at, is_in_channel_elsewhere}
use pusher.Horizontal.Merging.{members_at, get_channel_members_refines}
use pusher.Horizontal.Queries.{
  get_channel_sockets_count, get_channel_members_count, get_channel_members, is_in_channel,
}
use pusher.Horizontal.Relay.{send, on_message, over_the_wire}
use pusher.Horizontal.Storm.{Parcel, Step, Reach, count_foreign}
use pusher.Horizontal.Totals.{get_channel_counts_refine}
use pusher.Horizontal.Unending.{terminate_never_rests}
use pusher.Horizontal.Waiting.{arriving, wait_for_response_returns}
use pusher.LocalAdapter
use pusher.LocalAdapter.{Adapter}
use pusher.Namespace
use pusher.Socket.{Ref, MemberData}
use pusher.Tests.Data.{room, lobby, shop, alice, heap, node, busy, empty_node}

abbrev peer : Node
peer = record { heap = heap; adapter = node; own = [] }

abbrev peers : List Node
peers = peer ∷ []

some_peer : peers ≢ []
some_peer = λ e. cc

abbrev number : Text
number = codes "n"

abbrev two_sockets : Answer
two_sockets = record empty { total = LocalAdapter.sockets_count node shop.id }

wait_for_response_returns_example :
    (a : Answer) × (wait_for_response heap sockets_count 2 0 empty (answers two_sockets ∷ [])
      ≡ some a)
wait_for_response_returns_example =
    wait_for_response_returns heap sockets_count 2 0 empty (answers two_sockets ∷ [])
      (inr (omega arith, omega arith))

two-Heard : Heard (plain_request sockets_count number shop.id) peers (two_sockets ∷ [])
unfolding on_request answer_locally contains
two-Heard = one refl nobody

abbrev members_answer : Answer
members_answer = record empty { members = members_at shop.id lobby peer }

abbrev in_room : Answer
in_room = record empty { total = LocalAdapter.channel_sockets_count node shop.id room }

abbrev members_in_room : Answer
members_in_room = record empty { total = LocalAdapter.channel_members_count heap node shop.id room }

room-Heard : Heard (channel_request channel_sockets_count number shop.id room) peers (in_room ∷ [])
unfolding on_request answer_locally contains get ◌==◌
room-Heard = one refl nobody

room_members-Heard :
    Heard (channel_request channel_members_count number shop.id room) peers (members_in_room ∷ [])
unfolding on_request answer_locally contains get ◌==◌
room_members-Heard = one refl nobody

get_channel_counts_refine_example :
    (get_channel_sockets_count heap node shop.id false (some 2) (arriving (in_room ∷ []) ++ []) room
      ≡ some (
          LocalAdapter.channel_sockets_count node shop.id room
          + total_over (λ n. LocalAdapter.channel_sockets_count n.adapter shop.id room) peers))
    × (get_channel_members_count heap node shop.id false
          (some 2)
          (arriving (members_in_room ∷ []) ++ [])
          room
        ≡ some (
            LocalAdapter.channel_members_count heap node shop.id room
            + total_over
                (λ n. LocalAdapter.channel_members_count n.heap n.adapter shop.id room)
                peers))
get_channel_counts_refine_example =
    get_channel_counts_refine heap node number shop.id room peers peers peers (in_room ∷ [])
      (members_in_room ∷ []) [] some_peer Perm.rfl Perm.rfl room-Heard room_members-Heard

lobby-Heard :
    Heard (channel_request channel_members number shop.id lobby) peers (members_answer ∷ [])
unfolding on_request answer_locally contains get ◌==◌
lobby-Heard = one refl nobody

get_channel_members_refines_example :
    (m : Map MemberData) × (get_channel_members heap node shop.id false
        (some 2)
        (arriving (members_answer ∷ []) ++ [])
        lobby
      ≡ some m)
    × ((u : Text)
        → is_some (get m u) ≡ (
            is_some (get (LocalAdapter.channel_members heap node shop.id lobby) u)
            || any_over (λ n. is_some (get (members_at shop.id lobby n) u)) peers))
    × (length m
        ≤ LocalAdapter.channel_members_count heap node shop.id lobby
          + total_over
              (λ n. LocalAdapter.channel_members_count n.heap n.adapter shop.id lobby)
              peers)
get_channel_members_refines_example =
    get_channel_members_refines heap node number shop.id lobby peers peers (members_answer ∷ []) []
      some_peer Perm.rfl lobby-Heard

-- a node that holds nothing asks for a socket of its peer
abbrev alice_in_room : Answer
alice_in_room = record empty { exists = LocalAdapter.is_in_channel node shop.id room alice.id }

alice-Heard : Heard (exists_request number shop.id room alice.id) peers (alice_in_room ∷ [])
unfolding on_request answer_locally contains get ◌==◌
alice-Heard = one refl nobody

is_in_channel_elsewhere_example :
    is_in_channel heap empty_node shop.id false
      (some 2)
      (arriving (alice_in_room ∷ []) ++ [])
      room
      alice.id
    ≡ some (any_over (has_at shop.id room alice.id) peers)
is_in_channel_elsewhere_example =
    is_in_channel_elsewhere heap empty_node number shop.id room alice.id peers peers
      (alice_in_room ∷ []) [] some_peer Perm.rfl alice-Heard

abbrev bobs : Answer
bobs = record empty { sockets = (codes "2.2", 1) ∷ [] }

abbrev hello : Text
hello = codes "hello"

abbrev redis : Text
redis = codes "pusher"

send_everywhere_example :
    (here there : List Ref) × ((send number node shop.id room hello alice.id).1 ≡ some here)
    × (on_message redis redis node redis
          (over_the_wire (send number node shop.id room hello alice.id).0)
        ≡ some there)
    × (on_message number redis node redis
          (over_the_wire (send number node shop.id room hello alice.id).0)
        ≡ none)
    × (Occurs 0 here ↔ (
        (id : Text) × (Namespace.is_in_channel busy id room ≡ true)
        × (get busy.sockets id ≡ some 0)
        × ((not (is_nil alice.id) && id == alice.id) ≡ false)))
    × (Occurs 0 there ↔ (
        (id : Text) × (Namespace.is_in_channel busy id room ≡ true)
        × (get busy.sockets id ≡ some 0)))
unfolding get put ◌==◌ has_prefix
send_everywhere_example =
    send_everywhere number redis node node redis shop.id room hello alice.id busy busy 0
      (λ e. absurd (ground (arith, e))) refl refl refl refl refl refl

abbrev going_round : List Parcel
going_round =
    record {
      target = 0;
      origin = 1;
      body = record (plain_request terminate_user_connections number shop.id) {
        opts = (codes "userId", codes "alice") ∷ [];
      };
    }
    ∷ []

abbrev always : ℕ → Text → Option ℕ
always i id = some 2

terminate_never_rests_example :
    (count_foreign going_round ≤ count_foreign going_round)
    × ((u : List Parcel) × Step 2 (λ i. peer) always going_round u)
unfolding get count_foreign ◌==◌
terminate_never_rests_example =
    terminate_never_rests 2 (λ i. peer) always going_round going_round (omega arith) (omega arith)
      ((omega arith, refl, (codes "alice", refl)), tt) (λ i id. refl) Reach.here
