-- ===== src/Tests/Rooms.antt =====
-- Namespaces of two connections.
use pusher.Prelude.{
  ◌≡◌, refl, false, ◌&&◌, not, none, some, [], ◌∷◌, Text, ◌==◌, get, put, contains, is_nil,
  if◌then◌else◌,
}
use pusher.Namespace.{
  Namespace, blank, add_socket, remove_socket, add_to_channel, is_in_channel, add_user,
}
use pusher.Namespace.Calls.{invoke_all, invoke_all-IsTidy, add, join, sign_in, leave, drop, compact}
use pusher.Namespace.Departure.{remove_socket_lem}
use pusher.Namespace.Removal.{holds}
use pusher.Namespace.Tidy.{IsTidy, blank-IsTidy}
use pusher.Tests.Data.{room, alice, heap, busy, busy-IsTidy}

invoke_all-IsTidy_example :
    (n' : Namespace) × (invoke_all
        ((heap, add 0)
          ∷ (heap, join 0 room)
          ∷ (heap, sign_in 0)
          ∷ (heap, leave alice.id (room ∷ []))
          ∷ (heap, compact)
          ∷ (heap, drop alice.id)
          ∷ [])
        blank
      ≡ some n')
    × IsTidy n'
invoke_all-IsTidy_example =
    invoke_all-IsTidy
      ((heap, add 0)
        ∷ (heap, join 0 room)
        ∷ (heap, sign_in 0)
        ∷ (heap, leave alice.id (room ∷ []))
        ∷ (heap, compact)
        ∷ (heap, drop alice.id)
        ∷ [])
      blank blank-IsTidy

remove_socket_lem_example :
    (n' : Namespace) × (remove_socket heap alice.id busy ≡ some n')
    × ((j : Text) → get n'.sockets j ≡ (if alice.id == j then none else get busy.sockets j))
    × ((j c : Text)
        → is_in_channel n' j c ≡ (if alice.id == j then false else is_in_channel busy j c))
    × ((j u : Text)
        → holds (get n'.users u) j ≡ (
            if alice.id == j && (alice.user_id == u && not (is_nil alice.user_id))
            then false
            else holds (get busy.users u) j))
unfolding get put add_socket add_to_channel add_user contains ◌==◌
remove_socket_lem_example = remove_socket_lem heap alice.id 0 busy busy-IsTidy refl
