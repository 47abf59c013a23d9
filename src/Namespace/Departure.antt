-- ===== src/Namespace/Departure.antt =====
-- RemoveSocket of internal/namespace.go: what is left of a connection, and GetUserSockets.
use pusher.Prelude.{
  ◌≡◌, false, ◌&&◌, not, none, some, if◌then◌else◌, arith, is_nil, Text, ◌==◌, eq_iff, get, del,
  get-del,
}
use pusher.Socket.{Heap, Ref}
use pusher.Namespace.{Namespace, is_in_channel, remove_socket}
use pusher.Namespace.Removal.{holds, holds-squash, remove_id_lem, remove_id_each-keys}
use pusher.Namespace.Tidy.{IsTidy}
use pusher.Namespace.Membership.{is_in_channel-holds}

-- Removing a connected socket from a tidy namespace succeeds; afterwards its id is not connected and
-- is in no channel, its user no longer lists it, and nothing has changed for any other socket or any
-- other user.
pub remove_socket_lem :
    (h : Heap) (id : Text) (ws : Ref) (n : Namespace)
    → IsTidy n
    → get n.sockets id ≡ some ws
    → (n' : Namespace) × (remove_socket h id n ≡ some n')
      × ((j : Text) → get n'.sockets j ≡ (if id == j then none else get n.sockets j))
      × ((j c : Text) → is_in_channel n' j c ≡ (if id == j then false else is_in_channel n j c))
      × ((j u : Text)
          → holds (get n'.users u) j ≡ (
              if id == j && ((h ws).user_id == u && not (is_nil (h ws).user_id))
              then false
              else holds (get n.users u) j))
unfolding remove_socket
remove_socket_lem h id ws n t e =
    let user = (h ws).user_id in
    let (m, gone, at) = remove_id_each-keys id n.channels t.channels_ne in
    let (m', done, by) = remove_id_lem id n.users user (t.users_ne user) in
    let n' : Namespace = record {
      channels = m;
      sockets = del n.sockets id;
      users = if is_nil user then n.users else m';
    } in
    (
      n',
      ground (arith, e, gone, done),
      λ j. get-del n.sockets id j,
      λ j c. ground (
        arith,
        at c,
        is_in_channel-holds n' j c,
        is_in_channel-holds n j c,
        holds-squash id (get n.channels c) j,
      ),
      λ j u. ground (arith, by u, eq_iff user u, holds-squash id (get n.users user) j),
    )

-- Removing a socket that is not connected changes nothing.
pub remove_socket_absent :
    (h : Heap) (id : Text) (n : Namespace) → get n.sockets id ≡ none → remove_socket h id n ≡ some n
unfolding remove_socket
remove_socket_absent h id n e = rw (e, remove_socket)
