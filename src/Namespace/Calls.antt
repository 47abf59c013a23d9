-- ===== src/Namespace/Calls.antt =====
-- The methods of internal/namespace.go as calls in sequence: none of them panics.
use pusher.Prelude.{◌≡◌, refl, Option, some, List, [], ◌∷◌, Text, ◌>>=◌}
use pusher.Socket.{Heap, Ref}
use pusher.Namespace.{
  Namespace, add_socket, remove_socket, add_to_channel, remove_from_channel, add_user, remove_user,
  compact_maps,
}
use pusher.Namespace.Tidy.{
  IsTidy, Safe, add_socket-IsTidy, remove_socket-IsTidy, add_to_channel-IsTidy,
  remove_from_channel-IsTidy, add_user-IsTidy, remove_user-IsTidy, compact_maps-IsTidy,
}

-- The calls that change a namespace.
pub data Call : Type 0 where
  add : Ref → Call
  drop : Text → Call
  join : Ref → Text → Call
  leave : Text → List Text → Call
  sign_in : Ref → Call
  sign_out : Ref → Call
  compact : Call

pub invoke : Heap → Call → Namespace → Option Namespace
invoke h (add ws) n = some (add_socket h ws n).0
invoke h (drop id) n = remove_socket h id n
invoke h (join ws c) n = some (add_to_channel h ws c n).0
invoke h (leave id cs) n = do (n', r) ← remove_from_channel id cs n; some n'
invoke h (sign_in ws) n = some (add_user h ws n)
invoke h (sign_out ws) n = remove_user h ws n
invoke h compact n = some (compact_maps n)

-- Between two calls the sockets' own fields may change: each call has its heap.
pub invoke_all : List (Heap × Call) → Namespace → Option Namespace
invoke_all [] n = some n
invoke_all ((h, c) ∷ cs) n = do n' ← invoke h c n; invoke_all cs n'

invoke-IsTidy : (h : Heap) (c : Call) (n : Namespace) → IsTidy n → Safe (invoke h c n)
unfolding invoke
invoke-IsTidy h (add ws) n t = ((add_socket h ws n).0, refl, add_socket-IsTidy h ws n t)
invoke-IsTidy h (drop id) n t = remove_socket-IsTidy h id n t
invoke-IsTidy h (join ws c) n t =
    ((add_to_channel h ws c n).0, refl, add_to_channel-IsTidy h ws c n t)
invoke-IsTidy h (leave id cs) n t =
    let (n', r, done, t') = remove_from_channel-IsTidy id cs n t in (n', rw done, t')
invoke-IsTidy h (sign_in ws) n t = (add_user h ws n, refl, add_user-IsTidy h ws n t)
invoke-IsTidy h (sign_out ws) n t = remove_user-IsTidy h ws n t
invoke-IsTidy h compact n t = (compact_maps n, refl, compact_maps-IsTidy n t)

-- From a tidy namespace every sequence of calls, whatever the sockets' fields are at each of them,
-- runs without a panic and ends in a tidy namespace.
pub invoke_all-IsTidy :
    (cs : List (Heap × Call)) (n : Namespace)
    → IsTidy n
    → (n' : Namespace) × (invoke_all cs n ≡ some n') × IsTidy n'
unfolding invoke_all
invoke_all-IsTidy [] n t = (n, refl, t)
invoke_all-IsTidy ((h, c) ∷ cs) n t =
    let (n1, one, t1) = invoke-IsTidy h c n t in
    let (n2, more, t2) = invoke_all-IsTidy cs n1 t1 in (n2, rw one more, t2)
