-- ===== src/Horizontal/Membership.antt =====
-- IsInChannel of internal/adaptersHorizontal.go over several nodes.
use pusher.Prelude.{
  ℕ, suc, ◌+◌, ◌≡◌, ◌≢◌, refl, ap, ◌∙◌, Bool, false, some, List, [], ◌∷◌, ◌++◌, arith, length, Text,
  codes, get, ◌==◌, leb, Bool-cases, inl, inr, >>=-some,
}
use mathlib.Core.List.{Perm}
use pusher.Socket.{Heap}
use pusher.LocalAdapter
use pusher.LocalAdapter.{Adapter}
use pusher.Horizontal.{socket_exists_in_channel, Answer, empty, Arrival, absorb, wait_for_response}
use pusher.Horizontal.Answering.{RequestBody, channel_request, answer_locally}
use pusher.Horizontal.Cluster.{
  Node, Heard, one, on_request-local, any_over, any_over-Perm, length-Perm,
}
use pusher.Horizontal.Queries.{is_in_channel}
use pusher.Horizontal.Waiting.{arriving}

-- the body of the request: the channel and the socket
abbrev pub exists_request : Text → Text → Text → Text → RequestBody
exists_request id app channel socket =
    record (channel_request socket_exists_in_channel id app channel) {
      opts = (codes "channel", channel) ∷ (codes "socketId", socket) ∷ [];
    }

-- the node has the socket in the channel
abbrev pub has_at : Text → Text → Text → Node → Bool
has_at app channel socket n = LocalAdapter.is_in_channel n.adapter app channel socket

exists-Heard :
    (h : Heap) (id app channel socket : Text) (num_sub count : ℕ) (final : Answer) (n : Node)
    (ns : List Node) (a : Answer) (as_ : List Answer) (later : List Arrival)
    → final.exists ≡ false
    → length ns + count + 2 ≡ num_sub
    → Heard (exists_request id app channel socket) (n ∷ ns) (a ∷ as_)
    → (r : Answer) × (wait_for_response h socket_exists_in_channel num_sub count final
          (arriving (a ∷ as_) ++ later)
        ≡ some r)
      × (r.exists ≡ any_over (has_at app channel socket) (n ∷ ns))
unfolding wait_for_response absorb any_over answer_locally get ◌==◌
exists-Heard h id app channel socket num_sub count final n [] a as_ later f e (one g r) =
    let same : a.exists ≡ has_at app channel socket n =
      ground (arith, on_request-local (exists_request id app channel socket) n a g) in
    let final' = absorb h socket_exists_in_channel final a in
    (final', ground (arith, e), ground (arith, same, f))
exists-Heard h id app channel socket num_sub count final n (m ∷ ns) a [] later f e (one g r) =
    elim r [ ]
exists-Heard h id app channel socket num_sub count final n (m ∷ ns) a (b ∷ as_) later f e
      (one g r) =
    let same : a.exists ≡ has_at app channel socket n =
      ground (arith, on_request-local (exists_request id app channel socket) n a g) in
    let final' = absorb h socket_exists_in_channel final a in
    elim (Bool-cases a.exists) [
      | inl y ↦ (final', ground (arith, y), ground (arith, same, f, y))
      | inr no_ ↦
          let (q, w, x) =
            exists-Heard h id app channel socket num_sub (count + 1) final' m ns b as_ later
              (ground (arith, f, no_)) (omega (arith, e)) r in
          (q, ground (arith, no_, e, w), ground (arith, same, no_, x))
    ]

-- IsInChannel over several nodes, when all other nodes have answered, in whatever order: it tells
-- whether one of the other nodes has the socket in the channel. What the asking node itself has does
-- not count.
pub is_in_channel_elsewhere :
    (h : Heap) (l : Adapter) (id app channel socket : Text) (others heard : List Node)
    (as_ : List Answer) (later : List Arrival)
    → others ≢ []
    → Perm heard others
    → Heard (exists_request id app channel socket) heard as_
    → is_in_channel h l app false
        (some (suc (length others)))
        (arriving as_ ++ later)
        channel
        socket
      ≡ some (any_over (has_at app channel socket) others)
unfolding is_in_channel
is_in_channel_elsewhere h l id app channel socket [] heard as_ later some_ p r = absurd (some_ refl)
is_in_channel_elsewhere h l id app channel socket (o ∷ others) [] as_ later some_ p r =
    absurd (omega (arith, length-Perm p))
is_in_channel_elsewhere h l id app channel socket (o ∷ others) (n ∷ heard) [] later some_ p r =
    elim r [ ]
is_in_channel_elsewhere h l id app channel socket (o ∷ others) (n ∷ heard) (a ∷ as_) later some_ p
      r =
    let many : leb (suc (length (o ∷ others))) 1 ≡ false = ground arith in
    let (q, w, x) =
      exists-Heard h id app channel socket (suc (length (o ∷ others))) 0 empty n heard a as_ later
        refl (omega (arith, length-Perm p)) r in
    rw many (>>=-some _ w ∙ ap some (x ∙ any_over-Perm (has_at app channel socket) p))
