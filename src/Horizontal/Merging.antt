-- ===== src/Horizontal/Merging.antt =====
-- The members of a channel over several nodes, as internal/adaptersHorizontal.go merges them.
use pusher.Prelude.{
  suc, ◌+◌, ◌≤◌, ◌≡◌, ◌≢◌, refl, ap, ◌∙◌, false, ◌||◌, some, List, [], ◌∷◌, ◌++◌, arith, length,
  Text, Map, get, put, get-put, ◌==◌, eq_iff, is_some, leb, >>=-some,
}
use mathlib.Core.List.{Perm}
use pusher.Socket.{Heap, MemberData}
use pusher.LocalAdapter
use pusher.LocalAdapter.{Adapter}
use pusher.Horizontal.{channel_members, Answer, empty, Arrival, absorb, add_members}
use pusher.Horizontal.Answering.{channel_request, answer_locally}
use pusher.Horizontal.Cluster.{
  Node, Heard, nobody, one, length-Heard, on_request-local, total_over, total_over-Perm, any_over,
  any_over-Perm, length-Perm,
}
use pusher.Horizontal.Queries.{get_channel_members}
use pusher.Horizontal.Waiting.{absorb_all, arriving, wait_for_response-all}

get-add_members :
    (m a : Map MemberData) (u : Text)
    → is_some (get (add_members m a) u) ≡ (is_some (get m u) || is_some (get a u))
unfolding add_members get
get-add_members m [] u = ground arith
get-add_members m ((id, d) ∷ a) u =
    ground (arith, get-add_members (put m id d) a u, get-put m id d u, eq_iff id u)

length-put : (m : Map MemberData) (k : Text) (d : MemberData) → length (put m k d) ≤ length m + 1
unfolding put
length-put [] k d = omega arith
length-put ((j, e) ∷ m) k d = ground (arith, length-put m k d)

length-add_members : (m a : Map MemberData) → length (add_members m a) ≤ length m + length a
unfolding add_members
length-add_members m [] = omega arith
length-add_members m ((id, d) ∷ a) =
    omega (arith, length-add_members (put m id d) a, length-put m id d)

-- the members that a node has
abbrev pub members_at : Text → Text → Node → Map MemberData
members_at app channel n = LocalAdapter.channel_members n.heap n.adapter app channel

absorb_all-members :
    (h : Heap) (id app channel u : Text) (final : Answer) (ns : List Node) (as_ : List Answer)
    → Heard (channel_request channel_members id app channel) ns as_
    → (is_some (get (absorb_all h channel_members final as_).members u) ≡ (
        is_some (get final.members u)
        || any_over (λ n. is_some (get (members_at app channel n) u)) ns))
      × (length (absorb_all h channel_members final as_).members
          ≤ length final.members + total_over (λ n. length (members_at app channel n)) ns)
unfolding absorb_all total_over any_over absorb answer_locally get ◌==◌
absorb_all-members h id app channel u final [] [] nobody = ground arith
absorb_all-members h id app channel u final [] (a ∷ as_) r = elim r [ ]
absorb_all-members h id app channel u final (n ∷ ns) [] r = elim r [ ]
absorb_all-members h id app channel u final (n ∷ ns) (a ∷ as_) (one e r) =
    let same : a.members ≡ members_at app channel n =
      ground (arith, on_request-local (channel_request channel_members id app channel) n a e) in
    ground (
      arith,
      same,
      get-add_members final.members a.members u,
      length-add_members final.members a.members,
      absorb_all-members h id app channel u (absorb h channel_members final a) ns as_ r,
    )

-- GetChannelMembers over several nodes: when all other nodes have answered, in whatever order, it has
-- exactly the users that some node has, and not more than the sum of what the nodes count.
pub get_channel_members_refines :
    (h : Heap) (l : Adapter) (id app channel : Text) (others heard : List Node) (as_ : List Answer)
    (later : List Arrival)
    → others ≢ []
    → Perm heard others
    → Heard (channel_request channel_members id app channel) heard as_
    → (m : Map MemberData) × (get_channel_members h l app false
          (some (suc (length others)))
          (arriving as_ ++ later)
          channel
        ≡ some m)
      × ((u : Text)
          → is_some (get m u) ≡ (
              is_some (get (LocalAdapter.channel_members h l app channel) u)
              || any_over (λ n. is_some (get (members_at app channel n) u)) others))
      × (length m
          ≤ LocalAdapter.channel_members_count h l app channel
            + total_over
                (λ n. LocalAdapter.channel_members_count n.heap n.adapter app channel)
                others)
unfolding get_channel_members LocalAdapter.channel_members_count
get_channel_members_refines h l id app channel [] heard as_ later some_ p r = absurd (some_ refl)
get_channel_members_refines h l id app channel (o ∷ others) heard [] later some_ p r =
    absurd (omega (arith, length-Heard r, length-Perm p))
get_channel_members_refines h l id app channel (o ∷ others) heard (a ∷ as_) later some_ p r =
    let start : Answer = record empty { members = LocalAdapter.channel_members h l app channel } in
    let many : leb (suc (length (o ∷ others))) 1 ≡ false = ground arith in
    let e =
      wait_for_response-all h channel_members (suc (length (o ∷ others))) 0 start a as_ later
        (λ x. refl) (omega (arith, length-Heard r, length-Perm p)) in
    (
      (absorb_all h channel_members start (a ∷ as_)).members,
      rw many (>>=-some _ e),
      λ u.
          (absorb_all-members h id app channel u start heard (a ∷ as_) r).0
          ∙ ap (λ x. is_some (get start.members u) || x)
              (any_over-Perm (λ n. is_some (get (members_at app channel n) u)) p),
      omega (
        arith,
        (absorb_all-members h id app channel [] start heard (a ∷ as_) r).1,
        total_over-Perm (λ n. length (members_at app channel n)) p,
      ),
    )
