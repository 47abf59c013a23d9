-- ===== src/Horizontal/Totals.antt =====
-- The totals of internal/adaptersHorizontal.go against the sum over all nodes.
use pusher.Prelude.{
  ◌==◌, >>=-some, ℕ, suc, ◌+◌, ◌≡◌, ◌≢◌, refl, ap, ◌∙◌, false, some, List, [], ◌∷◌, ◌++◌, arith,
  length, Text, get, leb,
}
use mathlib.Core.List.{Perm}
use pusher.Socket.{Heap}
use pusher.LocalAdapter
use pusher.LocalAdapter.{Adapter}
use pusher.Horizontal
use pusher.Horizontal.{
  RequestType, sockets_count, channel_sockets_count, channel_members_count, Answer, empty, Arrival,
  absorb,
}
use pusher.Horizontal.Answering.{
  plain_request, channel_request, RequestBody, replies, answer_locally,
}
use pusher.Horizontal.Cluster.{
  Node, Heard, nobody, one, length-Heard, on_request-local, total_over, total_over-Perm,
  length-Perm,
}
use pusher.Horizontal.Queries.{
  get_sockets_count, get_channel_sockets_count, get_channel_members_count,
}
use pusher.Horizontal.Waiting.{absorb_all, arriving, wait_for_response-all, IsUnsettled}

-- the requests that add up totals
abbrev IsTotal : RequestType → Type 0
IsTotal kind = (h : Heap) (final a : Answer) → (absorb h kind final a).total ≡ final.total + a.total

absorb_all-total :
    (h : Heap) (b : RequestBody) (f : Node → ℕ) (final : Answer) (ns : List Node)
    (as_ : List Answer)
    → IsTotal b.kind
    → ((n : Node) (a : Answer) → answer_locally n.heap b n.adapter ≡ replies a → a.total ≡ f n)
    → Heard b ns as_
    → (absorb_all h b.kind final as_).total ≡ final.total + total_over f ns
unfolding absorb_all total_over
absorb_all-total h b f final [] [] t local nobody = omega arith
absorb_all-total h b f final [] (a ∷ as_) t local r = elim r [ ]
absorb_all-total h b f final (n ∷ ns) [] t local r = elim r [ ]
absorb_all-total h b f final (n ∷ ns) (a ∷ as_) t local (one e r) = omega (
  arith,
  absorb_all-total h b f (absorb h b.kind final a) ns as_ t local r,
  t h final a,
  local n a (on_request-local b n a e),
)

-- what a query gives that asks for a total
asked :
    (h : Heap) (b : RequestBody) (f : Node → ℕ) (local : ℕ) (others heard : List Node)
    (as_ : List Answer) (later : List Arrival)
    → IsUnsettled b.kind
    → IsTotal b.kind
    → ((n : Node) (a : Answer) → answer_locally n.heap b n.adapter ≡ replies a → a.total ≡ f n)
    → others ≢ []
    → Perm heard others
    → Heard b heard as_
    → (a : Answer) × (Horizontal.wait_for_response h b.kind
          (suc (length others))
          0
          (record empty { total = local })
          (arriving as_ ++ later)
        ≡ some a)
      × (a.total ≡ local + total_over f others)
      × (leb (suc (length others)) 1 ≡ false)
asked h b f local [] heard as_ later u t loc some_ p r = absurd (some_ refl)
asked h b f local (o ∷ others) heard [] later u t loc some_ p r =
    absurd (omega (arith, length-Heard r, length-Perm p))
asked h b f local (o ∷ others) heard (a ∷ as_) later u t loc some_ p r = (
  absorb_all h b.kind (record empty { total = local }) (a ∷ as_),
  wait_for_response-all h b.kind _ 0 (record empty { total = local }) a as_ later u
      (omega (arith, length-Heard r, length-Perm p)),
  absorb_all-total h b f (record empty { total = local }) heard (a ∷ as_) t loc r
      ∙ ap (λ x. local + x) (total_over-Perm f p),
  ground arith,
)

-- GetSocketsCount over several nodes: when all other nodes have answered, in whatever order, it is the
-- sum of what every node has for the app.
pub get_sockets_count_refines :
    (h : Heap) (l : Adapter) (id app : Text) (others heard : List Node) (as_ : List Answer)
    (later : List Arrival)
    → others ≢ []
    → Perm heard others
    → Heard (plain_request sockets_count id app) heard as_
    → get_sockets_count h l app false (some (suc (length others))) (arriving as_ ++ later)
      ≡ some (
          LocalAdapter.sockets_count l app
          + total_over (λ n. LocalAdapter.sockets_count n.adapter app) others)
unfolding get_sockets_count answer_locally absorb
get_sockets_count_refines h l id app others heard as_ later some_ p r =
    let (a, e, t, many) =
      asked h (plain_request sockets_count id app) (λ n. LocalAdapter.sockets_count n.adapter app)
        (LocalAdapter.sockets_count l app) others heard as_ later (λ x. refl) (λ g x y. refl)
        (λ n x q. ground arith) some_ p r in
    rw many (>>=-some _ e ∙ ap some t)

-- GetChannelSocketsCount over several nodes: when all other nodes have answered, in whatever order, it is the sum of what every node has in the
-- channel. The sum for GetChannelMembersCount counts a user once for each node that has it.
pub get_channel_counts_refine :
    (h : Heap) (l : Adapter) (id app channel : Text) (others heard heard' : List Node)
    (as_ bs : List Answer) (later : List Arrival)
    → others ≢ []
    → Perm heard others
    → Perm heard' others
    → Heard (channel_request channel_sockets_count id app channel) heard as_
    → Heard (channel_request channel_members_count id app channel) heard' bs
    → (get_channel_sockets_count h l app false
          (some (suc (length others)))
          (arriving as_ ++ later)
          channel
        ≡ some (
            LocalAdapter.channel_sockets_count l app channel
            + total_over (λ n. LocalAdapter.channel_sockets_count n.adapter app channel) others))
      × (get_channel_members_count h l app false
            (some (suc (length others)))
            (arriving bs ++ later)
            channel
          ≡ some (
              LocalAdapter.channel_members_count h l app channel
              + total_over
                  (λ n. LocalAdapter.channel_members_count n.heap n.adapter app channel)
                  others))
unfolding get_channel_sockets_count get_channel_members_count answer_locally get ◌==◌ absorb
get_channel_counts_refine h l id app channel others heard heard' as_ bs later some_ p q r s =
    let (a, e, t, many) =
      asked h (channel_request channel_sockets_count id app channel)
        (λ n. LocalAdapter.channel_sockets_count n.adapter app channel)
        (LocalAdapter.channel_sockets_count l app channel) others heard as_ later (λ x. refl)
        (λ g x y. refl) (λ n x w. ground arith) some_ p r in
    let (b, e', t', many') =
      asked h (channel_request channel_members_count id app channel)
        (λ n. LocalAdapter.channel_members_count n.heap n.adapter app channel)
        (LocalAdapter.channel_members_count h l app channel) others heard' bs later (λ x. refl)
        (λ g x y. refl) (λ n x w. ground arith) some_ q s in
    (rw many (>>=-some _ e ∙ ap some t), rw many (>>=-some _ e' ∙ ap some t'))
