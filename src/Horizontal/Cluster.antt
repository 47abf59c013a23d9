-- ===== src/Horizontal/Cluster.antt =====
-- The other nodes of internal/adaptersHorizontal.go, and the answers they give.
use pusher.Prelude.{
  ℕ, suc, ◌+◌, ◌≡◌, refl, sym, ap, ◌∙◌, Bool, false, some, List, [], ◌∷◌, ◌||◌, arith, length, Text,
  contains, Bool-cases, inl, inr,
}
use mathlib.Core.List.{Perm, Permᴰ}
use mathlib.Core.Logic.{∥∥₁_elim}
use native.Mathlib.Nat.{ℕ_set}
use pusher.Socket.{Heap}
use pusher.LocalAdapter.{Adapter}
use pusher.Horizontal.{Answer}
use pusher.Horizontal.Answering.{RequestBody, replies, answer_locally, on_request}

-- `own` are the ids of the node's own requests
pub record Node : Type 0 where
  pub heap : Heap
  pub adapter : Adapter
  pub own : List Text

-- These nodes answer the request, with these answers, in this order.
pub data Heard (b : RequestBody) : List Node → List Answer → Type 0 where
  nobody : Heard b [] []
  one :
      {n : Node} {a : Answer} {ns : List Node} {as_ : List Answer}
      → on_request n.heap n.own (some b) n.adapter ≡ replies a
      → Heard b ns as_
      → Heard b (n ∷ ns) (a ∷ as_)

pub length-Heard :
    {b : RequestBody} {ns : List Node} {as_ : List Answer} → Heard b ns as_ → length as_ ≡ length ns
length-Heard nobody = refl
length-Heard (one e r) = ap suc (length-Heard r)

-- a node that answers gives its local answer
pub on_request-local :
    (b : RequestBody) (n : Node) (a : Answer)
    → on_request n.heap n.own (some b) n.adapter ≡ replies a
    → answer_locally n.heap b n.adapter ≡ replies a
unfolding on_request
on_request-local b n a e = elim (Bool-cases (contains n.own b.request_id)) [
  | inl y ↦ absurd (ground (arith, y, e))
  | inr no_ ↦ ground (arith, no_, e)
]

-- a number of each node, added up
unfoldable pub total_over : (Node → ℕ) → List Node → ℕ
total_over f [] = 0
total_over f (n ∷ ns) = f n + total_over f ns

total_over-Permᴰ :
    (f : Node → ℕ) {ms ns : List Node} → Permᴰ ms ns → total_over f ms ≡ total_over f ns
unfolding total_over
total_over-Permᴰ f Permᴰ.nil = refl
total_over-Permᴰ f (Permᴰ.cons e p) = omega (arith, ap f e, total_over-Permᴰ f p)
total_over-Permᴰ f (Permᴰ.swap {l = l} e g) = omega (arith, ap f e, ap f g)
total_over-Permᴰ f (Permᴰ.trans p q) = total_over-Permᴰ f p ∙ total_over-Permᴰ f q

-- the order of the nodes does not matter
pub total_over-Perm :
    (f : Node → ℕ) {ms ns : List Node} → Perm ms ns → total_over f ms ≡ total_over f ns
total_over-Perm f p = ∥∥₁_elim p (ℕ_set _ _) (total_over-Permᴰ f)

length-total_over : (ns : List Node) → length ns ≡ total_over (λ n. 1) ns
unfolding total_over
length-total_over [] = refl
length-total_over (n ∷ ns) = omega (arith, length-total_over ns)

pub length-Perm : {ms ns : List Node} → Perm ms ns → length ms ≡ length ns
length-Perm {ms} {ns} p =
    length-total_over ms ∙ total_over-Perm (λ n. 1) p ∙ sym (length-total_over ns)

-- one of the nodes passes the test
unfoldable pub any_over : (Node → Bool) → List Node → Bool
any_over p [] = false
any_over p (n ∷ ns) = p n || any_over p ns

any_over-Permᴰ : (p : Node → Bool) {ms ns : List Node} → Permᴰ ms ns → any_over p ms ≡ any_over p ns
unfolding any_over
any_over-Permᴰ p Permᴰ.nil = refl
any_over-Permᴰ p (Permᴰ.cons e d) = ground (arith, ap p e, any_over-Permᴰ p d)
any_over-Permᴰ p (Permᴰ.swap {l = l} e g) = ground (arith, ap p e, ap p g)
any_over-Permᴰ p (Permᴰ.trans d e) = any_over-Permᴰ p d ∙ any_over-Permᴰ p e

pub any_over-Perm :
    (p : Node → Bool) {ms ns : List Node} → Perm ms ns → any_over p ms ≡ any_over p ns
any_over-Perm p d = ∥∥₁_elim d (hlevel) (any_over-Permᴰ p)
