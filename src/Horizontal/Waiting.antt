-- ===== src/Horizontal/Waiting.antt =====
-- When waitForResponse of internal/adaptersHorizontal.go ends, and with what.
use pusher.Prelude.{
  ℕ, ◌+◌, ◌≤◌, ◌≡◌, refl, false, ◌⊎◌, inl, inr, some, List, [], ◌∷◌, ◌++◌, arith, eqb, length,
  Occurs, Bool-cases,
}
use pusher.Socket.{Heap}
use pusher.Horizontal.{
  RequestType, Answer, Arrival, answers, times_out, absorb, is_settled, wait_for_response,
}

-- the answers one after the other
unfoldable pub absorb_all : Heap → RequestType → Answer → List Answer → Answer
absorb_all h kind final [] = final
absorb_all h kind final (a ∷ rest) = absorb_all h kind (absorb h kind final a) rest

abbrev pub arriving : List Answer → List Arrival
arriving [] = []
arriving (a ∷ rest) = answers a ∷ arriving rest

-- no answer ends the wait before the last one
abbrev pub IsUnsettled : RequestType → Type 0
IsUnsettled kind = (a : Answer) → is_settled kind a ≡ false

-- Whatever request it is for, the wait ends as soon as the timer goes off or all other nodes of at
-- least two have answered.
pub wait_for_response_returns :
    (h : Heap) (kind : RequestType) (num_sub count : ℕ) (final : Answer) (arrivals : List Arrival)
    → Occurs times_out arrivals ⊎ ((count + 2 ≤ num_sub) × (num_sub ≤ length arrivals + count + 1))
    → (a : Answer) × (wait_for_response h kind num_sub count final arrivals ≡ some a)
unfolding wait_for_response
wait_for_response_returns h kind num_sub count final [] e = absurd (ground (arith, e))
wait_for_response_returns h kind num_sub count final (times_out ∷ rest) e = (final, refl)
wait_for_response_returns h kind num_sub count final (answers a ∷ rest) e =
    elim (Bool-cases (is_settled kind a)) [
      | inl y ↦ (absorb h kind final a, ground (arith, y))
      | inr n ↦ elim (Bool-cases (eqb (count + 2) num_sub)) [
        | inl last ↦ (absorb h kind final a, ground (arith, n, last))
        | inr more ↦
            let (b, f) =
              wait_for_response_returns h kind num_sub (count + 1) (absorb h kind final a) rest
                (still (elim e [ inl o ↦ inl o | inr b ↦ inr b ]) more) in
            (b, ground (arith, n, more, f))
      ]
    ]
  where
    still :
        Occurs times_out (answers a ∷ rest)
          ⊎ ((count + 2 ≤ num_sub) × (num_sub ≤ length (answers a ∷ rest) + count + 1))
        → eqb (count + 2) num_sub ≡ false
        → Occurs times_out rest
          ⊎ ((count + 1 + 2 ≤ num_sub) × (num_sub ≤ length rest + (count + 1) + 1))
    still (inl (inl p)) more = cc
    still (inl (inr o)) more = inl o
    still (inr b) more = inr (ground (arith, b, more))

-- With the answers of all other nodes, and any arrivals after them, the result is all answers taken
-- together.
pub wait_for_response-all :
    (h : Heap) (kind : RequestType) (num_sub count : ℕ) (final a : Answer) (rest : List Answer)
    (later : List Arrival)
    → IsUnsettled kind
    → length rest + count + 2 ≡ num_sub
    → wait_for_response h kind num_sub count final (answers a ∷ (arriving rest ++ later))
      ≡ some (absorb_all h kind final (a ∷ rest))
unfolding wait_for_response absorb_all
wait_for_response-all h kind num_sub count final a [] later u e = ground (arith, u a)
wait_for_response-all h kind num_sub count final a (b ∷ rest) later u e = ground (
  arith,
  u a,
  wait_for_response-all h kind num_sub (count + 1) (absorb h kind final a) b rest later u
      (omega (arith, e)),
)

-- If the timer goes off before that, the result is what has arrived.
pub wait_for_response-partial :
    (h : Heap) (kind : RequestType) (num_sub count : ℕ) (final : Answer) (heard : List Answer)
    (later : List Arrival)
    → IsUnsettled kind
    → length heard + count + 2 ≤ num_sub
    → wait_for_response h kind num_sub count final (arriving heard ++ times_out ∷ later)
      ≡ some (absorb_all h kind final heard)
unfolding wait_for_response absorb_all
wait_for_response-partial h kind num_sub count final [] later u e = refl
wait_for_response-partial h kind num_sub count final (a ∷ heard) later u e = ground (
  arith,
  u a,
  wait_for_response-partial h kind num_sub (count + 1) (absorb h kind final a) heard later u
      (omega (arith, e)),
)
