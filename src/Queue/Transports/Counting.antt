-- ===== src/Queue/Transports/Counting.antt =====
-- How often an event is in the lists of internal/queues/queueRedis.go, and in which order.
use pusher.Prelude.{
  ℕ, ◌+◌, ◌≤◌, ◌≡◌, refl, sym, ap, ◌∙◌, true, Option, none, some, List, [], ◌∷◌, ◌++◌, arith,
  if◌then◌else◌, ◌==◌, eq_iff, Text, contains, Option-cases, inl, inr,
}
use pusher.Queue.Transports.{pop_last, remove_one}

-- how often the event is in the list
unfoldable pub count : Text → List Text → ℕ
count e [] = 0
count e (x ∷ xs) = (if x == e then 1 else 0) + count e xs

pub count-append : (e : Text) (xs ys : List Text) → count e (xs ++ ys) ≡ count e xs + count e ys
unfolding count
count-append e [] ys = omega arith
count-append e (x ∷ xs) ys = omega (arith, count-append e xs ys)

-- what stands once is taken away once
pub count-remove_one :
    (e x : Text) (xs : List Text)
    → contains xs e ≡ true
    → count x xs ≡ count x (remove_one e xs) + (if e == x then 1 else 0)
unfolding count remove_one contains
count-remove_one e x [] h = cc h
count-remove_one e x (y ∷ ys) h =
    ground (arith, h, eq_iff y e, eq_iff y x, eq_iff e x, count-remove_one e x ys)

pub count_of_contains : (e : Text) (xs : List Text) → contains xs e ≡ true → 1 ≤ count e xs
unfolding count contains
count_of_contains e [] h = cc h
count_of_contains e (x ∷ xs) h = ground (arith, h, count_of_contains e xs)

pub contains_of_count : (e : Text) (xs : List Text) → 1 ≤ count e xs → contains xs e ≡ true
unfolding count contains
contains_of_count e [] h = absurd (omega (arith, h))
contains_of_count e (x ∷ xs) h = ground (arith, h, contains_of_count e xs)

-- the oldest event first
unfoldable pub backwards : List Text → List Text
backwards [] = []
backwards (x ∷ xs) = backwards xs ++ x ∷ []

pop_last-nil : (xs : List Text) → pop_last xs ≡ none → xs ≡ []
unfolding pop_last
pop_last-nil [] h = refl
pop_last-nil (x ∷ xs) h = elim (Option-cases (pop_last xs)) [
  | inl e ↦ absurd (ground (arith, h, e))
  | inr ((rest, last), e) ↦ absurd (ground (arith, h, e))
]

abbrev popped : List Text → Text → Option (List Text × Text)
popped rest e = some (rest, e)

popped_inj : {a c : List Text} {b d : Text} → popped a b ≡ popped c d → (a ≡ c) × (b ≡ d)
popped_inj h = (cc, cc)

pub pop_last-snoc :
    (xs rest : List Text) (e : Text) → pop_last xs ≡ some (rest, e) → xs ≡ rest ++ e ∷ []
unfolding pop_last
pop_last-snoc [] rest e h = cc h
pop_last-snoc (x ∷ xs) rest e h = elim (Option-cases (pop_last xs)) [
  | inl n ↦
      let here : popped [] x ≡ popped rest e = sym (rw (n, pop_last) refl) ∙ h in
      let (r, l) = popped_inj here in
      ap (λ t. x ∷ t) (pop_last-nil xs n) ∙ (ap (λ y. y ∷ []) l ∙ ap (λ r'. r' ++ e ∷ []) r)
  | inr ((rest', last), f) ↦
      let here : popped (x ∷ rest') last ≡ popped rest e = sym (rw (f, pop_last) refl) ∙ h in
      let (r, l) = popped_inj here in
      ap (λ t. x ∷ t) (pop_last-snoc xs rest' last f)
      ∙ (ap (λ y. x ∷ (rest' ++ y ∷ [])) l ∙ ap (λ r'. r' ++ e ∷ []) r)
]

pub backwards-snoc : (xs : List Text) (e : Text) → backwards (xs ++ e ∷ []) ≡ e ∷ backwards xs
unfolding backwards
backwards-snoc [] e = refl
backwards-snoc (x ∷ xs) e = ap (λ l. l ++ x ∷ []) (backwards-snoc xs e)
