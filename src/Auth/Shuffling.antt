-- ===== src/Auth/Shuffling.antt =====
-- The parameters of a request in another order: what internal/util/signature.go reads from them.
use pusher.Prelude.{
  ◌≡◌, refl, sym, ap, ◌∙◌, List, [], ◌∷◌, arith, eq_iff, ◌==◌, Text, contains, Distinct, get, del,
  keys, Bool-cases, inl, inr,
}
use mathlib.Core.Path.{subst}
use mathlib.Core.List.{Permᴰ}
use pusher.Auth.Requests.{Query, lowered}

pub keys-Permᴰ : {q p : Query} → Permᴰ q p → Permᴰ (keys q) (keys p)
unfolding keys
keys-Permᴰ Permᴰ.nil = Permᴰ.nil
keys-Permᴰ (Permᴰ.cons e d) = Permᴰ.cons (ap (λ x. x.0) e) (keys-Permᴰ d)
keys-Permᴰ (Permᴰ.swap e g) = Permᴰ.swap (ap (λ x. x.0) e) (ap (λ x. x.0) g)
keys-Permᴰ (Permᴰ.trans d e) = Permᴰ.trans (keys-Permᴰ d) (keys-Permᴰ e)

pub lowered-Permᴰ :
    (lower : Text → Text) {xs ys : List Text}
    → Permᴰ xs ys
    → Permᴰ (lowered lower xs) (lowered lower ys)
unfolding lowered
lowered-Permᴰ lower Permᴰ.nil = Permᴰ.nil
lowered-Permᴰ lower (Permᴰ.cons e d) = Permᴰ.cons (ap lower e) (lowered-Permᴰ lower d)
lowered-Permᴰ lower (Permᴰ.swap e g) = Permᴰ.swap (ap lower e) (ap lower g)
lowered-Permᴰ lower (Permᴰ.trans d e) = Permᴰ.trans (lowered-Permᴰ lower d) (lowered-Permᴰ lower e)

contains-Permᴰ : {xs ys : List Text} (k : Text) → Permᴰ xs ys → contains xs k ≡ contains ys k
unfolding contains
contains-Permᴰ k Permᴰ.nil = refl
contains-Permᴰ k (Permᴰ.cons e d) = ground (arith, ap (λ x. x == k) e, contains-Permᴰ k d)
contains-Permᴰ k (Permᴰ.swap e g) = ground (arith, ap (λ x. x == k) e, ap (λ x. x == k) g)
contains-Permᴰ k (Permᴰ.trans d e) = contains-Permᴰ k d ∙ contains-Permᴰ k e

Distinct-swap : (a b : Text) (l : List Text) → Distinct (a ∷ b ∷ l) → Distinct (b ∷ a ∷ l)
unfolding contains
Distinct-swap a b l h = (ground (arith, h, eq_iff a b, eq_iff b a), (ground (arith, h), h.1.1))

Distinct-Permᴰ : {xs ys : List Text} → Permᴰ xs ys → Distinct xs → Distinct ys
unfolding contains
Distinct-Permᴰ Permᴰ.nil h = tt
Distinct-Permᴰ (Permᴰ.cons {b = b} {l₁ = l} e d) h =
    (sym (contains-Permᴰ b d) ∙ ap (contains l) (sym e) ∙ h.0, Distinct-Permᴰ d h.1)
Distinct-Permᴰ (Permᴰ.swap {a = a} {b = b} {a' = a'} {b' = b'} {l = l} e g) h =
    subst (λ x. Distinct (x ∷ b' ∷ l)) g
      (subst (λ x. Distinct (b ∷ x ∷ l)) e (Distinct-swap a b l h))
Distinct-Permᴰ (Permᴰ.trans d e) h = Distinct-Permᴰ e (Distinct-Permᴰ d h)

get-swap :
    (a b : Text × List Text) (l : Query) (k : Text)
    → Distinct (keys (a ∷ b ∷ l))
    → get (a ∷ b ∷ l) k ≡ get (b ∷ a ∷ l) k
unfolding get keys contains
get-swap (i, u) (j, v) l k h = ground (arith, h.0, eq_iff i k, eq_iff j k, eq_iff j i)

pub get-Permᴰ : {q p : Query} (k : Text) → Permᴰ q p → Distinct (keys q) → get q k ≡ get p k
unfolding get keys contains
get-Permᴰ k Permᴰ.nil h = refl
get-Permᴰ k (Permᴰ.cons {a = a} {b = b} {l₁ = l} {l₂ = m} e d) h =
    ap (λ x. get (x ∷ l) k) e ∙ ground (arith, get-Permᴰ k d h.1)
get-Permᴰ k (Permᴰ.swap {a = a} {b = b} {a' = a'} {l = l} e g) h =
    get-swap a b l k h ∙ (ap (λ x. get (x ∷ a ∷ l) k) g ∙ ap (λ x. get (a' ∷ x ∷ l) k) e)
get-Permᴰ k (Permᴰ.trans d e) h = get-Permᴰ k d h ∙ get-Permᴰ k e (Distinct-Permᴰ (keys-Permᴰ d) h)

same_order : (q : Query) → Permᴰ q q
same_order [] = Permᴰ.nil
same_order (a ∷ q) = Permᴰ.cons refl (same_order q)

del-cons :
    (a : Text × List Text) (l m : Query) (k : Text)
    → Permᴰ (del l k) (del m k)
    → Permᴰ (del (a ∷ l) k) (del (a ∷ m) k)
unfolding del
del-cons (j, v) l m k d = elim (Bool-cases (j == k)) [
  | inl y ↦ rw y d
  | inr n ↦ rw n (Permᴰ.cons refl d)
]

del-swap :
    (a b : Text × List Text) (l : Query) (k : Text) → Permᴰ (del (a ∷ b ∷ l) k) (del (b ∷ a ∷ l) k)
unfolding del
del-swap (i, u) (j, v) l k = elim (Bool-cases (i == k)) [
  | inl y ↦ rw y (same_order _)
  | inr n ↦ elim (Bool-cases (j == k)) [
    | inl y ↦ rw (n, y) (same_order _)
    | inr m ↦ rw (n, m) (Permᴰ.swap refl refl)
  ]
]

pub del-Permᴰ : {q p : Query} (k : Text) → Permᴰ q p → Permᴰ (del q k) (del p k)
unfolding del
del-Permᴰ k Permᴰ.nil = Permᴰ.nil
del-Permᴰ k (Permᴰ.cons {a = a} {l₁ = l} {l₂ = m} e d) =
    subst (λ x. Permᴰ (del (a ∷ l) k) (del (x ∷ m) k)) e (del-cons a l m k (del-Permᴰ k d))
del-Permᴰ k (Permᴰ.swap {a = a} {b = b} {a' = a'} {l = l} e g) =
    subst (λ x. Permᴰ (del (a ∷ b ∷ l) k) (del (a' ∷ x ∷ l) k)) e
      (subst (λ x. Permᴰ (del (a ∷ b ∷ l) k) (del (x ∷ a ∷ l) k)) g (del-swap a b l k))
del-Permᴰ k (Permᴰ.trans d e) = Permᴰ.trans (del-Permᴰ k d) (del-Permᴰ k e)
