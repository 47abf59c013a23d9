-- ===== src/Auth/Sorting.antt =====
-- sort.Strings, as internal/util/signature.go uses it, does not depend on the order it starts from.
use pusher.Prelude.{
  ◌≡◌, refl, ap, ◌∙◌, true, ◌||◌, List, [], ◌∷◌, arith, eq_iff, ◌==◌, Text, contains,
}
use mathlib.Core.List.{Permᴰ}
use pusher.Auth.Requests.{at_most, insert, sort}

at_most_total : (s t : Text) → (at_most s t || at_most t s) ≡ true
unfolding at_most
at_most_total [] t = refl
at_most_total (a ∷ s) [] = refl
at_most_total (a ∷ s) (b ∷ t) = ground (arith, at_most_total s t)

at_most_antisym : (s t : Text) → at_most s t ≡ true → at_most t s ≡ true → (s == t) ≡ true
unfolding at_most ◌==◌
at_most_antisym [] [] p q = refl
at_most_antisym [] (b ∷ t) p q = cc q
at_most_antisym (a ∷ s) [] p q = cc p
at_most_antisym (a ∷ s) (b ∷ t) p q = ground (arith, p, q, at_most_antisym s t)

at_most_trans : (s t u : Text) → at_most s t ≡ true → at_most t u ≡ true → at_most s u ≡ true
unfolding at_most
at_most_trans [] t u p q = refl
at_most_trans (a ∷ s) [] u p q = cc p
at_most_trans (a ∷ s) (b ∷ t) [] p q = cc q
at_most_trans (a ∷ s) (b ∷ t) (c ∷ u) p q = ground (arith, p, q, at_most_trans s t u)

insert_comm : (s t : Text) (l : List Text) → insert s (insert t l) ≡ insert t (insert s l)
unfolding insert
insert_comm s t [] = ground (arith, at_most_total s t, at_most_antisym s t, eq_iff s t)
insert_comm s t (x ∷ l) = ground (
  arith,
  at_most_total s t,
  at_most_antisym s t,
  eq_iff s t,
  at_most_trans s t x,
  at_most_trans t s x,
  at_most_total s x,
  at_most_total t x,
  insert_comm s t l,
)

pub sort-Permᴰ : {xs ys : List Text} → Permᴰ xs ys → sort xs ≡ sort ys
unfolding sort
sort-Permᴰ Permᴰ.nil = refl
sort-Permᴰ (Permᴰ.cons {a = a} {b = b} {l₁ = l} e p) =
    ap (λ x. insert x (sort l)) e ∙ ap (insert b) (sort-Permᴰ p)
sort-Permᴰ (Permᴰ.swap {a = a} {b = b} {a' = a'} {l = l} e g) =
    insert_comm a b (sort l)
    ∙ (ap (λ x. insert x (insert a (sort l))) g ∙ ap (λ x. insert a' (insert x (sort l))) e)
sort-Permᴰ (Permᴰ.trans p q) = sort-Permᴰ p ∙ sort-Permᴰ q

contains-insert :
    (s : Text) (l : List Text) (k : Text) → contains (insert s l) k ≡ (s == k || contains l k)
unfolding insert contains
contains-insert s [] k = refl
contains-insert s (t ∷ l) k = ground (arith, contains-insert s l k)

pub contains-sort : (l : List Text) (k : Text) → contains (sort l) k ≡ contains l k
unfolding sort contains
contains-sort [] k = refl
contains-sort (s ∷ l) k = ground (arith, contains-insert s (sort l) k, contains-sort l k)
