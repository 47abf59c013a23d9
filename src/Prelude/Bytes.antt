-- ===== src/Prelude/Bytes.antt =====
-- Go strings: their bytes. A literal of the source is the code points of the same ASCII literal.
use Prim.Native.Char.{code}
use Prim.Native.Nat.{ℕ}
use Prim.Native.String.{String}
use mathlib.Core.Path.{◌≡◌, refl}
use mathlib.Core.Logic.{◌↔◌}
use mathlib.Core.List.{List, [], ◌∷◌, ◌++◌}
use mathlib.Core.Bool.{Bool, true, false, ◌&&◌, ◌||◌, not}
use mathlib.Core.Option.{Option, none, some}
use native.Mathlib.Omega.{arith}
use pusher.Prelude.Tests.{eqb, if◌then◌else◌}

abbrev pub Text : Type 0
Text = List ℕ

abbrev pub codes : String → Text
codes String.[] = []
codes (String.◌∷◌ c s) = code c ∷ codes s

infix 50 ◌==◌
unfoldable pub ◌==◌ : Text → Text → Bool
[] == [] = true
[] == (b ∷ t) = false
(a ∷ s) == [] = false
(a ∷ s) == (b ∷ t) = eqb a b && s == t

pub eq_refl : (s : Text) → (s == s) ≡ true
unfolding ◌==◌
eq_refl [] = refl
eq_refl (a ∷ s) = ground (arith, eq_refl s)

pub eq_of_eq : (s t : Text) → (s == t) ≡ true → s ≡ t
unfolding ◌==◌
eq_of_eq [] [] h = refl
eq_of_eq [] (b ∷ t) h = cc
eq_of_eq (a ∷ s) [] h = cc
eq_of_eq (a ∷ s) (b ∷ t) h = ground (arith, eq_of_eq s t)

eq_of_path : (s t : Text) → s ≡ t → (s == t) ≡ true
eq_of_path s t e = rw e (eq_refl t)

pub eq_iff : (s t : Text) → ((s == t) ≡ true) ↔ (s ≡ t)
eq_iff s t = (eq_of_eq s t, eq_of_path s t)

-- strings.HasPrefix(s, p)
unfoldable pub has_prefix : Text → Text → Bool
has_prefix s [] = true
has_prefix [] (p ∷ ps) = false
has_prefix (c ∷ s) (p ∷ ps) = eqb c p && has_prefix s ps

pub has_prefix-append : (p s : Text) → has_prefix (p ++ s) p ≡ true
unfolding has_prefix
has_prefix-append [] [] = refl
has_prefix-append [] (c ∷ s) = refl
has_prefix-append (p ∷ ps) s = ground (arith, has_prefix-append ps s)

-- A text with a prefix is that prefix and a rest.
pub has_prefix-split : (s p : Text) → has_prefix s p ≡ true → (r : Text) × (s ≡ p ++ r)
unfolding has_prefix
has_prefix-split s [] h = (s, refl)
has_prefix-split [] (p ∷ ps) h = cc
has_prefix-split (c ∷ s) (p ∷ ps) h =
    let (r, e) = has_prefix-split s ps (ground arith) in (r, ground arith)

-- A longer prefix implies each shorter one.
pub has_prefix-shorter : (s p q : Text) → has_prefix s (p ++ q) ≡ true → has_prefix s p ≡ true
unfolding has_prefix
has_prefix-shorter [] [] q h = refl
has_prefix-shorter (c ∷ s) [] q h = refl
has_prefix-shorter [] (p ∷ ps) q h = cc
has_prefix-shorter (c ∷ s) (p ∷ ps) q h = ground (arith, has_prefix-shorter s ps q)

-- strings.TrimPrefix(s, p)
unfoldable pub drop_prefix : Text → Text → Option Text
drop_prefix s [] = some s
drop_prefix [] (p ∷ ps) = none
drop_prefix (c ∷ s) (p ∷ ps) = let rest = drop_prefix s ps in if eqb c p then rest else none

unfoldable pub trim_prefix : Text → Text → Text
unfolding drop_prefix
trim_prefix s p = elim (drop_prefix s p) [ none ↦ s | some r ↦ r ]

drop_prefix-append : (p s : Text) → drop_prefix (p ++ s) p ≡ some s
unfolding drop_prefix
drop_prefix-append [] [] = refl
drop_prefix-append [] (c ∷ s) = refl
drop_prefix-append (p ∷ ps) s = ground (arith, drop_prefix-append ps s)

pub trim_prefix-append : (p s : Text) → trim_prefix (p ++ s) p ≡ s
unfolding trim_prefix
trim_prefix-append p s = rw (drop_prefix-append p s, trim_prefix)

-- strings.HasSuffix(s, p)
unfoldable pub has_suffix : Text → Text → Bool
has_suffix [] p = [] == p
has_suffix (c ∷ s) p = (c ∷ s) == p || has_suffix s p

-- `b` is not among the bytes
unfoldable pub lacks : ℕ → Text → Bool
lacks b [] = true
lacks b (c ∷ s) = not (eqb c b) && lacks b s

-- A separator that the heads lack splits two equal texts at the same place.
pub split_at_separator :
    (b : ℕ) (s t x y : Text)
    → lacks b s ≡ true
    → lacks b t ≡ true
    → s ++ b ∷ x ≡ t ++ b ∷ y
    → (s ≡ t) × (x ≡ y)
unfolding lacks
split_at_separator b [] [] x y h k e = ground arith
split_at_separator b [] (d ∷ t) x y h k e = ground arith
split_at_separator b (c ∷ s) [] x y h k e = ground arith
split_at_separator b (c ∷ s) (d ∷ t) x y h k e = ground (arith, split_at_separator b s t x y)

pub append_cancel_left : (p x y : Text) → p ++ x ≡ p ++ y → x ≡ y
append_cancel_left [] x y e = e
append_cancel_left (a ∷ p) x y e = append_cancel_left p x y (ground arith)

pub drop_prefix_sound : (s p r : Text) → drop_prefix s p ≡ some r → s ≡ p ++ r
unfolding drop_prefix
drop_prefix_sound s [] r h = ground arith
drop_prefix_sound [] (p ∷ ps) r h = cc
drop_prefix_sound (c ∷ s) (p ∷ ps) r h = ground (arith, drop_prefix_sound s ps r)

pub lacks-append_cons : (b : ℕ) (s t : Text) → lacks b (s ++ b ∷ t) ≡ false
unfolding lacks
lacks-append_cons b [] t = ground arith
lacks-append_cons b (c ∷ s) t = ground (arith, lacks-append_cons b s t)
