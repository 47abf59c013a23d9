-- ===== src/ChannelName/Prefixes.antt =====
-- Names with two prefixes: one of these extends the other, so the channel classes exclude one
-- another as CreateChannelFromString relies on.
use pusher.Prelude.{◌≡◌, refl, Bool, true, false, ◌&&◌, [], ◌∷◌, eqb, arith, Text, has_prefix}

-- the shorter of the two texts is a prefix of the other
abbrev pub compatible : Text → Text → Bool
compatible [] q = true
compatible (a ∷ p) [] = true
compatible (a ∷ p) (b ∷ q) = eqb a b && compatible p q

pub has_prefix-compatible :
    (s p q : Text) → has_prefix s p ≡ true → has_prefix s q ≡ true → compatible p q ≡ true
unfolding has_prefix
has_prefix-compatible s [] q h k = refl
has_prefix-compatible s (a ∷ p) [] h k = refl
has_prefix-compatible [] (a ∷ p) (b ∷ q) h k = cc
has_prefix-compatible (c ∷ s) (a ∷ p) (b ∷ q) h k = ground (arith, has_prefix-compatible s p q)

-- A name with the prefix `p` has no prefix `q` that disagrees with it.
pub has_prefix-conflict :
    (s p q : Text) → compatible p q ≡ false → has_prefix s p ≡ true → has_prefix s q ≡ false
has_prefix-conflict s p q c h = ground (arith, has_prefix-compatible s p q)
