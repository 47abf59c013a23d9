-- ===== src/Auth/Tokens.antt =====
-- Which tokens internal/util/utils.go and internal/websocket.go accept, and what they sign.
use pusher.Prelude.{
  ℕ, ◌≡◌, ◌≢◌, refl, sym, ap, ◌∙◌, ◌↔◌, ◌⊎◌, inl, inr, true, false, List, [], ◌∷◌, ◌++◌, arith, eqb,
  is_nil, Text, codes, eq_iff, eq_refl, lacks, lacks-append_cons, split_at_separator, Bool-cases,
  true≢false, ℤ,
}
use pusher.Auth.{
  hex_digit, hex, hmac_signature, split_colon, check_parts, validate_channel_auth, channel_string,
  signin_string,
}
use pusher.ChannelName.{valid_channel}
use pusher.ChannelName.Valid.{valid_channel-lacks_colon, valid_channel-nil}

hex-lacks_colon : (s : Text) → lacks b':' (hex s) ≡ true
unfolding lacks hex hex_digit
hex-lacks_colon [] = refl
hex-lacks_colon (b ∷ s) = ground (arith, hex-lacks_colon s)

split_whole : (g : Text) → lacks b':' g ≡ true → split_colon g ≡ g ∷ []
unfolding split_colon lacks
split_whole [] h = refl
split_whole (c ∷ g) h = ground (arith, split_whole g)

split_first : (k t : Text) → lacks b':' k ≡ true → split_colon (k ++ b':' ∷ t) ≡ k ∷ split_colon t
unfolding split_colon lacks
split_first [] t h = refl
split_first (c ∷ k) t h = ground (arith, split_first k t)

-- A text lacks the colon, or has a first one.
first_colon :
    (s : Text)
    → (lacks b':' s ≡ true)
      ⊎ ((k : Text) × (t : Text) × (s ≡ k ++ b':' ∷ t) × (lacks b':' k ≡ true))
unfolding lacks
first_colon [] = inl refl
first_colon (c ∷ s) = elim (Bool-cases (eqb c b':')) [
  | inl e ↦ inr ([], s, ground arith, refl)
  | inr e ↦ elim (first_colon s) [
    | inl h ↦ inl (ground arith)
    | inr (k, t, p, h) ↦ inr (c ∷ k, t, ground arith, ground arith)
  ]
]

split-ne_nil : (s : Text) → split_colon s ≢ []
split-ne_nil s e = elim (first_colon s) [
  | inl h ↦ cc (split_whole s h)
  | inr (k, t, p, h) ↦ cc (split_first k t h)
]

split_two :
    (s k g : Text) → split_colon s ≡ k ∷ g ∷ [] → (s ≡ k ++ b':' ∷ g) × (lacks b':' k ≡ true)
split_two s k g e = elim (first_colon s) [
  | inl h ↦ absurd (cc (split_whole s h))
  | inr (k1, t, p, h) ↦
      let q : k1 ∷ split_colon t ≡ k ∷ g ∷ [] =
        sym (split_first k1 t h) ∙ ap split_colon (sym p) ∙ e in
      elim (first_colon t) [
        | inl l ↦ (ground (arith, split_whole t l), ground arith)
        | inr (k2, t2, p2, l) ↦
            let z : split_colon t2 ≡ [] =
              ground (arith, split_first k2 t2 l, q, ap split_colon p2) in
            absurd (split-ne_nil t2 z)
      ]
]

is_nil-append_cons : (k : Text) (c : ℕ) (r : Text) → is_nil (k ++ c ∷ r) ≡ false
is_nil-append_cons [] c r = refl
is_nil-append_cons (x ∷ k) c r = refl

ne_nil : (k : Text) → k ≢ [] → is_nil k ≡ false
ne_nil [] h = absurd (h refl)
ne_nil (x ∷ k) h = refl

-- A channel token is accepted exactly if it is a key that is not empty and has no colon, a colon, and
-- the signature of the socket id, the channel and the channel data: which key it is does not matter.
pub validate_channel_auth_iff :
    (hmac : Text → Text → Text) (token secret socket channel body : Text)
    → (validate_channel_auth hmac token secret socket channel body ≡ true) ↔ (
        (key : Text) × (key ≢ [])
        × (lacks b':' key ≡ true)
        × (token ≡ key ++ b':' ∷ hmac_signature hmac (channel_string socket channel body) secret))
unfolding validate_channel_auth check_parts
validate_channel_auth_iff hmac token secret socket channel body =
    let expected = hmac_signature hmac (channel_string socket channel body) secret in
    (
      λ h. accepted expected (split_colon token) refl (ground arith),
      λ q.
          let e : split_colon token ≡ q.0 ∷ expected ∷ [] =
            ap split_colon q.3
            ∙ split_first q.0 expected q.2
            ∙ ap (◌∷◌ q.0) (split_whole expected (signature-lacks expected refl)) in
          ground (
            arith,
            e,
            eq_refl expected,
            is_nil-append_cons q.0 b':' expected,
            ap is_nil q.3,
            ne_nil q.0 q.1,
          ),
    )
  where
    accepted :
        (x : Text) (ps : List Text)
        → split_colon token ≡ ps
        → check_parts ps x ≡ true
        → (key : Text) × (key ≢ []) × (lacks b':' key ≡ true) × (token ≡ key ++ b':' ∷ x)
    accepted x (k ∷ g ∷ []) e h =
        let (p, l) = split_two token k g e in (k, ground arith, l, ground (arith, p, eq_iff g x))
    accepted x [] e h = cc
    accepted x (k ∷ []) e h = cc
    accepted x (k ∷ g ∷ r ∷ rs) e h = cc

    signature-lacks :
        (x : Text)
        → x ≡ hmac_signature hmac (channel_string socket channel body) secret
        → lacks b':' x ≡ true
    signature-lacks x e = rw e (
        unfold hmac_signature in hex-lacks_colon (hmac secret (channel_string socket channel body)))

-- Two texts of which one has a colon and the other lacks it differ.
colon_conflict : (c d r : Text) → lacks b':' c ≡ true → c ≡ d ++ b':' ∷ r → ⊥
colon_conflict c d r l e = true≢false (sym l ∙ ap (lacks b':') e ∙ lacks-append_cons b':' d r)

channel_string_injective :
    (s t c d x y : Text)
    → lacks b':' s ≡ true
    → lacks b':' t ≡ true
    → lacks b':' c ≡ true
    → lacks b':' d ≡ true
    → channel_string s c x ≡ channel_string t d y
    → (s ≡ t) × (c ≡ d) × (x ≡ y)
unfolding channel_string
channel_string_injective s t c d [] [] ls lt lc ld e =
    let (p, q) = split_at_separator b':' s t c d ls lt e in (p, q, refl)
channel_string_injective s t c d [] (b ∷ y) ls lt lc ld e =
    let (p, q) = split_at_separator b':' s t c (d ++ b':' ∷ b ∷ y) ls lt e in
    absurd (colon_conflict c d (b ∷ y) lc q)
channel_string_injective s t c d (a ∷ x) [] ls lt lc ld e =
    let (p, q) = split_at_separator b':' s t (c ++ b':' ∷ a ∷ x) d ls lt e in
    absurd (colon_conflict d c (a ∷ x) ld (sym q))
channel_string_injective s t c d (a ∷ x) (b ∷ y) ls lt lc ld e =
    let (p, q) = split_at_separator b':' s t (c ++ b':' ∷ a ∷ x) (d ++ b':' ∷ b ∷ y) ls lt e in
    let (r, z) = split_at_separator b':' c d (a ∷ x) (b ∷ y) lc ld q in (p, r, z)

channel-ne-signin :
    (s t c x y : Text) (m : ℤ)
    → lacks b':' s ≡ true
    → lacks b':' t ≡ true
    → valid_channel c m ≡ true
    → lacks b':' c ≡ true
    → channel_string s c x ≢ signin_string t y
unfolding channel_string signin_string lacks
channel-ne-signin s t c [] y m ls lt vc lc e =
    let (p, q) = split_at_separator b':' s t c (codes ":user::" ++ y) ls lt e in
    colon_conflict c [] (codes "user::" ++ y) lc q
channel-ne-signin s t c (a ∷ x) y m ls lt vc lc e =
    let (p, q) = split_at_separator b':' s t (c ++ b':' ∷ a ∷ x) (codes ":user::" ++ y) ls lt e in
    let (r, z) = split_at_separator b':' c [] (a ∷ x) (codes "user::" ++ y) lc refl q in
    true≢false (sym vc ∙ ap (λ n. valid_channel n m) r ∙ valid_channel-nil m)

-- The signed texts keep their parts apart: for socket ids without a colon and accepted channel names,
-- two channel texts are equal exactly for the same socket, channel and data, and no channel text is one
-- that signs a user in.
pub signed_texts_injective :
    (s t c d x y : Text) (m : ℤ)
    → lacks b':' s ≡ true
    → lacks b':' t ≡ true
    → valid_channel c m ≡ true
    → valid_channel d m ≡ true
    → ((channel_string s c x ≡ channel_string t d y) ↔ ((s ≡ t) × (c ≡ d) × (x ≡ y)))
      × (channel_string s c x ≢ signin_string t y)
signed_texts_injective s t c d x y m ls lt vc vd =
    let lc = valid_channel-lacks_colon c m vc in
    let ld = valid_channel-lacks_colon d m vd in
    (
      (λ e. channel_string_injective s t c d x y ls lt lc ld e, λ h. rw (h.0, h.1, h.2) refl),
      λ e. channel-ne-signin s t c x y m ls lt vc lc e,
    )
