-- ===== src/ChannelName/Valid.antt =====
-- The two validators of channel names, ValidChannel (HTTP) and ValidateChannelName (WebSocket).
use pusher.Prelude.{
  ℕ, ◌≡◌, ◌↔◌, refl, sym, ap, ◌∙◌, true≢false, Bool-cases, eqb, true, false, inl, inr, none, some,
  arith, Text, [], ◌∷◌, length, ℤ, exceeds, all, lacks, drop_prefix, drop_prefix_sound,
  Option-cases,
}
use pusher.ChannelName.{
  valid_channel, validate_channel_name, matches_channel_regex, is_name_byte, is_name_word,
  name_too_long, server_to_user_prefix,
}

-- The WebSocket validator accepts exactly the names that the HTTP validator accepts, and names the
-- length as the error whenever the length is wrong, whatever the characters are.
pub validate_channel_name-valid_channel :
    (c : Text) (m : ℤ)
    → ((validate_channel_name c m ≡ none) ↔ (valid_channel c m ≡ true))
      × ((validate_channel_name c m ≡ some name_too_long) ↔ (exceeds (length c) m ≡ true))
unfolding validate_channel_name valid_channel
validate_channel_name-valid_channel c m =
    ((λ h. ground arith, λ h. ground arith), (λ h. ground arith, λ h. ground arith))

is_name_byte-colon : is_name_byte b':' ≡ false
unfolding is_name_byte
is_name_byte-colon = refl

is_name_byte-ne_colon : (c : ℕ) → is_name_byte c ≡ true → eqb c b':' ≡ false
is_name_byte-ne_colon c h = elim (Bool-cases (eqb c b':')) [
  | inl e ↦
      let p : c ≡ b':' = ground arith in
      absurd (true≢false (sym h ∙ ap is_name_byte p ∙ is_name_byte-colon))
  | inr e ↦ e
]

name_bytes-lack_colon : (s : Text) → all is_name_byte s ≡ true → lacks b':' s ≡ true
unfolding all lacks
name_bytes-lack_colon [] h = refl
name_bytes-lack_colon (c ∷ s) h = ground (arith, name_bytes-lack_colon s, is_name_byte-ne_colon c)

name_word-lacks_colon : (s : Text) → is_name_word s ≡ true → lacks b':' s ≡ true
unfolding is_name_word
name_word-lacks_colon s h = ground (arith, name_bytes-lack_colon s)

-- No accepted channel name has a colon in it.
pub valid_channel-lacks_colon : (c : Text) (m : ℤ) → valid_channel c m ≡ true → lacks b':' c ≡ true
unfolding valid_channel matches_channel_regex lacks
valid_channel-lacks_colon c m h = elim (Option-cases (drop_prefix c server_to_user_prefix)) [
  | inl e ↦ ground (arith, name_word-lacks_colon c)
  | inr (r, e) ↦ ground (
    arith,
    name_word-lacks_colon c,
    name_word-lacks_colon r,
    drop_prefix_sound c server_to_user_prefix r e,
  )
]

-- The empty name is not accepted.
pub valid_channel-nil : (m : ℤ) → valid_channel [] m ≡ false
unfolding valid_channel matches_channel_regex is_name_word drop_prefix
valid_channel-nil m = ground arith
