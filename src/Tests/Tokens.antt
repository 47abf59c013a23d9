-- ===== src/Tests/Tokens.antt =====
-- Tokens, with the key followed by the message in place of an HMAC, and request times.
use pusher.Prelude.{
  ◌≡◌, ◌≢◌, refl, ◌↔◌, ◌≤◌, ◌<◌, true, [], ◌∷◌, ◌++◌, Text, codes, pos, lacks, drop_prefix, arith,
  all,
}
use pusher.Auth.{
  validate_channel_auth, hmac_signature, channel_string, signin_string, check_timestamp,
}
use pusher.Auth.Tokens.{validate_channel_auth_iff, signed_texts_injective}
use pusher.Auth.Window.{check_timestamp_window}
use pusher.ChannelName.{valid_channel, matches_channel_regex, is_name_word, is_name_byte}
use pusher.Tests.Data.{room, alice, bob}

abbrev mac : Text → Text → Text
mac secret message = secret ++ message

abbrev token : Text
token = codes "key:" ++ hmac_signature mac (channel_string alice.id room []) (codes "secret")

validate_channel_auth_iff_example :
    (validate_channel_auth mac token (codes "secret") alice.id room [] ≡ true) ↔ (
      (key : Text) × (key ≢ [])
      × (lacks b':' key ≡ true)
      × (token
          ≡ key ++ b':' ∷ hmac_signature mac (channel_string alice.id room []) (codes "secret")))
validate_channel_auth_iff_example =
    validate_channel_auth_iff mac token (codes "secret") alice.id room []

signed_texts_injective_example :
    ((channel_string alice.id room [] ≡ channel_string bob.id room (codes "x"))
      ↔ ((alice.id ≡ bob.id) × (room ≡ room) × ([] ≡ codes "x")))
    × (channel_string alice.id room [] ≢ signin_string bob.id (codes "x"))
unfolding valid_channel matches_channel_regex is_name_word is_name_byte drop_prefix lacks all
signed_texts_injective_example =
    signed_texts_injective alice.id bob.id room room [] (codes "x") (pos 100) refl refl refl refl

check_timestamp_window_example :
    (check_timestamp (pos 1000) (pos 401) (pos 600) ≡ true) ↔ ((1000 < 1001) × (401 ≤ 1005))
check_timestamp_window_example = check_timestamp_window 1000 401 (omega arith) (omega arith)
