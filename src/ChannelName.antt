-- ===== src/ChannelName.antt =====
-- Channel and event names: internal/util/utils.go (lines 38 to 88) and the prefixes of
-- internal/constants/constants.go.
pub mod Valid
pub mod Prefixes
use pusher.Prelude.{
  ℕ, ◌≡◌, Bool, true, false, ◌&&◌, ◌||◌, not, Option, none, some, List, [], ◌∷◌, leb, eqb, ltb,
  if◌then◌else◌, Text, codes, has_prefix, drop_prefix, length, is_nil, all, ℤ, exceeds, ◌≤◌,
}

abbrev pub presence_prefix : Text
presence_prefix = codes "presence-"

abbrev pub presence_cache_prefix : Text
presence_cache_prefix = codes "presence-cache-"

abbrev pub private_prefix : Text
private_prefix = codes "private-"

abbrev pub private_cache_prefix : Text
private_cache_prefix = codes "private-cache-"

abbrev pub encrypted_prefix : Text
encrypted_prefix = codes "private-encrypted-"

abbrev pub encrypted_cache_prefix : Text
encrypted_cache_prefix = codes "private-encrypted-cache-"

abbrev pub cache_prefix : Text
cache_prefix = codes "cache-"

-- constants.SocketRushServerToUserPrefix
abbrev pub server_to_user_prefix : Text
server_to_user_prefix = codes "#server-to-user-"

unfoldable pub is_presence_channel : Text → Bool
is_presence_channel c = has_prefix c presence_prefix || has_prefix c presence_cache_prefix

unfoldable pub is_private_channel : Text → Bool
is_private_channel c =
    has_prefix c private_prefix
    || has_prefix c private_cache_prefix
    || has_prefix c server_to_user_prefix

unfoldable pub is_private_encrypted_channel : Text → Bool
is_private_encrypted_channel c =
    has_prefix c encrypted_prefix || has_prefix c encrypted_cache_prefix

unfoldable pub is_cache_channel : Text → Bool
is_cache_channel c =
    has_prefix c cache_prefix
    || has_prefix c presence_cache_prefix
    || has_prefix c private_cache_prefix
    || has_prefix c encrypted_cache_prefix

unfoldable pub is_client_event : Text → Bool
is_client_event e = has_prefix e (codes "client-")

-- the class [-a-zA-Z0-9_=@,.;] of channelValidationRegex
unfoldable pub is_name_byte : ℕ → Bool
is_name_byte b =
    eqb b b'-'
    || (leb b'a' b && leb b b'z')
    || (leb b'A' b && leb b b'Z')
    || (leb b'0' b && leb b b'9')
    || eqb b b'_'
    || eqb b b'='
    || eqb b b'@'
    || eqb b b','
    || eqb b b'.'
    || eqb b b';'

-- [...]+ up to the end of the text
unfoldable pub is_name_word : Text → Bool
is_name_word s = not (is_nil s) && all is_name_byte s

-- channelValidationRegex.MatchString: the optional group is taken or skipped
unfoldable pub matches_channel_regex : Text → Bool
matches_channel_regex s =
    is_name_word s
    || elim (drop_prefix s server_to_user_prefix) [ none ↦ false | some r ↦ is_name_word r ]

unfoldable pub valid_channel : Text → ℤ → Bool
valid_channel channel max_length =
    if exceeds (length channel) max_length || not (matches_channel_regex channel)
    then false
    else true

pub data NameError : Type 0 where
  name_too_long invalid_characters : NameError

-- `none` is the nil error
unfoldable pub validate_channel_name : Text → ℤ → Option NameError
validate_channel_name channel max_length =
    if exceeds (length channel) max_length
    then some name_too_long
    else if not (matches_channel_regex channel)
    then some invalid_characters
    else none
