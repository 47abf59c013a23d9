-- ===== src/Auth.antt =====
-- Signatures: ValidateChannelAuth of internal/util/utils.go, checkTimestamp and HmacSignature of
-- internal/util/signature.go, and signinTokenIsValid of internal/websocket.go. SHA-256 is not part of
-- the repository: `hmac key message` stands for the bytes of HMAC-SHA256. An int64 is a ℤ; the
-- arithmetic of checkTimestamp on it wraps around as the machine's does.
pub mod Tokens
pub mod Window
pub mod Requests
pub mod Sorting
pub mod Shuffling
pub mod Canonical
use pusher.Prelude.{
  ℕ, ◌+◌, ◌-◌, ◌*◌, ◌/◌, ◌%◌, ◌^◌, Bool, true, false, ◌&&◌, ◌||◌, not, Option, none, some, List, [],
  ◌∷◌, ◌++◌, if◌then◌else◌, ltb, leb, eqb, is_nil, Text, codes, ◌==◌, Map, get, del, keys, ℤ, pos,
  negsuc,
}

-- hex.EncodeToString
unfoldable pub hex_digit : ℕ → ℕ
hex_digit n = if ltb n 10 then b'0' + n else b'a' + (n - 10)

unfoldable pub hex : Text → Text
hex [] = []
hex (b ∷ s) = hex_digit (b / 16) ∷ hex_digit (b % 16) ∷ hex s

-- HmacSignature(toSign, secret)
unfoldable pub hmac_signature : (Text → Text → Text) → Text → Text → Text
hmac_signature hmac to_sign secret = hex (hmac secret to_sign)

-- strings.Split(s, ":")
abbrev pub before : ℕ → List Text → List Text
before c [] = (c ∷ []) ∷ []
before c (p ∷ ps) = (c ∷ p) ∷ ps

unfoldable pub split_colon : Text → List Text
split_colon [] = [] ∷ []
split_colon (c ∷ s) = let parts = split_colon s in if eqb c b':' then [] ∷ parts else before c parts

-- the string that authorizes a socket for a channel
unfoldable pub channel_string : Text → Text → Text → Text
channel_string socket channel channel_data =
    if is_nil channel_data
    then socket ++ b':' ∷ channel
    else socket ++ b':' ∷ (channel ++ b':' ∷ channel_data)

-- the checks of ValidateChannelAuth on the parts of the token
unfoldable pub check_parts : List Text → Text → Bool
check_parts (key ∷ signature ∷ []) expected = if is_nil key then false else signature == expected
check_parts _ expected = false

unfoldable pub validate_channel_auth :
    (Text → Text → Text) → Text → Text → Text → Text → Text → Bool
validate_channel_auth hmac token secret socket channel channel_data =
    if is_nil token
    then false
    else check_parts (split_colon token)
        (hmac_signature hmac (channel_string socket channel channel_data) secret)

-- fmt.Sprintf("%s::user::%s", w.ID, userData)
unfoldable pub signin_string : Text → Text → Text
signin_string socket user_data = socket ++ (codes "::user::" ++ user_data)

unfoldable pub signin_token_is_valid :
    (Text → Text → Text) → Text → Text → Text → Text → Text → Bool
signin_token_is_valid hmac key secret socket user_data token =
    (key ++ b':' ∷ hmac_signature hmac (signin_string socket user_data) secret) == token

abbrev pub two63 : ℕ
two63 = 9223372036854775808

abbrev pub two64 : ℕ
two64 = 18446744073709551616

-- an int64 counted from the least one, so that the order is that of the naturals
abbrev pub biased : ℤ → ℕ
biased (pos n) = n + two63
biased (negsuc n) = two63 - (n + 1)

-- checkTimestamp(timestamp, grace), at the time `now`, with wrap-around
unfoldable pub check_timestamp : ℤ → ℤ → ℤ → Bool
check_timestamp now timestamp grace =
    ltb ((biased now + two64 + two63 - biased timestamp) % two64) (biased grace)
    && leb (biased timestamp) ((biased now + 5) % two64)
