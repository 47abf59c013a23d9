-- ===== src/Auth/Requests.antt =====
-- Signed requests to the HTTP API: Verify and prepareQueryString of internal/util/signature.go. The
-- library parses the query, and maps a text to lower and to upper case (`lower`, `upper`).
use pusher.Prelude.{
  ℕ, ◌+◌, ◌-◌, ◌*◌, Bool, true, false, ◌&&◌, ◌||◌, not, Option, none, some, List, [], ◌∷◌, ◌++◌,
  if◌then◌else◌, ltb, leb, eqb, Text, codes, ◌==◌, Map, get, del, keys, ℤ, pos, negsuc,
}
use pusher.Auth.{hmac_signature, check_timestamp, two63}

-- url.Values: the values that each key has
abbrev pub Query : Type 0
Query = Map (List Text)

-- Values.Get
abbrev pub first_value : Option (List Text) → Text
first_value none = []
first_value (some []) = []
first_value (some (v ∷ vs)) = v

abbrev pub value : Query → Text → Text
value q k = first_value (get q k)

-- the order of strings, by their bytes
unfoldable pub at_most : Text → Text → Bool
at_most [] t = true
at_most (a ∷ s) [] = false
at_most (a ∷ s) (b ∷ t) = ltb a b || (eqb a b && at_most s t)

-- sort.Strings
unfoldable pub insert : Text → List Text → List Text
insert s [] = s ∷ []
insert s (t ∷ ts) = let later = insert s ts in if at_most s t then s ∷ t ∷ ts else t ∷ later

unfoldable pub sort : List Text → List Text
sort [] = []
sort (s ∷ ss) = insert s (sort ss)

-- strings.Join(pieces, separator)
unfoldable pub join_with : Text → List Text → Text
join_with separator [] = []
join_with separator (s ∷ []) = s
join_with separator (s ∷ t ∷ ts) = s ++ (separator ++ join_with separator (t ∷ ts))

-- the first loop of prepareQueryString
unfoldable pub lowered : (Text → Text) → List Text → List Text
lowered lower [] = []
lowered lower (k ∷ ks) = lower k ∷ lowered lower ks

-- the second one
unfoldable pub pieces : Query → List Text → List Text
pieces q [] = []
pieces q (k ∷ ks) = (k ++ b'=' ∷ value q k) ∷ pieces q ks

unfoldable pub prepare_query_string : (Text → Text) → Query → Text
prepare_query_string lower q = join_with (codes "&") (pieces q (sort (lowered lower (keys q))))

-- strconv.ParseInt(a, 10, 64), 0 for its errors
abbrev pub is_digit : ℕ → Bool
is_digit b = leb b'0' b && leb b b'9'

unfoldable pub digits : ℕ → Text → Option ℕ
digits n [] = some n
digits n (b ∷ s) = let rest = digits (n * 10 + (b - b'0')) s in if is_digit b then rest else none

abbrev pub at_least_one : Text → Option ℕ
at_least_one [] = none
at_least_one (b ∷ s) = digits 0 (b ∷ s)

abbrev pub in_range : Bool → Option ℕ → ℤ
in_range negative none = pos 0
in_range true (some n) = if eqb n 0 then pos 0 else if leb n two63 then negsuc (n - 1) else pos 0
in_range false (some n) = if ltb n two63 then pos n else pos 0

unfoldable pub str_2_int64 : Text → ℤ
str_2_int64 [] = pos 0
str_2_int64 (b ∷ s) =
    if eqb b b'-'
    then in_range true (at_least_one s)
    else in_range false (if eqb b b'+' then at_least_one s else at_least_one (b ∷ s))

pub record Request : Type 0 where
  pub method : Text
  pub path : Text
  pub query : Query

pub data Rejection : Type 0 where
  invalid_version invalid_timestamp invalid_signature : Rejection

-- the text that is signed, with the signature itself taken out of the query
unfoldable pub string_to_sign : (Text → Text) → (Text → Text) → Request → Text
string_to_sign lower upper r = join_with (codes "\n") (
    upper r.method
    ∷ r.path
    ∷ prepare_query_string lower (del r.query (codes "auth_signature"))
    ∷ [])

-- Verify at the time `now`; `none` is that the request is accepted
unfoldable pub verify :
    (Text → Text → Text) → (Text → Text) → (Text → Text) → ℤ → Text → Request → Option Rejection
verify hmac lower upper now secret r =
    if not (value r.query (codes "auth_version") == codes "1.0")
    then some invalid_version
    else if not
        (check_timestamp now (str_2_int64 (value r.query (codes "auth_timestamp"))) (pos 600))
    then some invalid_timestamp
    else if not (
        hmac_signature hmac (string_to_sign lower upper r) secret
        == value r.query (codes "auth_signature"))
    then some invalid_signature
    else none
