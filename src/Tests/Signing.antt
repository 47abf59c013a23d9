-- ===== src/Tests/Signing.antt =====
-- A signed request with a parameter whose name has a capital.
use pusher.Prelude.{
  ℕ, ◌+◌, ◌≡◌, refl, List, [], ◌∷◌, if◌then◌else◌, leb, ◌&&◌, Text, codes, ◌==◌, get, put, del,
  keys, contains, pos, negsuc,
}
use mathlib.Core.List.Perm
use pusher.Auth.Canonical.{verify-Perm, verify_uncovered}
use pusher.Auth.Requests.{
  Request, lowered, str_2_int64, string_to_sign, verify, digits, join_with, prepare_query_string,
  pieces, sort, insert, at_most,
}
use pusher.Tests.Data.{shop}

-- a hash that takes the key in front, and the case of ASCII letters
abbrev hash : Text → Text → Text
hash key text = key

abbrev lower_byte : ℕ → ℕ
lower_byte b = if leb b'A' b && leb b b'Z' then b + 32 else b

abbrev lower : Text → Text
lower [] = []
lower (b ∷ s) = lower_byte b ∷ lower s

abbrev keep : Text → Text
keep s = s

abbrev amount : Text
amount = codes "Amount"

abbrev version_entry : Text × List Text
version_entry = (codes "auth_version", codes "1.0" ∷ [])

abbrev amount_entry : Text × List Text
amount_entry = (amount, codes "1" ∷ [])

abbrev asked : Request
asked = record {
  method = codes "POST";
  path = codes "/apps/7/events";
  query = version_entry ∷ amount_entry ∷ [];
}

verify-Perm_example :
    verify hash lower keep (pos 1000) shop.secret asked
    ≡ verify hash lower keep
        (pos 1000)
        shop.secret
        (record asked { query = amount_entry ∷ version_entry ∷ [] })
unfolding keys contains ◌==◌
verify-Perm_example =
    verify-Perm hash lower keep (pos 1000) shop.secret asked (amount_entry ∷ version_entry ∷ [])
      (Perm.swap amount_entry version_entry []) (refl, (refl, tt))

verify_uncovered_example :
    verify hash lower keep (pos 1000) shop.secret asked
    ≡ verify hash lower keep
        (pos 1000)
        shop.secret
        (record asked { query = put asked.query amount (codes "9" ∷ []) })
unfolding get keys contains lowered ◌==◌
verify_uncovered_example =
    verify_uncovered hash lower keep (pos 1000) shop.secret asked amount (codes "9" ∷ []) refl refl
      refl refl refl

-- the sorted text, in lower case
sorted :
    string_to_sign lower keep (record asked {
      query =
          (codes "b", codes "2" ∷ [])
          ∷ (codes "auth_signature", [])
          ∷ (codes "A", codes "1" ∷ [])
          ∷ [];
    })
    ≡ codes "POST\n/apps/7/events\na=&b=2"
unfolding string_to_sign join_with prepare_query_string pieces sort lowered keys del ◌==◌ insert
    at_most get
sorted = refl

whole_number : str_2_int64 (codes "-9223372036854775808") ≡ negsuc 9223372036854775807
unfolding str_2_int64 digits
whole_number = refl
