-- ===== src/Auth/Canonical.antt =====
-- What the signature of a request covers, by internal/util/signature.go.
use pusher.Prelude.{
  ◌≡◌, refl, sym, ap, ◌∙◌, true, false, not, Option, none, some, List, [], ◌∷◌, ◌++◌, arith,
  if◌then◌else◌, eq_iff, ◌==◌, Text, codes, contains, without, Distinct, get, put, del, keys,
  get-put, get-del, is_some, Bool-cases, inl, inr, ℤ, pos,
}
use mathlib.Core.List.{Perm, Permᴰ}
use mathlib.Core.Logic.{∥∥₁_elim}
use pusher.Auth.{hmac_signature, check_timestamp}
use pusher.Auth.Requests.{
  Query, value, first_value, sort, lowered, pieces, join_with, prepare_query_string, str_2_int64,
  Request, Rejection, invalid_version, invalid_timestamp, invalid_signature, string_to_sign, verify,
}
use pusher.Auth.Shuffling.{keys-Permᴰ, lowered-Permᴰ, get-Permᴰ, del-Permᴰ}
use pusher.Auth.Sorting.{sort-Permᴰ, contains-sort}

-- the pieces depend only on the values at the keys
pieces_cong :
    (q p : Query) (ks : List Text)
    → ((k : Text) → contains ks k ≡ true → value q k ≡ value p k)
    → pieces q ks ≡ pieces p ks
unfolding pieces contains
pieces_cong q p [] same = refl
pieces_cong q p (k ∷ ks) same =
    let here = same k (ground (arith, eq_iff k k)) in
    let rest = pieces_cong q p ks (λ j h. same j (ground (arith, h))) in
    ap (λ x. (k ++ b'=' ∷ x) ∷ pieces q ks) here ∙ ap (λ x. (k ++ b'=' ∷ value p k) ∷ x) rest

-- a verdict depends only on the values at the three names and on the text that is signed
verify_cong :
    (hmac : Text → Text → Text) (lower upper : Text → Text) (now : ℤ) (secret : Text) (r : Request)
    (q : Query)
    → value r.query (codes "auth_version") ≡ value q (codes "auth_version")
    → value r.query (codes "auth_timestamp") ≡ value q (codes "auth_timestamp")
    → value r.query (codes "auth_signature") ≡ value q (codes "auth_signature")
    → prepare_query_string lower (del r.query (codes "auth_signature"))
      ≡ prepare_query_string lower (del q (codes "auth_signature"))
    → verify hmac lower upper now secret r
      ≡ verify hmac lower upper now secret (record r { query = q })
unfolding verify string_to_sign
verify_cong hmac lower upper now secret r q v t s p =
    ap
      (λ x.
        verdict x (value r.query (codes "auth_timestamp")) (value r.query (codes "auth_signature"))
          (prepare_query_string lower (del r.query (codes "auth_signature"))))
      v
    ∙ (ap
          (λ x.
            verdict (value q (codes "auth_version")) x (value r.query (codes "auth_signature"))
              (prepare_query_string lower (del r.query (codes "auth_signature"))))
          t
        ∙ (ap
              (λ x.
                verdict (value q (codes "auth_version")) (value q (codes "auth_timestamp")) x
                  (prepare_query_string lower (del r.query (codes "auth_signature"))))
              s
            ∙ ap
                (verdict (value q (codes "auth_version")) (value q (codes "auth_timestamp"))
                  (value q (codes "auth_signature")))
                p))
  where
    verdict : Text → Text → Text → Text → Option Rejection
    verdict version timestamp signature signed =
        if not (version == codes "1.0")
        then some invalid_version
        else if not (check_timestamp now (str_2_int64 timestamp) (pos 600))
        then some invalid_timestamp
        else if not (
            hmac_signature hmac (join_with (codes "\n") (upper r.method ∷ r.path ∷ signed ∷ []))
              secret
            == signature)
        then some invalid_signature
        else none

-- the text of the query does not depend on the order of its entries
prepare_query_string-Permᴰ :
    (lower : Text → Text) (q p : Query)
    → Permᴰ (keys q) (keys p)
    → ((k : Text) → get q k ≡ get p k)
    → prepare_query_string lower q ≡ prepare_query_string lower p
unfolding prepare_query_string
prepare_query_string-Permᴰ lower q p d same =
    ap (λ ks. join_with (codes "&") (pieces q ks)) (sort-Permᴰ (lowered-Permᴰ lower d))
    ∙ ap (join_with (codes "&"))
        (pieces_cong q p (sort (lowered lower (keys p))) (λ k h. ap first_value (same k)))

get-del-cong : (q p : Query) (s k : Text) → get q k ≡ get p k → get (del q s) k ≡ get (del p s) k
get-del-cong q p s k e = ground (arith, get-del q s k, get-del p s k, e)

verify-Permᴰ :
    (hmac : Text → Text → Text) (lower upper : Text → Text) (now : ℤ) (secret : Text) (r : Request)
    (q : Query)
    → Permᴰ r.query q
    → Distinct (keys r.query)
    → verify hmac lower upper now secret r
      ≡ verify hmac lower upper now secret (record r { query = q })
verify-Permᴰ hmac lower upper now secret r q d h =
    let same : (k : Text) → get r.query k ≡ get q k = λ k. get-Permᴰ k d h in
    let gone = codes "auth_signature" in
    verify_cong hmac lower upper now secret r q (ap first_value (same (codes "auth_version")))
      (ap first_value (same (codes "auth_timestamp"))) (ap first_value (same gone))
      (prepare_query_string-Permᴰ lower (del r.query gone) (del q gone)
        (keys-Permᴰ (del-Permᴰ gone d)) (λ k. get-del-cong r.query q gone k (same k)))

-- Verify gives the same answer in whatever order the query's map is gone through: the sorting makes the
-- signed text one of the parameters alone.
pub verify-Perm :
    (hmac : Text → Text → Text) (lower upper : Text → Text) (now : ℤ) (secret : Text) (r : Request)
    (q : Query)
    → Perm r.query q
    → Distinct (keys r.query)
    → verify hmac lower upper now secret r
      ≡ verify hmac lower upper now secret (record r { query = q })
verify-Perm hmac lower upper now secret r q p h =
    ∥∥₁_elim p (hlevel) (λ d. verify-Permᴰ hmac lower upper now secret r q d h)

contains-lowered :
    (lower : Text → Text) (ks : List Text) (s k : Text)
    → contains (lowered lower ks) k ≡ false
    → contains (lowered lower (without s ks)) k ≡ false
unfolding lowered contains without
contains-lowered lower [] s k h = refl
contains-lowered lower (j ∷ ks) s k h = ground (arith, h, contains-lowered lower ks s k)

keys-del : (q : Query) (s : Text) → keys (del q s) ≡ without s (keys q)
unfolding keys del without
keys-del [] s = refl
keys-del ((j, v) ∷ q) s = ground (arith, keys-del q s)

keys-put :
    (q : Query) (k : Text) (vs : List Text) → is_some (get q k) ≡ true → keys (put q k vs) ≡ keys q
unfolding keys put get
keys-put [] k vs h = cc h
keys-put ((j, v) ∷ q) k vs h = ground (arith, h, eq_iff j k, keys-put q k vs)

-- The signature does not cover every parameter. If a parameter's name is not the lower-case form of the
-- name of any parameter, as a name with a capital is not, then Verify gives the same answer
-- whatever values the parameter has.
pub verify_uncovered :
    (hmac : Text → Text → Text) (lower upper : Text → Text) (now : ℤ) (secret : Text) (r : Request)
    (k : Text) (vs : List Text)
    → is_some (get r.query k) ≡ true
    → contains (lowered lower (keys r.query)) k ≡ false
    → (k == codes "auth_version") ≡ false
    → (k == codes "auth_timestamp") ≡ false
    → (k == codes "auth_signature") ≡ false
    → verify hmac lower upper now secret r
      ≡ verify hmac lower upper now secret (record r { query = put r.query k vs })
unfolding prepare_query_string
verify_uncovered hmac lower upper now secret r k vs has low v t s =
    let q = put r.query k vs in
    let gone = codes "auth_signature" in
    let other : (j : Text) → (k == j) ≡ false → get r.query j ≡ get q j =
      λ j n. ground (arith, get-put r.query k vs j, n) in
    let same_keys : keys (del r.query gone) ≡ keys (del q gone) =
      keys-del r.query gone
      ∙ (ap (without gone) (sym (keys-put r.query k vs has)) ∙ sym (keys-del q gone)) in
    let ks = sort (lowered lower (keys (del r.query gone))) in
    let low' : contains ks k ≡ false =
      contains-sort _ k
      ∙ (ap (λ x. contains (lowered lower x) k) (keys-del r.query gone)
          ∙ contains-lowered lower (keys r.query) gone k low) in
    verify_cong hmac lower upper now secret r q (ap first_value (other _ v))
      (ap first_value (other _ t)) (ap first_value (other _ s))
      (ap (join_with (codes "&")) (
          pieces_cong (del r.query gone) (del q gone) ks (λ j h. ap first_value (
            get-del-cong r.query q gone j (
              other j (elim (Bool-cases (k == j)) [
                | inl y ↦ absurd (ground (arith, low', h, eq_iff k j, y))
                | inr n ↦ n
              ])))))
        ∙ ap (λ x. join_with (codes "&") (pieces (del q gone) (sort (lowered lower x)))) same_keys)
