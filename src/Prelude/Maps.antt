-- ===== src/Prelude/Maps.antt =====
-- Go maps with string keys, as association lists. The order in which `range` goes through a map is
-- the list's; Go leaves it open, and no theorem depends on it.
use mathlib.Core.Path.{◌≡◌, refl}
use mathlib.Core.List.{List, [], ◌∷◌, ◌++◌}
use mathlib.Core.Bool.{Bool, false, ◌||◌}
use mathlib.Core.Option.{Option, none, some}
use native.Mathlib.Omega.{arith}
use pusher.Prelude.Tests.{if◌then◌else◌, is_some}
use pusher.Prelude.Bytes.{Text, ◌==◌, eq_iff}

abbrev pub Map {ℓ} : Type ℓ → Type ℓ
Map V = List (Text × V)

-- slices.Contains(ids, id)
unfoldable pub contains : List Text → Text → Bool
contains [] id = false
contains (x ∷ xs) id = x == id || contains xs id

module _ {ℓ} {V : Type ℓ} where
  -- v, ok := m[k]
  unfoldable pub get : Map V → Text → Option V
  get [] k = none
  get ((j, v) ∷ m) k = if j == k then some v else get m k

  -- m[k] = v
  unfoldable pub put : Map V → Text → V → Map V
  put [] k v = (k, v) ∷ []
  put ((j, w) ∷ m) k v = if j == k then (k, v) ∷ m else (j, w) ∷ put m k v

  -- delete(m, k)
  unfoldable pub del : Map V → Text → Map V
  del [] k = []
  del ((j, w) ∷ m) k = let rest = del m k in if j == k then rest else (j, w) ∷ rest

  -- the keys that `range` goes through
  unfoldable pub keys : Map V → List Text
  keys [] = []
  keys ((j, w) ∷ m) = j ∷ keys m

  pub get-put :
      (m : Map V) (k : Text) (v : V) (j : Text)
      → get (put m k v) j ≡ (if k == j then some v else get m j)
  unfolding get put
  get-put [] k v j = refl
  get-put ((i, w) ∷ m) k v j = ground (arith, eq_iff k j, eq_iff i k, eq_iff i j, get-put m k v j)

  pub get-del : (m : Map V) (k j : Text) → get (del m k) j ≡ (if k == j then none else get m j)
  unfolding get del
  get-del [] k j = ground arith
  get-del ((i, w) ∷ m) k j = ground (arith, eq_iff k j, eq_iff i k, eq_iff i j, get-del m k j)

  pub contains-keys : (m : Map V) (k : Text) → contains (keys m) k ≡ is_some (get m k)
  unfolding contains keys get
  contains-keys [] k = refl
  contains-keys ((j, w) ∷ m) k = ground (arith, contains-keys m k)

-- The slice that the loops `for _, id := range ids { if id != gone { append } }` build.
unfoldable pub without : Text → List Text → List Text
without gone [] = []
without gone (x ∷ xs) = let rest = without gone xs in if x == gone then rest else x ∷ rest

pub contains-without :
    (gone : Text) (xs : List Text) (j : Text)
    → contains (without gone xs) j ≡ (if gone == j then false else contains xs j)
unfolding contains without
contains-without gone [] j = ground arith
contains-without gone (x ∷ xs) j =
    ground (arith, eq_iff x gone, eq_iff gone j, eq_iff x j, contains-without gone xs j)

pub without_idem : (gone : Text) (xs : List Text) → without gone (without gone xs) ≡ without gone xs
unfolding without
without_idem gone [] = refl
without_idem gone (x ∷ xs) = ground (arith, without_idem gone xs)

pub without_absent :
    (gone : Text) (xs : List Text) → contains xs gone ≡ false → without gone xs ≡ xs
unfolding without contains
without_absent gone [] h = refl
without_absent gone (x ∷ xs) h = ground (arith, without_absent gone xs)

pub contains-append :
    (xs ys : List Text) (j : Text) → contains (xs ++ ys) j ≡ (contains xs j || contains ys j)
unfolding contains
contains-append [] ys j = refl
contains-append (x ∷ xs) ys j = ground (arith, contains-append xs ys j)

pub without-append :
    (gone : Text) (xs ys : List Text) → without gone (xs ++ ys) ≡ without gone xs ++ without gone ys
unfolding without
without-append gone [] ys = refl
without-append gone (x ∷ xs) ys = ground (arith, without-append gone xs ys)

-- No id stands twice in the slice.
abbrev pub Distinct : List Text → Type 0
Distinct [] = Unit {0}
Distinct (x ∷ xs) = (contains xs x ≡ false) × Distinct xs

pub without-Distinct : (gone : Text) (xs : List Text) → Distinct xs → Distinct (without gone xs)
unfolding without
without-Distinct gone [] d = tt
without-Distinct gone (x ∷ xs) d =
    ground (arith, without-Distinct gone xs d.1, contains-without gone xs x)

pub append-Distinct :
    (xs : List Text) (id : Text) → Distinct xs → contains xs id ≡ false → Distinct (xs ++ id ∷ [])
unfolding contains
append-Distinct [] id d h = (refl, tt)
append-Distinct (x ∷ xs) id d h =
    ground
      (arith, append-Distinct xs id d.1, contains-append xs (id ∷ []) x, eq_iff x id, eq_iff id x)

-- A map built by `put` has each key once.
pub keys-put {ℓ} :
    {V : Type ℓ} (m : Map V) (k : Text) (v : V) (j : Text)
    → contains (keys (put m k v)) j ≡ (k == j || contains (keys m) j)
unfolding contains keys put
keys-put [] k v j = refl
keys-put ((i, w) ∷ m) k v j = ground (arith, eq_iff i k, eq_iff k j, keys-put m k v j)

pub put-Distinct {ℓ} :
    {V : Type ℓ} (m : Map V) (k : Text) (v : V) → Distinct (keys m) → Distinct (keys (put m k v))
unfolding keys put contains
put-Distinct [] k v d = (refl, tt)
put-Distinct ((i, w) ∷ m) k v d =
    ground (arith, eq_iff i k, eq_iff k i, keys-put m k v i, put-Distinct m k v d.1)
