-- ===== src/Namespace/Removal.antt =====
-- Taking one socket id out of the channels or the users of internal/namespace.go: the closure of
-- RemoveFromChannel and the loops of RemoveSocket.
use pusher.Prelude.{
  ◌≡◌, ◌≢◌, refl, Bool, false, Option, none, some, List, [], ◌∷◌, if◌then◌else◌, arith, is_nil,
  Text, ◌==◌, eq_iff, Map, get, put, del, keys, get-put, get-del, contains, inl, inr, contains-keys,
  without, without_idem, contains-without, Option-cases,
}
use pusher.Namespace.{remove_id, remove_id_each}

-- No entry is the empty slice.
abbrev pub NonEmpty : Map (List Text) → Type 0
NonEmpty m = (k : Text) → get m k ≢ some []

-- An entry after an id is taken out: no entry if nothing is left.
unfoldable pub squash : Text → Option (List Text) → Option (List Text)
squash id none = none
squash id (some ids) = if is_nil (without id ids) then none else some (without id ids)

pub squash-ne_nil : (id : Text) (o : Option (List Text)) → squash id o ≢ some []
unfolding squash
squash-ne_nil id o h = ground arith

pub squash_idem : (id : Text) (o : Option (List Text)) → squash id (squash id o) ≡ squash id o
unfolding squash
squash_idem id none = refl
squash_idem id (some ids) = ground (arith, without_idem id ids)

-- whether an entry holds an id
abbrev pub holds : Option (List Text) → Text → Bool
holds none j = false
holds (some ids) j = contains ids j

pub holds-squash :
    (id : Text) (o : Option (List Text)) (j : Text)
    → holds (squash id o) j ≡ (if id == j then false else holds o j)
unfolding squash contains
holds-squash id none j = ground arith
holds-squash id (some ids) j = ground (arith, contains-without id ids j)

-- One removal succeeds, squashes the entry of its key and leaves the other entries alone.
pub remove_id_lem :
    (id : Text) (m : Map (List Text)) (k : Text)
    → get m k ≢ some []
    → (m' : Map (List Text)) × (remove_id id m k ≡ some m')
      × ((j : Text) → get m' j ≡ (if k == j then squash id (get m k) else get m j))
unfolding remove_id squash
remove_id_lem id m k ne = elim (Option-cases (get m k)) [
  | inl e ↦ (m, rw (e, remove_id), λ j. ground (arith, eq_iff k j))
  | inr (ids, e) ↦ (
    if is_nil (without id ids) then del (put m k (without id ids)) k else put m k (without id ids),
    ground arith,
    λ j. ground (arith, get-put m k (without id ids) j, get-del (put m k (without id ids)) k j),
  )
]

pub remove_id-NonEmpty :
    (id : Text) (m m' : Map (List Text)) (k : Text)
    → NonEmpty m
    → ((j : Text) → get m' j ≡ (if k == j then squash id (get m k) else get m j))
    → NonEmpty m'
remove_id-NonEmpty id m m' k ne at j = ground (arith, at j, ne j, squash-ne_nil id (get m k))

pub remove_id_each_lem :
    (id : Text) (m : Map (List Text)) (ks : List Text)
    → NonEmpty m
    → (m' : Map (List Text)) × (remove_id_each id m ks ≡ some m')
      × ((j : Text) → get m' j ≡ (if contains ks j then squash id (get m j) else get m j))
unfolding remove_id_each contains
remove_id_each_lem id m [] ne = (m, refl, λ j. refl)
remove_id_each_lem id m (k ∷ ks) ne =
    let (m1, one, at) = remove_id_lem id m k (ne k) in
    let (m2, more, rest) = remove_id_each_lem id m1 ks (remove_id-NonEmpty id m m1 k ne at) in
    (m2, rw one more, λ j. ground (arith, rest j, at j, eq_iff k j, squash_idem id (get m j)))

-- Over all keys, every entry is squashed.
pub remove_id_each-keys :
    (id : Text) (m : Map (List Text))
    → NonEmpty m
    → (m' : Map (List Text)) × (remove_id_each id m (keys m) ≡ some m')
      × ((j : Text) → get m' j ≡ squash id (get m j))
unfolding squash
remove_id_each-keys id m ne =
    let (m', done, at) = remove_id_each_lem id m (keys m) ne in
    (m', done, λ j. ground (arith, at j, contains-keys m j))
