-- ===== src/Registry/Lookup.antt =====
-- What FindByID and FindByKey of internal/appManagerArray.go find.
use pusher.Prelude.{
  ◌≡◌, refl, true, ◌↔◌, inl, inr, Option, none, some, List, [], ◌∷◌, if◌then◌else◌, arith, is_some,
  Text, ◌==◌, eq_iff, eq_refl, get, put, keys, get-put, contains-keys, put-Distinct, Distinct,
  Bool-cases, ◌∙◌,
}
use pusher.App.{App}
use pusher.Registry.{Registry, add_apps, init, find_by_id, find_by_key}

-- Every app stands under its own id, and each id once.
pub record IsKeyed (r : Registry) : Type 0 where
  pub at : (id : Text) (a : App) → get r id ≡ some a → a.id ≡ id
  pub distinct : Distinct (keys r)

add_apps-IsKeyed : (r : Registry) (apps : List App) → IsKeyed r → IsKeyed (add_apps r apps)
unfolding add_apps
add_apps-IsKeyed r [] k = k
add_apps-IsKeyed r (a ∷ rest) k = add_apps-IsKeyed (put r a.id a) rest (record {
  at = λ id b e. ground (arith, k.at id b, e, get-put r a.id a id, eq_iff a.id id);
  distinct = put-Distinct r a.id a k.distinct;
})

-- the last app of the configuration with the id
pub configured : List App → Text → Option App
configured [] id = none
configured (a ∷ rest) id =
    let later = configured rest id in
    if is_some later then later else if a.id == id then some a else none

get-add_apps :
    (r : Registry) (apps : List App) (id : Text)
    → get (add_apps r apps) id
      ≡ (if is_some (configured apps id) then configured apps id else get r id)
unfolding add_apps configured
get-add_apps r [] id = ground arith
get-add_apps r (a ∷ rest) id =
    ground (arith, get-add_apps (put r a.id a) rest id, get-put r a.id a id)

find_sound :
    (r : Registry) (key : Text) (a : App)
    → Distinct (keys r)
    → find_by_key r key ≡ some a
    → (a.key ≡ key) × ((id : Text) × (get r id ≡ some a))
unfolding find_by_key get keys
find_sound [] key a d e = cc
find_sound ((i, b) ∷ rest) key a d e = elim (Bool-cases (b.key == key)) [
  | inl y ↦ (ground (arith, y, e, eq_iff b.key key), (i, ground (arith, y, e, eq_refl i)))
  | inr n ↦
      let (p, q) = find_sound rest key a d.1 (ground (arith, n, e)) in
      (p, (q.0, ground (arith, q.1, d.0, contains-keys rest i, eq_iff i q.0)))
]

find_complete :
    (r : Registry) (key id : Text) (a : App)
    → get r id ≡ some a
    → a.key ≡ key
    → is_some (find_by_key r key) ≡ true
unfolding find_by_key get
find_complete [] key id a e k = cc
find_complete ((i, b) ∷ rest) key id a e k = elim (Bool-cases (i == id)) [
  | inl y ↦ ground (arith, y, e, k, eq_refl key)
  | inr n ↦ ground (arith, find_complete rest key id a (ground (arith, n, e)) k)
]

empty-IsKeyed : IsKeyed []
unfolding get keys
empty-IsKeyed = record { at = λ id a e. cc; distinct = tt }

none_left : (o : Option App) (id : Text) → (if is_some o then o else get {V = App} [] id) ≡ o
unfolding get
none_left none id = refl
none_left (some a) id = refl

-- For any configuration: FindByID finds the last app that is configured with the id; FindByKey finds an
-- app with the key that FindByID also finds under its id, and it finds one exactly if there is one.
pub find_by_key_lem :
    (apps : List App) (key id : Text)
    → (find_by_id (init apps).0 id ≡ configured apps id)
      × ((is_some (find_by_key (init apps).0 key) ≡ true)
          ↔ ((a : App) × (a.key ≡ key) × (find_by_id (init apps).0 a.id ≡ some a)))
unfolding init find_by_id
find_by_key_lem apps key id =
    let r = add_apps [] apps in
    let k = add_apps-IsKeyed [] apps empty-IsKeyed in
    (
      get-add_apps [] apps id ∙ none_left (configured apps id) id,
      (λ h. found k (find_by_key r key) refl h, λ p. find_complete r key p.0.id p.0 p.2 p.1),
    )
  where
    found :
        IsKeyed (add_apps [] apps)
        → (o : Option App) → find_by_key (add_apps [] apps) key ≡ o
        → is_some (find_by_key (add_apps [] apps) key) ≡ true
        → (a : App) × (a.key ≡ key) × (get (add_apps [] apps) a.id ≡ some a)
    found k none e h = absurd (ground (arith, e, h))
    found k (some a) e h =
        let (p, q) = find_sound (add_apps [] apps) key a k.distinct e in
        (a, p, ground (arith, q.1, k.at q.0 a q.1))
