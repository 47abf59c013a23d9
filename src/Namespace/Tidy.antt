-- ===== src/Namespace/Tidy.antt =====
-- The invariant of internal/namespace.go that keeps its slice arithmetic from panicking: no entry of
-- `Channels` or `Users` is an empty slice; and no user lists a socket twice.
use pusher.Prelude.{
  ℕ, ◌≡◌, ◌≢◌, refl, Option, none, some, List, [], ◌∷◌, ◌++◌, if◌then◌else◌, arith, is_nil, is_some,
  Text, ◌==◌, eq_iff, Map, get, put, del, get-put, contains, Option-cases, Bool-cases, inl, inr,
  if_both, Distinct, without-Distinct, append-Distinct,
}
use mathlib.Core.Path.{subst}
use pusher.Socket.{Heap, Ref}
use pusher.Namespace.{
  Namespace, blank, ids_or_empty, add_socket, remove_socket, add_to_channel, remaining, remove_each,
  remove_id, single_result, remove_from_channel, add_user, remove_user, drop_empty, compact_maps,
}
use pusher.Namespace.Removal.{
  NonEmpty, squash, squash-ne_nil, squash_idem, remove_id_lem, remove_id-NonEmpty,
  remove_id_each-keys,
}

abbrev pub EachDistinct : Map (List Text) → Type 0
EachDistinct m = (k : Text) (ids : List Text) → get m k ≡ some ids → Distinct ids

pub record IsTidy (n : Namespace) : Type 0 where
  pub channels_ne : NonEmpty n.channels
  pub users_ne : NonEmpty n.users
  pub users_distinct : EachDistinct n.users

pub blank-IsTidy : IsTidy blank
unfolding get
blank-IsTidy = record {
  channels_ne = λ k h. cc;
  users_ne = λ k h. cc;
  users_distinct = λ k ids h. cc;
}

squash-Distinct :
    (id : Text) (o : Option (List Text)) (ids : List Text)
    → ((xs : List Text) → o ≡ some xs → Distinct xs)
    → squash id o ≡ some ids
    → Distinct ids
unfolding squash
squash-Distinct id none ids d h = cc
squash-Distinct id (some xs) ids d h = ground (arith, without-Distinct id xs (d xs refl))

-- the squashed users stay distinct
remove_id-EachDistinct :
    (id : Text) (m m' : Map (List Text)) (k : Text)
    → EachDistinct m
    → ((j : Text) → get m' j ≡ (if k == j then squash id (get m k) else get m j))
    → EachDistinct m'
remove_id-EachDistinct id m m' k d at j ids h = elim (Bool-cases (k == j)) [
  | inl e ↦ squash-Distinct id (get m k) ids (d k) (ground (arith, at j))
  | inr e ↦ d j ids (ground (arith, at j))
]

-- RemoveFromChannel's loop succeeds and squashes the channels in the list.
pub remove_each_lem :
    (id : Text) (m : Map (List Text)) (results : Map ℕ) (cs : List Text)
    → NonEmpty m
    → (m' : Map (List Text)) × (results' : Map ℕ) × (remove_each id m results cs
        ≡ some (m', results'))
      × ((j : Text) → get m' j ≡ (if contains cs j then squash id (get m j) else get m j))
unfolding remove_each contains
remove_each_lem id m results [] ne = (m, results, refl, λ j. refl)
remove_each_lem id m results (c ∷ cs) ne =
    let (m1, one, at) = remove_id_lem id m c (ne c) in
    let next = if is_some (get m c) then put results c (remaining id (get m c)) else results in
    let (m2, r2, more, rest) = remove_each_lem id m1 next cs (remove_id-NonEmpty id m m1 c ne at) in
    (m2, r2, rw one more, λ j. ground (arith, rest j, at j, eq_iff c j, squash_idem id (get m j)))

pub add_socket-IsTidy :
    (h : Heap) (ws : Ref) (n : Namespace) → IsTidy n → IsTidy (add_socket h ws n).0
unfolding add_socket
add_socket-IsTidy h ws n t = elim (Bool-cases (is_some (get n.sockets (h ws).id))) [
  | inl e ↦ rw e t
  | inr e ↦ rw e (record {
    channels_ne = t.channels_ne;
    users_ne = t.users_ne;
    users_distinct = t.users_distinct;
  })
]

append-ne_nil : (xs : List Text) (x : Text) → xs ++ x ∷ [] ≢ []
append-ne_nil [] x h = cc
append-ne_nil (y ∷ xs) x h = cc

pub add_to_channel-IsTidy :
    (h : Heap) (ws : Ref) (c : Text) (n : Namespace) → IsTidy n → IsTidy (add_to_channel h ws c n).0
unfolding add_to_channel
add_to_channel-IsTidy h ws c n t =
    let ids = ids_or_empty (get n.channels c) in
    record {
      channels_ne = λ k e. ground (
        arith,
        get-put n.channels c (ids ++ (h ws).id ∷ []) k,
        append-ne_nil ids (h ws).id,
        t.channels_ne k,
      );
      users_ne = t.users_ne;
      users_distinct = t.users_distinct;
    }

abbrev pub Safe : Option Namespace → Type 0
Safe o = (n : Namespace) × (o ≡ some n) × IsTidy n

pub remove_from_channel-IsTidy :
    (id : Text) (cs : List Text) (n : Namespace)
    → IsTidy n
    → (n' : Namespace) × (r : ℕ) × (remove_from_channel id cs n ≡ some (n', r)) × IsTidy n'
unfolding remove_from_channel
remove_from_channel-IsTidy id cs n t =
    let (m, results, done, at) = remove_each_lem id n.channels [] cs t.channels_ne in
    (
      record n { channels = m },
      single_result results cs,
      rw done,
      record {
        channels_ne =
            λ k. ground (arith, at k, t.channels_ne k, squash-ne_nil id (get n.channels k));
        users_ne = t.users_ne;
        users_distinct = t.users_distinct;
      },
    )

-- The users' part of a removal.
pub remove_id-users :
    (id user : Text) (m : Map (List Text))
    → NonEmpty m
    → EachDistinct m
    → (m' : Map (List Text)) × (remove_id id m user ≡ some m') × NonEmpty m' × EachDistinct m'
remove_id-users id user m ne d =
    let (m', done, at) = remove_id_lem id m user (ne user) in
    (m', done, remove_id-NonEmpty id m m' user ne at, remove_id-EachDistinct id m m' user d at)

pub remove_user-IsTidy :
    (h : Heap) (ws : Ref) (n : Namespace) → IsTidy n → Safe (remove_user h ws n)
unfolding remove_user
remove_user-IsTidy h ws n t =
    let (m', done, ne, d) =
      remove_id-users (h ws).id (h ws).user_id n.users t.users_ne t.users_distinct in
    elim (Bool-cases (is_nil (h ws).user_id)) [
      | inl e ↦ (n, rw e, t)
      | inr e ↦ (
        record n { users = m' },
        rw (e, done),
        record { channels_ne = t.channels_ne; users_ne = ne; users_distinct = d },
      )
    ]

pub remove_socket-IsTidy :
    (h : Heap) (id : Text) (n : Namespace) → IsTidy n → Safe (remove_socket h id n)
unfolding remove_socket
remove_socket-IsTidy h id n t = elim (Option-cases (get n.sockets id)) [
  | inl e ↦ (n, rw (e, remove_socket), t)
  | inr (ws, e) ↦
      let (m, gone, at) = remove_id_each-keys id n.channels t.channels_ne in
      let (m', done, ne, d) =
        remove_id-users id (h ws).user_id n.users t.users_ne t.users_distinct in
      (
        record {
          channels = m;
          sockets = del n.sockets id;
          users = if is_nil (h ws).user_id then n.users else m';
        },
        ground (arith, gone, done),
        record {
          channels_ne = λ k. ground (arith, at k, squash-ne_nil id (get n.channels k));
          users_ne = if_both (is_nil (h ws).user_id) NonEmpty t.users_ne ne;
          users_distinct = if_both (is_nil (h ws).user_id) EachDistinct t.users_distinct d;
        },
      )
]

ids_or_empty-Distinct :
    (m : Map (List Text)) (k : Text) → EachDistinct m → Distinct (ids_or_empty (get m k))
ids_or_empty-Distinct m k d = elim (Option-cases (get m k)) [
  | inl e ↦ rw e tt
  | inr (ids, e) ↦ rw e (d k ids e)
]

-- the user's new slice
with_id-Distinct :
    (ids : List Text) (id : Text)
    → Distinct ids
    → Distinct (if contains ids id then ids else ids ++ id ∷ [])
with_id-Distinct ids id d = elim (Bool-cases (contains ids id)) [
  | inl e ↦ rw e d
  | inr e ↦ rw e (append-Distinct ids id d e)
]

with_id-ne_nil :
    (ids : List Text) (id : Text) → (if contains ids id then ids else ids ++ id ∷ []) ≢ []
unfolding contains
with_id-ne_nil [] id h = cc
with_id-ne_nil (x ∷ xs) id h = ground (arith, append-ne_nil xs id)

pub add_user-IsTidy : (h : Heap) (ws : Ref) (n : Namespace) → IsTidy n → IsTidy (add_user h ws n)
unfolding add_user
add_user-IsTidy h ws n t =
    let user = (h ws).user_id in
    let ids = ids_or_empty (get n.users user) in
    let id = (h ws).id in
    let after = if contains ids id then ids else ids ++ id ∷ [] in
    if_both (is_nil user) IsTidy t (record {
      channels_ne = t.channels_ne;
      users_ne =
          λ k e. ground (arith, get-put n.users user after k, with_id-ne_nil ids id, t.users_ne k);
      users_distinct = λ k xs e. elim (Bool-cases (user == k)) [
        | inl same ↦
            let p : after ≡ xs = ground (arith, get-put n.users user after k) in
            subst Distinct p
              (with_id-Distinct ids id (ids_or_empty-Distinct n.users user t.users_distinct))
        | inr other ↦ t.users_distinct k xs (ground (arith, get-put n.users user after k))
      ];
    })

-- CompactMaps keeps the entry of a key unless that is the empty slice.
pub get-drop_empty :
    (m : Map (List Text)) (k : Text) → get m k ≢ some [] → get (drop_empty m) k ≡ get m k
unfolding get drop_empty
get-drop_empty [] k h = refl
get-drop_empty ((j, []) ∷ m) k h = ground (arith, get-drop_empty m k)
get-drop_empty ((j, x ∷ xs) ∷ m) k h = ground (arith, get-drop_empty m k)

pub compact_maps-IsTidy : (n : Namespace) → IsTidy n → IsTidy (compact_maps n)
unfolding compact_maps
compact_maps-IsTidy n t = record {
  channels_ne = λ k. rw (get-drop_empty n.channels k (t.channels_ne k)) (t.channels_ne k);
  users_ne = λ k. rw (get-drop_empty n.users k (t.users_ne k)) (t.users_ne k);
  users_distinct = λ k ids. rw (get-drop_empty n.users k (t.users_ne k)) (t.users_distinct k ids);
}
