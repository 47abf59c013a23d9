-- ===== src/Namespace/Membership.antt =====
-- AddToChannel and RemoveFromChannel of internal/namespace.go: who is in which channel afterwards,
-- and what the calls return.
use pusher.Prelude.{
  ℕ, ◌+◌, ◌≡◌, ◌≢◌, refl, false, ◌&&◌, ◌||◌, inl, inr, Option, none, some, List, [], ◌∷◌, ◌++◌,
  if◌then◌else◌, arith, length, length-append, Text, ◌==◌, eq_iff, eq_refl, get, put, get-put,
  contains, contains-append, append-nil, without, without-append, without_absent, Option-cases,
}
use pusher.Socket.{Heap, Ref}
use pusher.Namespace.{
  Namespace, is_in_channel, add_to_channel, remove_from_channel, remove_each, remaining,
  single_result, ids_or_empty,
}
use pusher.Namespace.Removal.{squash, holds, holds-squash, remove_id_lem}
use pusher.Namespace.Tidy.{IsTidy, remove_each_lem, add_to_channel-IsTidy}

pub is_in_channel-holds :
    (n : Namespace) (j c : Text) → is_in_channel n j c ≡ holds (get n.channels c) j
unfolding is_in_channel
is_in_channel-holds n j c = ground arith

-- Joining puts the socket in that channel and changes no other membership; the result is one more
-- than the channel's slice held before.
pub add_to_channel_lem :
    (h : Heap) (ws : Ref) (c : Text) (n : Namespace) (j d : Text)
    → (is_in_channel (add_to_channel h ws c n).0 j d
        ≡ (c == d && (h ws).id == j || is_in_channel n j d))
      × ((add_to_channel h ws c n).1 ≡ length (ids_or_empty (get n.channels c)) + 1)
unfolding add_to_channel is_in_channel contains
add_to_channel_lem h ws c n j d =
    let ids = ids_or_empty (get n.channels c) in
    (
      ground (
        arith,
        get-put n.channels c (ids ++ (h ws).id ∷ []) d,
        eq_iff c d,
        contains-append ids ((h ws).id ∷ []) j,
      ),
      omega (arith, length-append ids ((h ws).id ∷ [])),
    )

-- Leaving any list of channels of a tidy namespace succeeds, takes the socket out of exactly those
-- channels and changes no other membership.
pub remove_from_channel_lem :
    (id : Text) (cs : List Text) (n : Namespace)
    → IsTidy n
    → (n' : Namespace) × (r : ℕ) × (remove_from_channel id cs n ≡ some (n', r))
      × ((j d : Text)
          → is_in_channel n' j d
            ≡ (if contains cs d && id == j then false else is_in_channel n j d))
unfolding remove_from_channel
remove_from_channel_lem id cs n t =
    let (m, results, done, at) = remove_each_lem id n.channels [] cs t.channels_ne in
    let n' = record n { channels = m } in
    (
      n',
      single_result results cs,
      rw done,
      λ j d. ground (
        arith,
        at d,
        is_in_channel-holds n' j d,
        is_in_channel-holds n j d,
        holds-squash id (get n.channels d) j,
      ),
    )

remaining-squash :
    (id : Text) (o : Option (List Text)) → remaining id o ≡ length (ids_or_empty (squash id o))
unfolding remaining squash
remaining-squash id none = refl
remaining-squash id (some ids) = ground arith

-- Leaving one channel of a tidy namespace returns how many entries its slice still has, 0 if it is
-- gone, and changes no other channel's slice.
pub remove_from_channel_single :
    (id c : Text) (n : Namespace)
    → IsTidy n
    → (n' : Namespace) × (r : ℕ) × (remove_from_channel id (c ∷ []) n ≡ some (n', r))
      × (r ≡ length (ids_or_empty (get n'.channels c)))
      × ((d : Text)
          → get n'.channels d ≡ (if c == d then squash id (get n.channels c) else get n.channels d))
unfolding remove_from_channel remove_each single_result get put remaining
remove_from_channel_single id c n t =
    let (m, done, at) = remove_id_lem id n.channels c (t.channels_ne c) in
    (
      record n { channels = m },
      remaining id (get n.channels c),
      ground (arith, done, eq_refl c),
      ground (arith, at c, eq_refl c, remaining-squash id (get n.channels c)),
      at,
    )

squash-append :
    (id : Text) (o : Option (List Text))
    → holds o id ≡ false
    → o ≢ some []
    → squash id (some (ids_or_empty o ++ id ∷ [])) ≡ o
unfolding squash without
squash-append id none h ne = ground (arith, eq_refl id)
squash-append id (some []) h ne = absurd (ne refl)
squash-append id (some (x ∷ xs)) h ne = ground (
  arith,
  without-append id (x ∷ xs) (id ∷ []),
  without_absent id (x ∷ xs),
  eq_refl id,
  append-nil (x ∷ xs),
)

-- A socket that joins a channel of a tidy namespace and leaves it again, having not been in it
-- before, leaves every channel with the slice that it had: also a channel that did not exist.
pub join_then_leave :
    (h : Heap) (ws : Ref) (c : Text) (n : Namespace)
    → IsTidy n
    → is_in_channel n (h ws).id c ≡ false
    → (n' : Namespace) × (r : ℕ) × (remove_from_channel
          (h ws).id
          (c ∷ [])
          (add_to_channel h ws c n).0
        ≡ some (n', r))
      × ((d : Text) → get n'.channels d ≡ get n.channels d)
join_then_leave h ws c n t out =
    let id = (h ws).id in
    let n1 = (add_to_channel h ws c n).0 in
    let o = get n.channels c in
    let (n', r, done, count, at) =
      remove_from_channel_single id c n1 (add_to_channel-IsTidy h ws c n t) in
    (
      n',
      r,
      done,
      λ d.
          unfold add_to_channel in
          ground (
            arith,
            at d,
            eq_iff c d,
            get-put n.channels c (ids_or_empty o ++ id ∷ []) d,
            get-put n.channels c (ids_or_empty o ++ id ∷ []) c,
            eq_refl c,
            squash-append id o (rw is_in_channel-holds at out) (t.channels_ne c),
          ),
    )

-- Leaving channels disconnects nobody.
pub sockets-remove_from_channel :
    (id : Text) (cs : List Text) (n n' : Namespace) (r : ℕ)
    → remove_from_channel id cs n ≡ some (n', r)
    → n'.sockets ≡ n.sockets
unfolding remove_from_channel
sockets-remove_from_channel id cs n n' r e = elim (Option-cases (remove_each id n.channels [] cs)) [
  | inl f ↦ absurd (ground arith)
  | inr ((m, results), f) ↦ ground arith
]
