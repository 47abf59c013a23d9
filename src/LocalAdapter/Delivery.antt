-- ===== src/LocalAdapter/Delivery.antt =====
-- Whom LocalAdapter.Send of internal/adaptersLocal.go reaches.
use pusher.Prelude.{
  ◌≡◌, refl, Bool, true, false, ◌&&◌, ◌||◌, not, ◌⊎◌, inl, inr, ◌↔◌, Option, none, some, List, [],
  ◌∷◌, ◌++◌, arith, is_nil, Text, ◌==◌, eq_iff, eq_refl, Map, get, keys, contains, contains-keys,
  Distinct, Occurs, has_prefix, has_prefix-append, trim_prefix-append, Option-cases, Bool-cases,
}
use pusher.ChannelName.{server_to_user_prefix}
use pusher.Socket.{Ref}
use pusher.Namespace
use pusher.Namespace.{Namespace, live_sockets, ids_or_empty}
use pusher.Namespace.Removal.{holds}
use pusher.Namespace.Views.{channel_sockets-Distinct, channel_sockets_lem}
use pusher.LocalAdapter.{Adapter, namespace, targets, send, user_sockets}

-- the socket with this id is left out
abbrev excluded : Text → Text → Bool
excluded except id = not (is_nil except) && id == except

-- A connection of the map under an id that is not excluded.
pub record Reached (except : Text) (found : Map Ref) (ws : Ref) : Type 0 where
  pub id : Text
  pub entry : get found id ≡ some ws
  pub kept : (not (is_nil except) && id == except) ≡ false

targets_sound :
    (except : Text) (found : Map Ref) (ws : Ref)
    → Distinct (keys found)
    → Occurs ws (targets except found)
    → Reached except found ws
unfolding targets keys get
targets_sound except [] ws d o = elim o [ ]
targets_sound except ((i, w) ∷ rest) ws d o =
    elim (Bool-cases (not (is_nil except) && i == except)) [
      | inl out ↦ later (targets_sound except rest ws d.1 (rw out at o))
      | inr stays ↦ first stays (targets_sound except rest ws d.1) (rw stays at o)
    ]
  where
    later : Reached except rest ws → Reached except ((i, w) ∷ rest) ws
    later r = record {
      id = r.id;
      entry = ground (arith, eq_iff i r.id, contains-keys rest i, r.entry, d.0);
      kept = r.kept;
    }

    first :
        (not (is_nil except) && i == except) ≡ false
        → (Occurs ws (targets except rest) → Reached except rest ws)
        → (w ≡ ws) ⊎ Occurs ws (targets except rest)
        → Reached except ((i, w) ∷ rest) ws
    first stays ih (inl e) = record { id = i; entry = ground (arith, eq_refl i, e); kept = stays }
    first stays ih (inr q) = later (ih q)

targets_complete :
    (except : Text) (found : Map Ref) (ws : Ref)
    → Reached except found ws
    → Occurs ws (targets except found)
unfolding targets get
targets_complete except [] ws r = cc (r.entry)
targets_complete except ((i, w) ∷ rest) ws r = elim (Bool-cases (i == r.id)) [
  | inl same ↦
      let stays : (not (is_nil except) && i == except) ≡ false =
        ground (arith, eq_iff i r.id, r.kept) in
      rw stays (inl (ground (arith, r.entry)))
  | inr other ↦
      let q =
        targets_complete except rest ws
          (record { id = r.id; entry = ground (arith, r.entry); kept = r.kept }) in
      elim (Bool-cases (not (is_nil except) && i == except)) [
        | inl out ↦ rw out q
        | inr stays ↦ rw stays (inr q)
      ]
]

-- Send to an ordinary channel of an app that has a namespace succeeds and reaches exactly the sockets
-- that are in the channel and connected, without the one whose id is excluded; the
-- empty id excludes none.
pub send_reaches :
    (l : Adapter) (app c except : Text) (n : Namespace) (ws : Ref)
    → namespace l app ≡ some n
    → has_prefix c server_to_user_prefix ≡ false
    → (found : List Ref) × (send l app c except ≡ some found)
      × (Occurs ws found ↔ (
          (id : Text) × (Namespace.is_in_channel n id c ≡ true)
          × (get n.sockets id ≡ some ws)
          × ((not (is_nil except) && id == except) ≡ false)))
unfolding send
send_reaches l app c except n ws e p =
    let found = Namespace.channel_sockets n c in
    (
      targets except found,
      ground (arith, e, p),
      (
        λ o.
            let r = targets_sound except found ws (channel_sockets-Distinct n c) o in
            (
              r.id,
              ground (arith, channel_sockets_lem n c r.id, r.entry),
              ground (arith, channel_sockets_lem n c r.id, r.entry),
              r.kept,
            ),
        λ q.
            targets_complete except found ws (record {
              id = q.0;
              entry = ground (arith, channel_sockets_lem n c q.0);
              kept = q.3;
            }),
      ),
    )

-- the sockets of GetUserSockets
live_sound :
    (sockets : Map Ref) (ids : List Text) (ws : Ref)
    → Occurs ws (live_sockets sockets ids)
    → (id : Text) × (contains ids id ≡ true) × (get sockets id ≡ some ws)
unfolding live_sockets contains
live_sound sockets [] ws o = elim o [ ]
live_sound sockets (i ∷ ids) ws o = elim (Option-cases (get sockets i)) [
  | inl e ↦ later (live_sound sockets ids ws (rw (e, Occurs) at o))
  | inr (w, e) ↦ first w e (live_sound sockets ids ws) (rw (e, Occurs) at o)
]
  where
    Goal : Type 0
    Goal = (id : Text) × ((i == id || contains ids id) ≡ true) × (get sockets id ≡ some ws)

    later : ((id : Text) × (contains ids id ≡ true) × (get sockets id ≡ some ws)) → Goal
    later r = (r.0, ground arith, r.2)

    first :
        (w : Ref)
        → get sockets i ≡ some w
        → (Occurs ws (live_sockets sockets ids)
            → (id : Text) × (contains ids id ≡ true) × (get sockets id ≡ some ws))
        → (w ≡ ws) ⊎ Occurs ws (live_sockets sockets ids)
        → Goal
    first w e ih (inl p) = (i, ground (arith, eq_refl i), ground (arith, e, p))
    first w e ih (inr q) = later (ih q)

live_complete :
    (sockets : Map Ref) (ids : List Text) (ws : Ref) (id : Text)
    → contains ids id ≡ true
    → get sockets id ≡ some ws
    → Occurs ws (live_sockets sockets ids)
unfolding live_sockets contains
live_complete sockets [] ws id p e = cc
live_complete sockets (i ∷ ids) ws id p e = elim (Bool-cases (i == id)) [
  | inl same ↦
      let f : get sockets i ≡ some ws = ground (arith, eq_iff i id, e) in rw (f, Occurs) (inl refl)
  | inr other ↦
      let q = live_complete sockets ids ws id (ground arith) e in
      elim (Option-cases (get sockets i)) [
        | inl f ↦ rw (f, Occurs) q
        | inr (w, f) ↦ rw (f, Occurs) (inr q)
      ]
]

user_ids-holds : (o : Option (List Text)) (id : Text) → contains (ids_or_empty o) id ≡ holds o id
unfolding contains
user_ids-holds none id = refl
user_ids-holds (some ids) id = refl

-- Send to the dedicated channel of a user reaches exactly the connected sockets that the user's list
-- names, whatever is excluded.
pub send_to_user :
    (l : Adapter) (app u except : Text) (n : Namespace) (ws : Ref)
    → namespace l app ≡ some n
    → (found : List Ref) × (send l app (server_to_user_prefix ++ u) except ≡ some found)
      × (Occurs ws found
          ↔ ((id : Text) × (holds (get n.users u) id ≡ true) × (get n.sockets id ≡ some ws)))
unfolding send user_sockets
send_to_user l app u except n ws e =
    let ids = ids_or_empty (get n.users u) in
    (
      Namespace.user_sockets n u,
      ground (
        arith,
        e,
        has_prefix-append server_to_user_prefix u,
        trim_prefix-append server_to_user_prefix u,
      ),
      unfold Namespace.user_sockets in
          (
            λ o.
                let r = live_sound n.sockets ids ws o in
                (r.0, ground (arith, user_ids-holds (get n.users u) r.0, r.1), r.2),
            λ q.
                live_complete n.sockets ids ws q.0
                  (ground (arith, user_ids-holds (get n.users u) q.0)) q.2,
          ),
    )
