-- ===== src/Namespace/Views.antt =====
-- What the read methods of internal/namespace.go return, in terms of the three maps.
use pusher.Prelude.{
  ℕ, ◌≡◌, refl, true, false, ◌&&◌, ◌⊎◌, inl, inr, ◌↔◌, Option, none, some, List, [], ◌∷◌,
  if◌then◌else◌, arith, is_some, length, Text, ◌==◌, eq_iff, eq_refl, Map, get, put, keys, get-put,
  contains, contains-keys, Distinct, put-Distinct, Option-cases, Bool-cases,
}
use pusher.ChannelName.{is_presence_channel}
use pusher.Socket.{Heap, Ref, MemberData, presence_data_for_channel}
use pusher.Namespace.{
  Namespace, channel_sockets, collect_sockets, channel_members, collect_members, is_in_channel,
  count_each, channels_with_sockets_count, count_members, presence_channels_with_users_count,
}

abbrev or_else {ℓ} : {A : Type ℓ} → Option A → Option A → Option A
or_else none b = b
or_else (some a) b = some a

collect_sockets_lem :
    (sockets found : Map Ref) (ids : List Text) (j : Text)
    → get (collect_sockets sockets found ids) j
      ≡ (if contains ids j then or_else (get sockets j) (get found j) else get found j)
unfolding collect_sockets contains
collect_sockets_lem sockets found [] j = refl
collect_sockets_lem sockets found (id ∷ ids) j = elim (Option-cases (get sockets id)) [
  | inl e ↦ ground (arith, eq_iff id j, collect_sockets_lem sockets found ids j)
  | inr (ws, e) ↦ ground (
    arith,
    eq_iff id j,
    collect_sockets_lem sockets (put found id ws) ids j,
    get-put found id ws j,
  )
]

-- GetChannelSockets has exactly the ids that the channel lists and that are connected, each with its
-- socket; an id that the channel lists twice is there once.
pub channel_sockets_lem :
    (n : Namespace) (c j : Text)
    → get (channel_sockets n c) j ≡ (if is_in_channel n j c then get n.sockets j else none)
unfolding channel_sockets is_in_channel get
channel_sockets_lem n c j = elim (Option-cases (get n.channels c)) [
  | inl e ↦ ground arith
  | inr (ids, e) ↦ ground (arith, collect_sockets_lem n.sockets [] ids j)
]

collect_sockets-Distinct :
    (sockets found : Map Ref) (ids : List Text)
    → Distinct (keys found)
    → Distinct (keys (collect_sockets sockets found ids))
unfolding collect_sockets
collect_sockets-Distinct sockets found [] d = d
collect_sockets-Distinct sockets found (id ∷ ids) d = elim (Option-cases (get sockets id)) [
  | inl e ↦ rw e (collect_sockets-Distinct sockets found ids d)
  | inr (ws, e) ↦
      rw e (collect_sockets-Distinct sockets (put found id ws) ids (put-Distinct found id ws d))
]

pub channel_sockets-Distinct : (n : Namespace) (c : Text) → Distinct (keys (channel_sockets n c))
unfolding channel_sockets keys
channel_sockets-Distinct n c = elim (Option-cases (get n.channels c)) [
  | inl e ↦ rw (e, channel_sockets) tt
  | inr (ids, e) ↦ rw (e, channel_sockets) (collect_sockets-Distinct n.sockets [] ids tt)
]

-- A connected socket with the id `id` that is in the channel with presence data of the user.
pub record Present (h : Heap) (c u : Text) (sockets : Map Ref) : Type 0 where
  pub id : Text
  pub ws : Ref
  pub member : MemberData
  pub connected : get sockets id ≡ some ws
  pub data_of : presence_data_for_channel (h ws) c ≡ some member
  pub user : member.user_id ≡ u

Present-cons :
    {h : Heap} {c u : Text} (i : Text) (w : Ref) (rest : Map Ref)
    → contains (keys rest) i ≡ false
    → Present h c u rest
    → Present h c u ((i, w) ∷ rest)
unfolding get
Present-cons i w rest ne p = record {
  id = p.id;
  ws = p.ws;
  member = p.member;
  connected = ground (arith, eq_iff i p.id, contains-keys rest i, p.connected);
  data_of = p.data_of;
  user = p.user;
}

collect_members_sound :
    (h : Heap) (c u : Text) (found : Map MemberData) (sockets : Map Ref)
    → Distinct (keys sockets)
    → is_some (get (collect_members h c found sockets) u) ≡ true
    → (is_some (get found u) ≡ true) ⊎ Present h c u sockets
unfolding collect_members keys
collect_members_sound h c u found [] d p = inl p
collect_members_sound h c u found ((i, w) ∷ rest) d p =
    elim (Option-cases (presence_data_for_channel (h w) c)) [
      | inl e ↦ later found (collect_members_sound h c u found rest d.1 (rw e at p)) (λ q. inl q)
      | inr (m, e) ↦
          later (put found m.user_id m)
            (collect_members_sound h c u (put found m.user_id m) rest d.1 (rw e at p))
            (λ q. here m e q)
    ]
  where
    Goal : Type 0
    Goal = (is_some (get found u) ≡ true) ⊎ Present h c u ((i, w) ∷ rest)

    later :
        (f : Map MemberData)
        → (is_some (get f u) ≡ true) ⊎ Present h c u rest
        → ((is_some (get f u) ≡ true) → Goal)
        → Goal
    later f (inl q) k = k q
    later f (inr q) k = inr (Present-cons i w rest d.0 q)

    here :
        (m : MemberData)
        → presence_data_for_channel (h w) c ≡ some m
        → is_some (get (put found m.user_id m) u) ≡ true
        → Goal
    here m e q = elim (Bool-cases (m.user_id == u)) [
      | inl same ↦ inr (record {
        id = i;
        ws = w;
        member = m;
        connected = unfold get in rw (eq_refl i);
        data_of = e;
        user = (eq_iff m.user_id u).0 same;
      })
      | inr other ↦ inl (ground (arith, get-put found m.user_id m u))
    ]

collect_members_keeps :
    (h : Heap) (c u : Text) (found : Map MemberData) (sockets : Map Ref)
    → is_some (get found u) ≡ true
    → is_some (get (collect_members h c found sockets) u) ≡ true
unfolding collect_members
collect_members_keeps h c u found [] p = p
collect_members_keeps h c u found ((i, w) ∷ rest) p =
    elim (Option-cases (presence_data_for_channel (h w) c)) [
      | inl e ↦ rw e (collect_members_keeps h c u found rest p)
      | inr (m, e) ↦ rw e (
          collect_members_keeps h c u (put found m.user_id m) rest
            (ground (arith, get-put found m.user_id m u)))
    ]

collect_members_complete :
    (h : Heap) (c u : Text) (found : Map MemberData) (sockets : Map Ref)
    → Present h c u sockets
    → is_some (get (collect_members h c found sockets) u) ≡ true
unfolding collect_members get
collect_members_complete h c u found [] p = cc (p.connected)
collect_members_complete h c u found ((i, w) ∷ rest) p = elim (Bool-cases (i == p.id)) [
  | inl same ↦
      let at : some w ≡ some p.ws = ground (arith, p.connected) in
      let e : presence_data_for_channel (h w) c ≡ some p.member = ground (arith, p.data_of, at) in
      rw e (
        collect_members_keeps h c u (put found p.member.user_id p.member) rest (
          ground
            (arith, get-put found p.member.user_id p.member u, eq_iff p.member.user_id u, p.user)))
  | inr other ↦
      let q : Present h c u rest = record {
        id = p.id;
        ws = p.ws;
        member = p.member;
        connected = ground (arith, p.connected);
        data_of = p.data_of;
        user = p.user;
      } in
      elim (Option-cases (presence_data_for_channel (h w) c)) [
        | inl e ↦ rw e (collect_members_complete h c u found rest q)
        | inr (m, e) ↦ rw e (collect_members_complete h c u (put found m.user_id m) rest q)
      ]
]

-- GetChannelMembers has a user exactly if some connected socket of the channel has presence data of
-- that user for the channel: a user with several sockets stays a member until the last one leaves.
pub channel_members_iff :
    (h : Heap) (n : Namespace) (c u : Text)
    → (is_some (get (channel_members h n c) u) ≡ true) ↔ Present h c u (channel_sockets n c)
unfolding channel_members get
channel_members_iff h n c u = (
  λ p.
      elim (collect_members_sound h c u [] (channel_sockets n c) (channel_sockets-Distinct n c) p) [
        | inl q ↦ cc q
        | inr q ↦ q
      ],
  λ q. collect_members_complete h c u [] (channel_sockets n c) q,
)

abbrev pub length_or {ℓ} : {A : Type ℓ} → Option (List A) → Option ℕ
length_or none = none
length_or (some xs) = some (length xs)

get-count_each : (m : Map (List Text)) (k : Text) → get (count_each m) k ≡ length_or (get m k)
unfolding count_each get
get-count_each [] k = refl
get-count_each ((j, ids) ∷ m) k =
    ground (arith, get-put (count_each m) j (length ids) k, get-count_each m k)

get-count_members :
    (h : Heap) (n : Namespace) (cs : List Text) (c : Text)
    → get (count_members h n cs) c ≡ (
        if contains cs c && is_presence_channel c
        then some (length (channel_members h n c))
        else none)
unfolding count_members contains get
get-count_members h n [] c = refl
get-count_members h n (d ∷ cs) c = ground (
  arith,
  get-put (count_members h n cs) d (length (channel_members h n d)) c,
  eq_iff d c,
  get-count_members h n cs c,
)

-- The counts for the metrics and the HTTP API: GetChannelsWithSocketsCount has each channel with the
-- length of its slice, GetPresenceChannelsWithUsersCount each presence channel with the number of its
-- members, and neither has any other channel.
pub counts_lem :
    (h : Heap) (n : Namespace) (c : Text)
    → (get (channels_with_sockets_count n) c ≡ length_or (get n.channels c))
      × (get (presence_channels_with_users_count h n) c ≡ (
          if is_some (get n.channels c) && is_presence_channel c
          then some (length (channel_members h n c))
          else none))
unfolding channels_with_sockets_count presence_channels_with_users_count
counts_lem h n c = (
  get-count_each n.channels c,
  ground (arith, get-count_members h n (keys n.channels) c, contains-keys n.channels c),
)
