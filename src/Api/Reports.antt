-- ===== src/Api/Reports.antt =====
-- What internal/apiChannels.go tells, against what the adapter and the cache hold.
use pusher.Prelude.{
  ℕ, suc, ◌≡◌, refl, sym, ap, ◌∙◌, Bool, true, false, ◌&&◌, ◌||◌, Option, none, some, List, [], ◌∷◌,
  arith, if◌then◌else◌, is_nil, is_some, length, Text, codes, ◌==◌, eq_iff, eq_refl, has_prefix,
  has_prefix-shorter, contains, Map, get, keys, Option-cases, Bool-cases, inl, inr,
}
use pusher.App.{App}
use pusher.Api.Channels.{
  listed, index, channel_index, info_fields, Shown, channel_show, show, users, channel_users,
}
use pusher.ChannelName.{is_presence_channel, is_cache_channel, presence_prefix}
use pusher.LocalAdapter
use pusher.LocalAdapter.{namespace}
use pusher.Namespace
use pusher.Namespace.{or_zero}
use pusher.Namespace.{Namespace, collect_members}
use pusher.Socket.{Heap}
use pusher.Namespace.Views.{counts_lem}
use pusher.Session.World.{World}

abbrev zero_of : Option ℕ → Option ℕ
zero_of none = none
zero_of (some n) = some 0

get-listed :
    (prefix : Text) (w : Bool) (m : Map ℕ) (c : Text)
    → get (listed prefix w m) c ≡ (
        if is_nil prefix || has_prefix c prefix
        then (if w then get m c else zero_of (get m c))
        else none)
unfolding listed get
get-listed prefix w [] c = ground arith
get-listed prefix w ((k, n) ∷ m) c = elim (Bool-cases (k == c)) [
  | inl y ↦
      let is = ap (λ x. has_prefix x prefix) ((eq_iff k c).0 y) in
      ground (arith, y, is, get-listed prefix w m c)
  | inr n ↦ ground (arith, n, get-listed prefix w m c)
]

-- the users of a channel as ChannelUsers lists them
length-keys {ℓ} : {A : Type ℓ} (m : Map A) → length (keys m) ≡ length m
unfolding keys
length-keys [] = refl
length-keys ((k, a) ∷ m) = ap suc (length-keys m)

-- For an app that the node has, and without user counts, ChannelIndex lists exactly the channels whose
-- name has the prefix; each of them stands without a count.
pub channel_index_lem :
    (app : App) (prefix info c : Text) (s : World) (n : Namespace)
    → namespace s.adapter app.id ≡ some n
    → contains (info_fields info) (codes "user_count") ≡ false
    → (m : Map ℕ) × (channel_index (some app) prefix info s ≡ index m)
      × (get m c ≡ (
          if (is_nil prefix || has_prefix c prefix) && is_some (get n.channels c)
          then some 0
          else none))
unfolding channel_index LocalAdapter.channels_with_sockets_count
channel_index_lem app prefix info c s n has no_ = (
  listed prefix false (LocalAdapter.channels_with_sockets_count s.adapter app.id),
  ground (arith, no_),
  rw
      (
        LocalAdapter.channels_with_sockets_count,
        has,
        get-listed prefix false (Namespace.channels_with_sockets_count n) c,
        (counts_lem s.heap n c).0,
      )
      (elim (Option-cases (get n.channels c)) [
        | inl e ↦ ground (arith, e)
        | inr (x, e) ↦ ground (arith, e)
      ]),
)

-- a channel that the namespace does not have has no members
sockets_nowhere :
    (n : Namespace) (c : Text) → get n.channels c ≡ none → Namespace.channel_sockets n c ≡ []
unfolding Namespace.channel_sockets
sockets_nowhere n c e = rw (e, Namespace.channel_sockets) refl

members_nowhere :
    (h : Heap) (n : Namespace) (c : Text)
    → get n.channels c ≡ none
    → length (Namespace.channel_members h n c) ≡ 0
unfolding Namespace.channel_members collect_members
members_nowhere h n c e = ap (λ x. length (collect_members h c [] x)) (sockets_nowhere n c e)

-- the users that a presence channel has
counted :
    (app : App) (c : Text) (s : World)
    → is_presence_channel c ≡ true
    → or_zero (get (LocalAdapter.presence_channels_with_users_count s.heap s.adapter app.id) c)
      ≡ length (LocalAdapter.channel_members s.heap s.adapter app.id c)
unfolding LocalAdapter.presence_channels_with_users_count LocalAdapter.channel_members
counted app c s p = elim (Option-cases (namespace s.adapter app.id)) [
  | inl e ↦
      rw (e, LocalAdapter.presence_channels_with_users_count, LocalAdapter.channel_members)
        (unfold get in refl)
  | inr (n, e) ↦
      let count = ap or_zero (counts_lem s.heap n c).1 in
      rw (e, LocalAdapter.presence_channels_with_users_count, LocalAdapter.channel_members)
        (count ∙ elim (Option-cases (get n.channels c)) [
          | inl f ↦ rw (p, f) (sym (members_nowhere s.heap n c f))
          | inr (x, f) ↦ rw (p, f) refl
        ])
]

-- presence channels have the prefix
presence_prefixed : (c : Text) → is_presence_channel c ≡ true → has_prefix c presence_prefix ≡ true
unfolding is_presence_channel
presence_prefixed c p = ground (arith, p, has_prefix-shorter c presence_prefix (codes "cache-"))

presence_named : (c : Text) → is_presence_channel c ≡ true → is_nil c ≡ false
unfolding is_presence_channel has_prefix
presence_named [] p = cc p
presence_named (b ∷ c) p = refl

-- ChannelShow's number of users
user_count-show :
    (app : App) (c info : Text) (s : World)
    → contains (info_fields info) (codes "user_count") ≡ true
    → is_presence_channel c ≡ true
    → (show app c info s).user_count ≡ LocalAdapter.channel_members_count s.heap s.adapter app.id c
unfolding show
user_count-show app c info s asked p =
    let subscriptions = contains (info_fields info) (codes "subscription_count") in
    let cached_ = contains (info_fields info) (codes "cache") && is_cache_channel c in
    elim (Bool-cases subscriptions) [
      | inl y ↦ elim (Bool-cases cached_) [
        | inl z ↦ rw (show, z, y, asked, p) refl
        | inr z ↦ rw (show, z, y, asked, p) refl
      ]
      | inr n ↦ elim (Bool-cases cached_) [
        | inl z ↦ rw (show, z, n, asked, p) refl
        | inr z ↦ rw (show, z, n, asked, p) refl
      ]
    ]

-- With the local adapter, that is on a server without Redis, the numbers of users in a presence
-- channel agree: what ChannelIndex and ChannelShow give when they are asked for user counts is the
-- number of users that ChannelUsers lists, and 0 for a channel that ChannelIndex does not list. With the
-- horizontal adapter they need not, since counts of several nodes are added there.
pub user_counts_agree :
    (app : App) (info c : Text) (s : World)
    → contains (info_fields info) (codes "user_count") ≡ true
    → is_presence_channel c ≡ true
    → (ids : List Text) × (m : Map ℕ) × (shown : Shown) × (channel_users (some app) c s ≡ users ids)
      × (channel_index (some app) (codes "presence-") info s ≡ index m)
      × (channel_show (some app) c info s ≡ some shown)
      × (or_zero (get m c) ≡ length ids)
      × (shown.user_count ≡ length ids)
unfolding channel_index channel_users channel_show show
user_counts_agree app info c s asked p =
    let ms = LocalAdapter.channel_members s.heap s.adapter app.id c in
    let counts = LocalAdapter.presence_channels_with_users_count s.heap s.adapter app.id in
    (
      keys ms,
      listed (codes "presence-") true counts,
      show app c info s,
      rw (presence_named c p, p) refl,
      ground (arith, asked, eq_refl (codes "presence-")),
      refl,
      rw (get-listed (codes "presence-") true counts c, presence_prefixed c p)
          (counted app c s p ∙ sym (length-keys ms)),
      unfold LocalAdapter.channel_members_count in
          user_count-show app c info s asked p ∙ sym (length-keys ms),
    )
