-- ===== src/Api/Channels.antt =====
-- internal/apiChannels.go: what the HTTP API tells of channels and users.
use pusher.Prelude.{
  ℕ, Bool, false, ◌&&◌, not, Option, none, some, List, [], ◌∷◌, if◌then◌else◌, eqb, ltb, is_nil,
  contains, Text, codes, ◌==◌, has_prefix, Map, keys,
}
use pusher.App.{App}
use pusher.Api.Events.{Status, ok, bad_request, internal_error}
use pusher.Cache
use pusher.ChannelName.{is_presence_channel, is_cache_channel}
use pusher.LocalAdapter
use pusher.Session.Leaving.{terminate_user_connections}
use pusher.Session.World.{World}

-- strings.FieldsFunc(info, splitFn): the parts between commas that are not empty
abbrev pub into_first : ℕ → List Text → List Text
into_first c [] = (c ∷ []) ∷ []
into_first c (f ∷ fs) = (c ∷ f) ∷ fs

unfoldable pub parts : Text → List Text
parts [] = [] ∷ []
parts (c ∷ s) = let rest = parts s in if eqb c b',' then [] ∷ rest else into_first c rest

unfoldable pub drop_blank : List Text → List Text
drop_blank [] = []
drop_blank (f ∷ fs) = let rest = drop_blank fs in if is_nil f then rest else f ∷ rest

unfoldable pub info_fields : Text → List Text
info_fields info = drop_blank (parts info)

-- the loop of ChannelIndex: each channel that has the prefix, with its count if that is asked for
unfoldable pub listed : Text → Bool → Map ℕ → Map ℕ
listed prefix with_count [] = []
listed prefix with_count ((name, count) ∷ rest) =
    let more = listed prefix with_count rest in
    if not (is_nil prefix) && not (has_prefix name prefix)
    then more
    else (name, if with_count then count else 0) ∷ more

pub data Index : Type 0 where
  index : Map ℕ → Index
  refused : Status → Index

-- ChannelIndex
unfoldable pub channel_index : Option App → Text → Text → World → Index
channel_index none prefix info s = refused internal_error
channel_index (some app) prefix info s =
    let user_count = contains (info_fields info) (codes "user_count") in
    if not (prefix == codes "presence-") && user_count
    then refused bad_request
    else if prefix == codes "presence-" && user_count
    then index (
        listed prefix user_count
          (LocalAdapter.presence_channels_with_users_count s.heap s.adapter app.id))
    else index
        (listed prefix user_count (LocalAdapter.channels_with_sockets_count s.adapter app.id))

-- the data of ChannelShow
pub record Shown : Type 0 where
  pub name : Text
  pub occupied : Bool
  pub user_count : ℕ
  pub subscription_count : ℕ
  pub cache : Text

-- data.Cache
abbrev pub or_blank : Option Text → Text
or_blank none = []
or_blank (some t) = t

unfoldable pub show : App → Text → Text → World → Shown
show app channel info s =
    let fields = info_fields info in
    let blank : Shown = record {
      name = channel;
      occupied = false;
      user_count = 0;
      subscription_count = 0;
      cache = [];
    } in
    let users = LocalAdapter.channel_members_count s.heap s.adapter app.id channel in
    let with_users =
      if contains fields (codes "user_count") && is_presence_channel channel
      then record blank { user_count = users; occupied = ltb 0 users }
      else blank in
    let subscriptions = LocalAdapter.channel_sockets_count s.adapter app.id channel in
    let with_subscriptions =
      if contains fields (codes "subscription_count")
      then record with_users { subscription_count = subscriptions; occupied = ltb 0 subscriptions }
      else with_users in
    if contains fields (codes "cache") && is_cache_channel channel
    then record with_subscriptions {
      cache = or_blank (Cache.lookup s.now s.cache (Cache.channel_cache_key app.id channel));
    }
    else with_subscriptions

-- ChannelShow, `none` for the status 500
unfoldable pub channel_show : Option App → Text → Text → World → Option Shown
channel_show none channel info s = none
channel_show (some app) channel info s = some (show app channel info s)

pub data Users : Type 0 where
  users : List Text → Users
  no_users : Status → Users

-- ChannelUsers
unfoldable pub channel_users : Option App → Text → World → Users
channel_users none channel s = no_users internal_error
channel_users (some app) channel s =
    if is_nil channel
    then no_users bad_request
    else if is_presence_channel channel
    then users (keys (LocalAdapter.channel_members s.heap s.adapter app.id channel))
    else no_users bad_request

-- TerminateUserConnections; `none` is a panic
unfoldable pub terminate : Option App → Text → World → Option (World × Status)
terminate none user s = some (s, internal_error)
terminate (some app) user s =
    if is_nil user
    then some (s, bad_request)
    else elim (terminate_user_connections app.id user s) [ none ↦ none | some s' ↦ some (s', ok) ]
