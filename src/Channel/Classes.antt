-- ===== src/Channel/Classes.antt =====
-- The class of a channel name: CreateChannelFromString against the predicates of
-- internal/util/utils.go.
use pusher.Prelude.{
  ◌≡◌, refl, ◌↔◌, true, false, ◌||◌, arith, Text, codes, has_prefix, has_prefix-shorter,
}
use pusher.App.{App}
use pusher.Channel.{create_channel, public}
use pusher.ChannelName.{
  is_presence_channel, is_private_channel, is_private_encrypted_channel, is_cache_channel,
  presence_prefix, private_prefix, encrypted_prefix, presence_cache_prefix, encrypted_cache_prefix,
  private_cache_prefix, cache_prefix, server_to_user_prefix,
}
use pusher.ChannelName.Prefixes.{has_prefix-conflict}

-- What a name has by one of the prefixes it has by the shorter, and what it then cannot have.
record Prefixes (n : Text) : Type 0 where
  pc : has_prefix n presence_cache_prefix ≡ true → has_prefix n presence_prefix ≡ true
  ec : has_prefix n encrypted_cache_prefix ≡ true → has_prefix n encrypted_prefix ≡ true
  ep : has_prefix n encrypted_prefix ≡ true → has_prefix n private_prefix ≡ true
  vc : has_prefix n private_cache_prefix ≡ true → has_prefix n private_prefix ≡ true
  pv : has_prefix n presence_prefix ≡ true → has_prefix n private_prefix ≡ false
  cp : has_prefix n cache_prefix ≡ true → has_prefix n presence_prefix ≡ false
  cv : has_prefix n cache_prefix ≡ true → has_prefix n private_prefix ≡ false
  ce : has_prefix n private_cache_prefix ≡ true → has_prefix n encrypted_prefix ≡ false
  us : has_prefix n server_to_user_prefix ≡ true → has_prefix n cache_prefix ≡ false
  up : has_prefix n server_to_user_prefix ≡ true → has_prefix n presence_prefix ≡ false

prefixes : (n : Text) → Prefixes n
prefixes n = record {
  pc = has_prefix-shorter n presence_prefix (codes "cache-");
  ec = has_prefix-shorter n encrypted_prefix (codes "cache-");
  ep = has_prefix-shorter n private_prefix (codes "encrypted-");
  vc = has_prefix-shorter n private_prefix (codes "cache-");
  pv = has_prefix-conflict n presence_prefix private_prefix refl;
  cp = has_prefix-conflict n cache_prefix presence_prefix refl;
  cv = has_prefix-conflict n cache_prefix private_prefix refl;
  ce = has_prefix-conflict n private_cache_prefix encrypted_prefix refl;
  us = has_prefix-conflict n server_to_user_prefix cache_prefix refl;
  up = has_prefix-conflict n server_to_user_prefix presence_prefix refl;
}

-- The channel's cache flag, set class by class in CreateChannelFromString, is IsCacheChannel of its
-- name; the flag decides what a new subscriber gets, the predicate what the HTTP API stores.
pub is_cache-is_cache_channel :
    (a : App) (n : Text) → (create_channel a n).is_cache ≡ is_cache_channel n
unfolding create_channel is_cache_channel is_presence_channel is_private_channel
    is_private_encrypted_channel
is_cache-is_cache_channel a n = let p = prefixes n in ground arith

-- A channel requires authorization exactly if it is not public, which is exactly if its name has one
-- of the prefixes `presence-`, `private-` and `#server-to-user-`; it is encrypted exactly if its name
-- starts with `private-encrypted-`.
pub create_channel_classes :
    (a : App) (n : Text)
    → (((create_channel a n).requires_auth ≡ false) ↔ ((create_channel a n).kind ≡ public))
      × ((create_channel a n).requires_auth ≡ (
          has_prefix n presence_prefix
          || has_prefix n private_prefix
          || has_prefix n server_to_user_prefix))
      × ((create_channel a n).is_encrypted ≡ has_prefix n encrypted_prefix)
unfolding create_channel is_presence_channel is_private_channel is_private_encrypted_channel
create_channel_classes a n =
    let p = prefixes n in ((λ h. ground arith, λ h. ground arith), ground arith, ground arith)
