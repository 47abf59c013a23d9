-- ===== src/Channel.antt =====
-- internal/channels.go: the channel descriptor and how its name determines it
-- (CreateChannelFromString). Join is in Session.Joining, Leave in Session.Leaving.
pub mod Classes
use pusher.Prelude.{Bool, true, false, if◌then◌else◌, Text, has_prefix}
use pusher.App.{App}
use pusher.ChannelName.{
  is_presence_channel, is_private_channel, is_private_encrypted_channel, presence_cache_prefix,
  encrypted_cache_prefix, private_cache_prefix, cache_prefix,
}

-- constants.ChannelType
pub data ChannelType : Type 0 where
  presence private private_encrypted public : ChannelType

-- Connections is made empty and never used.
pub record Channel : Type 0 where
  pub app : App
  pub name : Text
  pub kind : ChannelType
  pub requires_auth : Bool
  pub is_cache : Bool
  pub is_encrypted : Bool

unfoldable pub create_channel : App → Text → Channel
create_channel app name =
    let channel : Channel = record {
      app = app;
      name = name;
      kind = private;
      requires_auth = false;
      is_cache = false;
      is_encrypted = false;
    } in
    if is_presence_channel name
    then record channel {
      kind = presence;
      requires_auth = true;
      is_cache = has_prefix name presence_cache_prefix;
    }
    else if is_private_encrypted_channel name
    then record channel {
      kind = private_encrypted;
      requires_auth = true;
      is_encrypted = true;
      is_cache = has_prefix name encrypted_cache_prefix;
    }
    else if is_private_channel name
    then record channel {
      kind = private;
      requires_auth = true;
      is_cache = has_prefix name private_cache_prefix;
    }
    else record channel {
      kind = public;
      requires_auth = false;
      is_cache = has_prefix name cache_prefix;
    }
