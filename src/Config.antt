-- ===== src/Config.antt =====
-- internal/config/config.go: what InitializeServerConfig makes of what viper has read. Flags, environment
-- and files are viper's: the parameters are its getters, the decoded struct, and whether the Redis client
-- starts. The webhook's event types and the flat copies of the webhook settings are left out: nothing
-- reads them.

use pusher.Prelude.{
  Bool, true, ◌&&◌, ◌||◌, Option, none, some, List, [], ◌∷◌, if◌then◌else◌, is_nil, Text, codes,
  ◌==◌, ℤ, pos,
}
use pusher.App.{App, Webhook, set_missing_defaults}

-- RedisInstance is `none` where it is nil, and otherwise says whether its Client is set; Applications is
-- `none` where it is nil.
pub record ServerConfig : Type 0 where
  pub env : Text
  pub port : Text
  pub bind_address : Text
  pub app_manager : Text
  pub adapter_driver : Text
  pub queue_driver : Text
  pub channel_cache_driver : Text
  pub using_redis : Bool
  pub redis_instance : Option Bool
  pub redis_prefix : Text
  pub log_level : Text
  pub redis_url : Text
  pub redis_tls : Bool
  pub redis_cluster_mode : Bool
  pub ignore_logger_middleware : Bool
  pub metrics_enabled : Bool
  pub metrics_port : Text
  pub applications : Option (List App)

-- viper's getters
pub record Viper : Type 0 where
  pub get_string : Text → Text
  pub get_int : Text → ℤ
  pub get_bool : Text → Bool

-- the webhook of the single app, if an address is set
unfoldable pub single_webhooks : Viper → List Webhook
single_webhooks v =
    let url = v.get_string (codes "app_webhook_url") in
    let arn = v.get_string (codes "app_webhook_sns_topic_arn") in
    if is_nil url && is_nil arn
    then []
    else record {
      url = url;
      channel_name_starts_with = v.get_string (codes "app_webhook_filter_prefix");
      channel_name_ends_with = [];
      sns_topic_arn = arn;
    }
      ∷ []

-- the app of the flat settings; the read timeout is not set here
unfoldable pub single_app : Viper → App
single_app v = record {
  id = v.get_string (codes "app_id");
  key = v.get_string (codes "app_key");
  secret = v.get_string (codes "app_secret");
  activity_timeout = v.get_int (codes "app_activity_timeout");
  read_timeout = pos 0;
  authorization_timeout_seconds = v.get_int (codes "app_authorization_timeout_seconds");
  authorization_timeout = v.get_int (codes "app_authorization_timeout_seconds");
  max_connections = v.get_int (codes "app_max_connections");
  enable_client_messages = v.get_bool (codes "app_enable_client_messages");
  enabled = v.get_bool (codes "app_enabled");
  max_backend_events_per_second = v.get_int (codes "app_max_backend_events_per_second");
  max_client_events_per_second = v.get_int (codes "app_max_client_events_per_second");
  max_read_requests_per_second = v.get_int (codes "app_max_read_requests_per_second");
  webhooks = single_webhooks v;
  max_presence_members_per_channel = v.get_int (codes "app_max_presence_members_per_channel");
  max_presence_member_size_in_kb = v.get_int (codes "app_max_presence_member_size_in_kb");
  max_channel_name_length = v.get_int (codes "app_max_channel_name_length");
  max_event_channels_at_once = v.get_int (codes "app_max_event_channels_at_once");
  max_event_name_length = v.get_int (codes "app_max_event_name_length");
  max_event_payload_in_kb = v.get_int (codes "app_max_event_payload_in_kb");
  max_event_batch_size = v.get_int (codes "app_max_event_batch_size");
  require_channel_authorization = v.get_bool (codes "app_require_channel_authorization");
  has_client_event_webhooks = v.get_bool (codes "app_has_client_event_webhooks");
  has_channel_occupied_webhooks = v.get_bool (codes "app_has_channel_occupied_webhooks");
  has_channel_vacated_webhooks = v.get_bool (codes "app_has_channel_vacated_webhooks");
  has_member_added_webhooks = v.get_bool (codes "app_has_member_added_webhooks");
  has_member_removed_webhooks = v.get_bool (codes "app_has_member_removed_webhooks");
  has_cache_miss_webhooks = v.get_bool (codes "app_has_cache_miss_webhooks");
  webhook_batching_enabled = v.get_bool (codes "app_webhook_batching_enabled");
  webhooks_enabled = v.get_bool (codes "app_webhooks_enabled");
}

abbrev pub listed : Option (List App) → List App
listed none = []
listed (some apps) = apps

-- the apps of the file, or else the single one, if its id, key or secret is set
unfoldable pub applications_of : Viper → List App → List App
applications_of v (a ∷ rest) = a ∷ rest
applications_of v [] =
    let a = single_app v in if is_nil a.id && is_nil a.key && is_nil a.secret then [] else a ∷ []

unfoldable pub with_defaults : List App → List App
with_defaults [] = []
with_defaults (a ∷ rest) = set_missing_defaults a ∷ with_defaults rest

abbrev pub redis_driver : Text
redis_driver = codes "redis"

unfoldable pub needs_redis : ServerConfig → Bool
needs_redis cfg =
    cfg.channel_cache_driver == redis_driver
    || cfg.queue_driver == redis_driver
    || cfg.adapter_driver == redis_driver

-- InitializeServerConfig from the decoded struct on; `none` is an error
unfoldable pub initialize_server_config : Viper → Bool → Option ServerConfig → Option ServerConfig
initialize_server_config v redis_starts none = none
initialize_server_config v redis_starts (some cfg) =
    let apps = applications_of v (listed cfg.applications) in
    let loaded = record cfg {
      applications = some (with_defaults apps);
      using_redis = needs_redis cfg;
    } in
    if is_nil apps
    then none
    else if needs_redis cfg
    then if redis_starts then some (record loaded { redis_instance = some true }) else none
    else some loaded
