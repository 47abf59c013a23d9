-- ===== src/App.antt =====
-- internal/apps/app.go: the settings of an app and their defaults, with the webhook settings of
-- internal/constants/typeDefinitions.go. Durations are numbers of seconds.
pub mod Defaults
use pusher.Prelude.{
  ℕ, ◌+◌, ◌-◌, ◌*◌, ◌/◌, Bool, true, false, List, Text, if◌then◌else◌, ℤ, pos, negsuc, is_zero, eqb,
}

-- constants.Webhook, in the fields that the server reads
pub record Webhook : Type 0 where
  pub url : Text
  pub channel_name_starts_with : Text
  pub channel_name_ends_with : Text
  pub sns_topic_arn : Text

pub record App : Type 0 where
  pub id : Text
  pub key : Text
  pub secret : Text
  pub activity_timeout : ℤ
  pub read_timeout : ℤ
  pub authorization_timeout_seconds : ℤ
  pub authorization_timeout : ℤ
  pub max_connections : ℤ
  pub enable_client_messages : Bool
  pub enabled : Bool
  pub max_backend_events_per_second : ℤ
  pub max_client_events_per_second : ℤ
  pub max_read_requests_per_second : ℤ
  pub webhooks : List Webhook
  pub max_presence_members_per_channel : ℤ
  pub max_presence_member_size_in_kb : ℤ
  pub max_channel_name_length : ℤ
  pub max_event_channels_at_once : ℤ
  pub max_event_name_length : ℤ
  pub max_event_payload_in_kb : ℤ
  pub max_event_batch_size : ℤ
  pub require_channel_authorization : Bool
  pub has_client_event_webhooks : Bool
  pub has_channel_occupied_webhooks : Bool
  pub has_channel_vacated_webhooks : Bool
  pub has_member_added_webhooks : Bool
  pub has_member_removed_webhooks : Bool
  pub has_cache_miss_webhooks : Bool
  pub webhook_batching_enabled : Bool
  pub webhooks_enabled : Bool

-- getValueOrFallback at int and int64
unfoldable pub int_or_fallback : ℤ → ℤ → ℤ
int_or_fallback value fallback = if is_zero value then fallback else value

-- getValueOrFallback at bool
unfoldable pub bool_or_fallback : Bool → Bool → Bool
bool_or_fallback value fallback = if value then value else fallback

-- math.Round(float64(a) * 10.0 / 9.0), exact for the timeouts that a float64 holds: no tenth of
-- nine lies half way between two integers
unfoldable pub padded_timeout : ℤ → ℤ
padded_timeout (pos a) = pos ((20 * a + 9) / 18)
padded_timeout (negsuc n) = negsuc ((20 * (n + 1) + 9) / 18 - 1)

unfoldable pub set_missing_defaults : App → App
set_missing_defaults a =
    let activity = int_or_fallback a.activity_timeout (pos 60) in
    let seconds = int_or_fallback a.authorization_timeout_seconds (pos 5) in
    record a {
      activity_timeout = activity;
      read_timeout = padded_timeout activity;
      authorization_timeout_seconds = seconds;
      authorization_timeout = seconds;
      max_connections = int_or_fallback a.max_connections (negsuc 0);
      enable_client_messages = bool_or_fallback a.enable_client_messages false;
      enabled = bool_or_fallback a.enabled true;
      max_backend_events_per_second = int_or_fallback a.max_backend_events_per_second (negsuc 0);
      max_client_events_per_second = int_or_fallback a.max_client_events_per_second (negsuc 0);
      max_read_requests_per_second = int_or_fallback a.max_read_requests_per_second (negsuc 0);
      max_presence_members_per_channel =
          int_or_fallback a.max_presence_members_per_channel (pos 100);
      max_presence_member_size_in_kb = int_or_fallback a.max_presence_member_size_in_kb (pos 10);
      max_channel_name_length = int_or_fallback a.max_channel_name_length (pos 100);
      max_event_channels_at_once = int_or_fallback a.max_event_channels_at_once (pos 10);
      max_event_name_length = int_or_fallback a.max_event_name_length (pos 100);
      max_event_payload_in_kb = int_or_fallback a.max_event_payload_in_kb (pos 100);
      max_event_batch_size = int_or_fallback a.max_event_batch_size (pos 20);
      require_channel_authorization = bool_or_fallback a.require_channel_authorization false;
      has_client_event_webhooks = bool_or_fallback a.has_client_event_webhooks false;
      has_channel_occupied_webhooks = bool_or_fallback a.has_channel_occupied_webhooks false;
      has_channel_vacated_webhooks = bool_or_fallback a.has_channel_vacated_webhooks false;
      has_member_added_webhooks = bool_or_fallback a.has_member_added_webhooks false;
      has_member_removed_webhooks = bool_or_fallback a.has_member_removed_webhooks false;
      has_cache_miss_webhooks = bool_or_fallback a.has_cache_miss_webhooks false;
      webhook_batching_enabled = bool_or_fallback a.webhook_batching_enabled false;
      webhooks_enabled = bool_or_fallback a.webhooks_enabled false;
    }
