-- ===== src/App/Defaults.antt =====
-- What SetMissingDefaults of internal/apps/app.go guarantees.
use pusher.Prelude.{
  ℕ, ◌+◌, ◌*◌, ◌/◌, ◌≤◌, ◌≡◌, refl, Bool, true, false, arith, ℤ, pos, negsuc, is_zero,
}
use pusher.App.{App, set_missing_defaults, int_or_fallback, bool_or_fallback, padded_timeout}

int_or_fallback_idem : (v d : ℤ) → int_or_fallback (int_or_fallback v d) d ≡ int_or_fallback v d
unfolding int_or_fallback
int_or_fallback_idem v d = ground arith

bool_or_fallback_idem :
    (v d : Bool) → bool_or_fallback (bool_or_fallback v d) d ≡ bool_or_fallback v d
unfolding bool_or_fallback
bool_or_fallback_idem v d = ground arith

-- Filling in the defaults a second time leaves every setting alone.
pub set_missing_defaults_idem :
    (a : App) → set_missing_defaults (set_missing_defaults a) ≡ set_missing_defaults a
unfolding set_missing_defaults
set_missing_defaults_idem a = simp (int_or_fallback_idem, bool_or_fallback_idem)

int_or_fallback-ne_zero : (v d : ℤ) → is_zero d ≡ false → is_zero (int_or_fallback v d) ≡ false
unfolding int_or_fallback
int_or_fallback-ne_zero v d h = ground arith

bool_or_fallback-true : (v : Bool) → bool_or_fallback v true ≡ true
unfolding bool_or_fallback
bool_or_fallback-true v = ground arith

-- A set of app settings that the server can run with.
pub record IsComplete (a : App) : Type 0 where
  pub enabled : a.enabled ≡ true
  pub activity : is_zero a.activity_timeout ≡ false
  pub read : a.read_timeout ≡ padded_timeout a.activity_timeout
  pub authorization : a.authorization_timeout ≡ a.authorization_timeout_seconds
  pub authorization_set : is_zero a.authorization_timeout ≡ false
  pub connections : is_zero a.max_connections ≡ false
  pub members : is_zero a.max_presence_members_per_channel ≡ false
  pub member_size : is_zero a.max_presence_member_size_in_kb ≡ false
  pub name_length : is_zero a.max_channel_name_length ≡ false
  pub channels_at_once : is_zero a.max_event_channels_at_once ≡ false
  pub event_name : is_zero a.max_event_name_length ≡ false
  pub payload : is_zero a.max_event_payload_in_kb ≡ false

-- Whatever was configured, afterwards the app is enabled (also one that was configured as
-- disabled), no timeout and none of the listed limits is zero, and the read timeout is the padded
-- activity timeout.
pub set_missing_defaults-IsComplete : (a : App) → IsComplete (set_missing_defaults a)
unfolding set_missing_defaults
set_missing_defaults-IsComplete a = record {
  enabled = bool_or_fallback-true a.enabled;
  activity = int_or_fallback-ne_zero a.activity_timeout (pos 60) refl;
  read = refl;
  authorization = refl;
  authorization_set = int_or_fallback-ne_zero a.authorization_timeout_seconds (pos 5) refl;
  connections = int_or_fallback-ne_zero a.max_connections (negsuc 0) refl;
  members = int_or_fallback-ne_zero a.max_presence_members_per_channel (pos 100) refl;
  member_size = int_or_fallback-ne_zero a.max_presence_member_size_in_kb (pos 10) refl;
  name_length = int_or_fallback-ne_zero a.max_channel_name_length (pos 100) refl;
  channels_at_once = int_or_fallback-ne_zero a.max_event_channels_at_once (pos 10) refl;
  event_name = int_or_fallback-ne_zero a.max_event_name_length (pos 100) refl;
  payload = int_or_fallback-ne_zero a.max_event_payload_in_kb (pos 100) refl;
}

-- With a timeout of `a` seconds, 0 or more, the server waits at least as long as it tells the
-- client to, and 10/9 of it to the nearest second.
pub padded_timeout_bounds :
    (s : App) {a : ℕ}
    → (set_missing_defaults s).activity_timeout ≡ pos a
    → (r : ℕ) × ((set_missing_defaults s).read_timeout ≡ pos r)
      × (a ≤ r)
      × (20 * a ≤ 18 * r + 8)
      × (18 * r ≤ 20 * a + 9)
unfolding set_missing_defaults
padded_timeout_bounds s {a} h =
    ((20 * a + 9) / 18, rw h (unfold padded_timeout in refl), omega arith, omega arith, omega arith)
