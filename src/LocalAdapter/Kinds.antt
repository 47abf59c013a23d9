-- ===== src/LocalAdapter/Kinds.antt =====
-- The channel gauges of updateChannelMetrics in internal/adaptersLocal.go.
use pusher.Prelude.{ℕ, ◌+◌, ◌≡◌, Bool, List, [], ◌∷◌, arith, length, keys, Text, if◌then◌else◌}
use pusher.ChannelName.{is_presence_channel}
use pusher.LocalAdapter.{Adapter, count_kinds, update_channel_metrics, channels_with_sockets_count}

-- how many names pass a test
abbrev pub count_if : (Text → Bool) → List Text → ℕ
count_if p [] = 0
count_if p (c ∷ cs) = if p c then 1 + count_if p cs else count_if p cs

count_kinds_lem :
    (cs : List Text)
    → ((count_kinds cs).total ≡ length cs)
      × ((count_kinds cs).total
          ≡ (count_kinds cs).presence + (count_kinds cs).private + (count_kinds cs).public)
      × ((count_kinds cs).presence ≡ count_if is_presence_channel cs)
unfolding count_kinds
count_kinds_lem [] = (omega arith, omega arith, omega arith)
count_kinds_lem (c ∷ cs) = ground (arith, count_kinds_lem cs)

-- After the gauges are brought up to date for an app, the total is the number of that app's channels,
-- it is the sum of the other three gauges, and the presence gauge is the number of its presence
-- channels, whatever the gauges were before.
pub update_channel_metrics_gauges :
    (l : Adapter) (app : Text)
    → ((update_channel_metrics l app).gauges.total
        ≡ length (keys (channels_with_sockets_count l app)))
      × ((update_channel_metrics l app).gauges.total
          ≡ (update_channel_metrics l app).gauges.presence
            + (update_channel_metrics l app).gauges.private
            + (update_channel_metrics l app).gauges.public)
      × ((update_channel_metrics l app).gauges.presence
          ≡ count_if is_presence_channel (keys (channels_with_sockets_count l app)))
unfolding update_channel_metrics
update_channel_metrics_gauges l app = count_kinds_lem (keys (channels_with_sockets_count l app))
