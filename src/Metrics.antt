-- ===== src/Metrics.antt =====
-- internal/metrics/metricPrometheus.go: the counters and gauges, and the calls that change them. The
-- library's float64 values are exact numbers here, and a histogram is the list of its observations, the
-- latest first. Custom collectors and the printing of the metrics are left out.
pub mod Setup
pub mod Names
pub mod Calls
pub mod Balance
pub mod Totals
use pusher.Prelude.{
  ℕ, zero, suc, ◌+◌, Bool, true, false, ◌&&◌, Option, none, some, List, [], ◌∷◌, if◌then◌else◌,
  Text, ◌==◌, ℤ, pos, negsuc,
}
use pusher.Api.Events.{ApiMessage}

-- the counters of a CounterVec, by their two labels
abbrev pub CounterVec : Type 0
CounterVec = List (Text × Text × ℕ)

-- WithLabelValues(a, b).Inc()
unfoldable pub inc_labels : Text → Text → CounterVec → CounterVec
inc_labels a b [] = (a, b, 1) ∷ []
inc_labels a b ((c, d, n) ∷ v) =
    let rest = inc_labels a b v in if c == a && d == b then (c, d, n + 1) ∷ v else (c, d, n) ∷ rest

-- Inc and Dec of a gauge
unfoldable pub inc : ℤ → ℤ
inc (pos n) = pos (n + 1)
inc (negsuc zero) = pos 0
inc (negsuc (suc n)) = negsuc n

unfoldable pub dec : ℤ → ℤ
dec (pos zero) = negsuc 0
dec (pos (suc n)) = pos n
dec (negsuc n) = negsuc (n + 1)

pub record PrometheusMetrics : Type 0 where
  pub connections_total : ℕ
  pub disconnections_total : ℕ
  pub active_connections : ℤ
  pub api_messages_total : ℕ
  pub ws_messages_sent_total : ℕ
  pub ws_messages_received_total : ℕ
  pub horizontal_adapter_requests_total : ℕ
  pub horizontal_adapter_requests_received : ℕ
  pub horizontal_adapter_resolve_time : List ℤ
  pub horizontal_adapter_resolved_promises : ℕ
  pub horizontal_adapter_failed_promises : ℕ
  pub channels_total : ℤ
  pub presence_channels : ℤ
  pub private_channels : ℤ
  pub public_channels : ℤ
  pub events_total : ℕ
  pub events_by_type : CounterVec
  pub events_by_channel : CounterVec
  pub errors_total : ℕ
  pub errors_by_type : CounterVec
  pub response_time : List ℤ
  pub request_size : List ℤ
  pub response_size : List ℤ
  pub goroutines_total : ℤ

-- all at zero
abbrev pub unmarked : PrometheusMetrics
unmarked = record {
  connections_total = 0;
  disconnections_total = 0;
  active_connections = pos 0;
  api_messages_total = 0;
  ws_messages_sent_total = 0;
  ws_messages_received_total = 0;
  horizontal_adapter_requests_total = 0;
  horizontal_adapter_requests_received = 0;
  horizontal_adapter_resolve_time = [];
  horizontal_adapter_resolved_promises = 0;
  horizontal_adapter_failed_promises = 0;
  channels_total = pos 0;
  presence_channels = pos 0;
  private_channels = pos 0;
  public_channels = pos 0;
  events_total = 0;
  events_by_type = [];
  events_by_channel = [];
  errors_total = 0;
  errors_by_type = [];
  response_time = [];
  request_size = [];
  response_size = [];
  goroutines_total = pos 0;
}

unfoldable pub mark_new_connection : PrometheusMetrics → PrometheusMetrics
mark_new_connection pm = record pm {
  connections_total = pm.connections_total + 1;
  active_connections = inc pm.active_connections;
}

unfoldable pub mark_disconnection : PrometheusMetrics → PrometheusMetrics
mark_disconnection pm = record pm {
  disconnections_total = pm.disconnections_total + 1;
  active_connections = dec pm.active_connections;
}

-- the message may be nil; `channel` is its single channel, also where it names several
unfoldable pub mark_api_message : Text → Option ApiMessage → PrometheusMetrics → PrometheusMetrics
mark_api_message app none pm = record pm {
  api_messages_total = pm.api_messages_total + 1;
  events_total = pm.events_total + 1;
}
mark_api_message app (some m) pm = record pm {
  api_messages_total = pm.api_messages_total + 1;
  events_by_type = inc_labels m.name app pm.events_by_type;
  events_by_channel = inc_labels m.channel app pm.events_by_channel;
  events_total = pm.events_total + 1;
}

unfoldable pub mark_ws_message_sent : PrometheusMetrics → PrometheusMetrics
mark_ws_message_sent pm = record pm { ws_messages_sent_total = pm.ws_messages_sent_total + 1 }

unfoldable pub mark_ws_message_received : PrometheusMetrics → PrometheusMetrics
mark_ws_message_received pm = record pm {
  ws_messages_received_total = pm.ws_messages_received_total + 1;
}

-- the time in nanoseconds; the source observes it in seconds
unfoldable pub track_horizontal_adapter_resolve_time : ℤ → PrometheusMetrics → PrometheusMetrics
track_horizontal_adapter_resolve_time time pm = record pm {
  horizontal_adapter_resolve_time = time ∷ pm.horizontal_adapter_resolve_time;
}

unfoldable pub track_horizontal_adapter_resolved_promises :
    Bool → PrometheusMetrics → PrometheusMetrics
track_horizontal_adapter_resolved_promises resolved pm =
    if resolved
    then record pm {
      horizontal_adapter_resolved_promises = pm.horizontal_adapter_resolved_promises + 1;
    }
    else record pm {
      horizontal_adapter_failed_promises = pm.horizontal_adapter_failed_promises + 1;
    }

unfoldable pub mark_horizontal_adapter_request_sent : PrometheusMetrics → PrometheusMetrics
mark_horizontal_adapter_request_sent pm = record pm {
  horizontal_adapter_requests_total = pm.horizontal_adapter_requests_total + 1;
}

unfoldable pub mark_horizontal_adapter_request_received : PrometheusMetrics → PrometheusMetrics
mark_horizontal_adapter_request_received pm = record pm {
  horizontal_adapter_requests_received = pm.horizontal_adapter_requests_received + 1;
}

unfoldable pub clear : PrometheusMetrics → PrometheusMetrics
clear pm = record pm {
  active_connections = pos 0;
  channels_total = pos 0;
  presence_channels = pos 0;
  private_channels = pos 0;
  public_channels = pos 0;
}

unfoldable pub set_active_connections : ℤ → PrometheusMetrics → PrometheusMetrics
set_active_connections count pm = record pm { active_connections = count }

unfoldable pub set_channels_total : ℤ → PrometheusMetrics → PrometheusMetrics
set_channels_total count pm = record pm { channels_total = count }

unfoldable pub set_presence_channels : ℤ → PrometheusMetrics → PrometheusMetrics
set_presence_channels count pm = record pm { presence_channels = count }

unfoldable pub set_private_channels : ℤ → PrometheusMetrics → PrometheusMetrics
set_private_channels count pm = record pm { private_channels = count }

unfoldable pub set_public_channels : ℤ → PrometheusMetrics → PrometheusMetrics
set_public_channels count pm = record pm { public_channels = count }

unfoldable pub mark_error : Text → Text → PrometheusMetrics → PrometheusMetrics
mark_error error_type app pm = record pm {
  errors_total = pm.errors_total + 1;
  errors_by_type = inc_labels error_type app pm.errors_by_type;
}

-- a duration in nanoseconds
unfoldable pub observe_response_time : ℤ → PrometheusMetrics → PrometheusMetrics
observe_response_time duration pm = record pm { response_time = duration ∷ pm.response_time }

unfoldable pub observe_request_size : ℤ → PrometheusMetrics → PrometheusMetrics
observe_request_size size pm = record pm { request_size = size ∷ pm.request_size }

unfoldable pub observe_response_size : ℤ → PrometheusMetrics → PrometheusMetrics
observe_response_size size pm = record pm { response_size = size ∷ pm.response_size }

-- with the number of goroutines
unfoldable pub update_resource_metrics : ℤ → PrometheusMetrics → PrometheusMetrics
update_resource_metrics goroutines pm = record pm { goroutines_total = goroutines }
