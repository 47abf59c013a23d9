-- ===== src/Metrics/Calls.antt =====
-- The methods of internal/metrics/metricPrometheus.go as calls in a sequence, and how calls are counted.
use pusher.Prelude.{
  ℕ, ◌+◌, Bool, true, false, ◌&&◌, Option, some, List, [], ◌∷◌, if◌then◌else◌, Text, ◌==◌, ℤ,
}
use pusher.Api.Events.{ApiMessage}
use pusher.Metrics
use pusher.Metrics.{CounterVec, PrometheusMetrics, unmarked}

-- the methods of PrometheusMetrics that change it
pub data MetricsCall : Type 0 where
  new_connection disconnection ws_sent ws_received request_sent request_received : MetricsCall
  api_message : Text → Option ApiMessage → MetricsCall
  resolve_time : ℤ → MetricsCall
  promise : Bool → MetricsCall
  clears : MetricsCall
  active channels presence private public : ℤ → MetricsCall
  error : Text → Text → MetricsCall
  responded requested answered goroutines : ℤ → MetricsCall

unfoldable pub call : MetricsCall → PrometheusMetrics → PrometheusMetrics
call new_connection pm = Metrics.mark_new_connection pm
call disconnection pm = Metrics.mark_disconnection pm
call ws_sent pm = Metrics.mark_ws_message_sent pm
call ws_received pm = Metrics.mark_ws_message_received pm
call request_sent pm = Metrics.mark_horizontal_adapter_request_sent pm
call request_received pm = Metrics.mark_horizontal_adapter_request_received pm
call (api_message app m) pm = Metrics.mark_api_message app m pm
call (resolve_time t) pm = Metrics.track_horizontal_adapter_resolve_time t pm
call (promise resolved) pm = Metrics.track_horizontal_adapter_resolved_promises resolved pm
call clears pm = Metrics.clear pm
call (active n) pm = Metrics.set_active_connections n pm
call (channels n) pm = Metrics.set_channels_total n pm
call (presence n) pm = Metrics.set_presence_channels n pm
call (private n) pm = Metrics.set_private_channels n pm
call (public n) pm = Metrics.set_public_channels n pm
call (error type app) pm = Metrics.mark_error type app pm
call (responded t) pm = Metrics.observe_response_time t pm
call (requested n) pm = Metrics.observe_request_size n pm
call (answered n) pm = Metrics.observe_response_size n pm
call (goroutines n) pm = Metrics.update_resource_metrics n pm

-- the metrics after the calls, of which the latest stands first
unfoldable pub after : List MetricsCall → PrometheusMetrics
after [] = unmarked
after (c ∷ cs) = call c (after cs)

-- a counter of a vector, and their sum
unfoldable pub count : CounterVec → Text → Text → ℕ
count [] a b = 0
count ((c, d, n) ∷ v) a b = if c == a && d == b then n else count v a b

unfoldable pub total : CounterVec → ℕ
total [] = 0
total ((c, d, n) ∷ v) = n + total v

-- how many of the calls are of a kind
unfoldable pub times : (MetricsCall → ℕ) → List MetricsCall → ℕ
times kind [] = 0
times kind (c ∷ cs) = kind c + times kind cs

abbrev pub is_connection : MetricsCall → ℕ
is_connection new_connection = 1
is_connection _ = 0

abbrev pub is_disconnection : MetricsCall → ℕ
is_disconnection disconnection = 1
is_disconnection _ = 0

abbrev pub is_sent : MetricsCall → ℕ
is_sent ws_sent = 1
is_sent _ = 0

abbrev pub is_received : MetricsCall → ℕ
is_received ws_received = 1
is_received _ = 0

abbrev pub is_request : MetricsCall → ℕ
is_request request_sent = 1
is_request _ = 0

abbrev pub is_request_received : MetricsCall → ℕ
is_request_received request_received = 1
is_request_received _ = 0

abbrev pub is_api_message : MetricsCall → ℕ
is_api_message (api_message app m) = 1
is_api_message _ = 0

abbrev pub is_error : MetricsCall → ℕ
is_error (error type app) = 1
is_error _ = 0

abbrev pub is_promise : Bool → MetricsCall → ℕ
is_promise true (promise true) = 1
is_promise false (promise false) = 1
is_promise _ _ = 0

-- an event of this type for this app, and one on this channel
abbrev pub has_type : Text → Text → MetricsCall → ℕ
has_type name app (api_message a (some m)) = if m.name == name && a == app then 1 else 0
has_type name app _ = 0

abbrev pub has_channel : Text → Text → MetricsCall → ℕ
has_channel name app (api_message a (some m)) = if m.channel == name && a == app then 1 else 0
has_channel name app _ = 0

abbrev pub has_error : Text → Text → MetricsCall → ℕ
has_error type app (error t a) = if t == type && a == app then 1 else 0
has_error type app _ = 0

-- whether a call sets the gauge of the active connections to a value of its own
abbrev pub resets : MetricsCall → Bool
resets clears = true
resets (active n) = true
resets _ = false
