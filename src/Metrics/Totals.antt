-- ===== src/Metrics/Totals.antt =====
-- What the counters and gauges of internal/metrics/metricPrometheus.go add up to.
use pusher.Prelude.{
  ℕ, ◌+◌, ◌≡◌, refl, ap, sym, ◌∙◌, true, false, ◌&&◌, some, List, [], ◌∷◌, if◌then◌else◌, arith,
  Text, ◌==◌, eq_iff,
}
use pusher.Metrics
use pusher.Metrics.{CounterVec, PrometheusMetrics, unmarked, inc_labels, inc, dec}
use pusher.Metrics.Calls.{
  MetricsCall, api_message, error, call, after, count, total, times, is_connection,
  is_disconnection, is_sent, is_received, is_request, is_request_received, is_api_message, is_error,
  is_promise, has_type, has_channel, has_error,
}

count-inc_labels :
    (a b : Text) (v : CounterVec) (c d : Text)
    → count (inc_labels a b v) c d ≡ (if a == c && b == d then 1 else 0) + count v c d
unfolding count inc_labels
count-inc_labels a b [] c d = ground arith
count-inc_labels a b ((e, f, n) ∷ v) c d = ground (
  arith,
  count-inc_labels a b v c d,
  eq_iff a c,
  eq_iff b d,
  eq_iff e a,
  eq_iff f b,
  eq_iff e c,
  eq_iff f d,
)

total-inc_labels : (a b : Text) (v : CounterVec) → total (inc_labels a b v) ≡ total v + 1
unfolding total inc_labels
total-inc_labels a b [] = refl
total-inc_labels a b ((e, f, n) ∷ v) = ground (arith, total-inc_labels a b v)

-- a value that starts at 0 and that each call raises by its kind
accumulates :
    (f : PrometheusMetrics → ℕ) (kind : MetricsCall → ℕ)
    → f unmarked ≡ 0
    → ((c : MetricsCall) (pm : PrometheusMetrics) → f (call c pm) ≡ kind c + f pm)
    → (cs : List MetricsCall) → f (after cs) ≡ times kind cs
unfolding after times
accumulates f kind base step [] = base
accumulates f kind base step (c ∷ cs) =
    step c (after cs) ∙ ap (λ (n : ℕ). kind c + n) (accumulates f kind base step cs)

-- what one call adds
record Raises (c : MetricsCall) (pm : PrometheusMetrics) : Type 0 where
  connections : (call c pm).connections_total ≡ is_connection c + pm.connections_total
  disconnections : (call c pm).disconnections_total ≡ is_disconnection c + pm.disconnections_total
  sent : (call c pm).ws_messages_sent_total ≡ is_sent c + pm.ws_messages_sent_total
  received : (call c pm).ws_messages_received_total ≡ is_received c + pm.ws_messages_received_total
  requests :
      (call c pm).horizontal_adapter_requests_total
      ≡ is_request c + pm.horizontal_adapter_requests_total
  replies :
      (call c pm).horizontal_adapter_requests_received
      ≡ is_request_received c + pm.horizontal_adapter_requests_received
  resolved :
      (call c pm).horizontal_adapter_resolved_promises
      ≡ is_promise true c + pm.horizontal_adapter_resolved_promises
  failed :
      (call c pm).horizontal_adapter_failed_promises
      ≡ is_promise false c + pm.horizontal_adapter_failed_promises
  messages : (call c pm).api_messages_total ≡ is_api_message c + pm.api_messages_total
  events : (call c pm).events_total ≡ is_api_message c + pm.events_total
  errors : (call c pm).errors_total ≡ is_error c + pm.errors_total
  by_type :
      (a b : Text)
      → count (call c pm).events_by_type a b ≡ has_type a b c + count pm.events_by_type a b
  by_channel :
      (a b : Text)
      → count (call c pm).events_by_channel a b ≡ has_channel a b c + count pm.events_by_channel a b
  by_error :
      (a b : Text)
      → count (call c pm).errors_by_type a b ≡ has_error a b c + count pm.errors_by_type a b
  error_sum : total (call c pm).errors_by_type ≡ is_error c + total pm.errors_by_type

call-Raises : (c : MetricsCall) (pm : PrometheusMetrics) → Raises c pm
unfolding call Metrics.mark_new_connection Metrics.mark_disconnection Metrics.mark_api_message
    Metrics.mark_ws_message_sent Metrics.mark_ws_message_received
    Metrics.track_horizontal_adapter_resolve_time Metrics.track_horizontal_adapter_resolved_promises
    Metrics.mark_horizontal_adapter_request_sent Metrics.mark_horizontal_adapter_request_received
    Metrics.clear Metrics.set_active_connections Metrics.set_channels_total
    Metrics.set_presence_channels Metrics.set_private_channels Metrics.set_public_channels
    Metrics.mark_error Metrics.observe_response_time Metrics.observe_request_size
    Metrics.observe_response_size Metrics.update_resource_metrics
call-Raises c pm = record {
  connections = ground arith;
  disconnections = ground arith;
  sent = ground arith;
  received = ground arith;
  requests = ground arith;
  replies = ground arith;
  resolved = ground arith;
  failed = ground arith;
  messages = ground arith;
  events = ground arith;
  errors = ground arith;
  by_type = λ a b. by_type_lem a b c pm;
  by_channel = λ a b. by_channel_lem a b c pm;
  by_error = λ a b. by_error_lem a b c pm;
  error_sum = error_sum_lem c pm;
}
  where
    by_type_lem :
        (a b : Text) (c : MetricsCall) (pm : PrometheusMetrics)
        → count (call c pm).events_by_type a b ≡ has_type a b c + count pm.events_by_type a b
    by_type_lem a b (api_message app (some m)) pm =
        count-inc_labels m.name app pm.events_by_type a b
    by_type_lem a b c pm = ground arith

    by_channel_lem :
        (a b : Text) (c : MetricsCall) (pm : PrometheusMetrics)
        → count (call c pm).events_by_channel a b
          ≡ has_channel a b c + count pm.events_by_channel a b
    by_channel_lem a b (api_message app (some m)) pm =
        count-inc_labels m.channel app pm.events_by_channel a b
    by_channel_lem a b c pm = ground arith

    by_error_lem :
        (a b : Text) (c : MetricsCall) (pm : PrometheusMetrics)
        → count (call c pm).errors_by_type a b ≡ has_error a b c + count pm.errors_by_type a b
    by_error_lem a b (error t app) pm = count-inc_labels t app pm.errors_by_type a b
    by_error_lem a b c pm = ground arith

    error_sum_lem :
        (c : MetricsCall) (pm : PrometheusMetrics)
        → total (call c pm).errors_by_type ≡ is_error c + total pm.errors_by_type
    error_sum_lem (error t app) pm = omega (arith, total-inc_labels t app pm.errors_by_type)
    error_sum_lem c pm = ground arith

-- Each counter is the number of its calls, and each one of a vector that of the calls with its labels.
pub record Counted (cs : List MetricsCall) (pm : PrometheusMetrics) : Type 0 where
  pub connections : pm.connections_total ≡ times is_connection cs
  pub disconnections : pm.disconnections_total ≡ times is_disconnection cs
  pub sent : pm.ws_messages_sent_total ≡ times is_sent cs
  pub received : pm.ws_messages_received_total ≡ times is_received cs
  pub requests : pm.horizontal_adapter_requests_total ≡ times is_request cs
  pub replies : pm.horizontal_adapter_requests_received ≡ times is_request_received cs
  pub resolved : pm.horizontal_adapter_resolved_promises ≡ times (is_promise true) cs
  pub failed : pm.horizontal_adapter_failed_promises ≡ times (is_promise false) cs
  pub messages : pm.api_messages_total ≡ times is_api_message cs
  pub events : pm.events_total ≡ times is_api_message cs
  pub errors : pm.errors_total ≡ times is_error cs
  pub by_type : (a b : Text) → count pm.events_by_type a b ≡ times (has_type a b) cs
  pub by_channel : (a b : Text) → count pm.events_by_channel a b ≡ times (has_channel a b) cs
  pub by_error : (a b : Text) → count pm.errors_by_type a b ≡ times (has_error a b) cs
  pub error_sum : total pm.errors_by_type ≡ pm.errors_total

-- After any sequence of calls, from the start on, every counter is the number of calls that it counts;
-- the events by type, or by channel, and app are the API messages with that name, or that single
-- channel, for that app; and the errors by type and app sum up to the errors.
pub after-Counted : (cs : List MetricsCall) → Counted cs (after cs)
unfolding count total
after-Counted cs = record {
  connections =
      accumulates (λ pm. pm.connections_total) is_connection refl
        (λ c pm. (call-Raises c pm).connections) cs;
  disconnections =
      accumulates (λ pm. pm.disconnections_total) is_disconnection refl
        (λ c pm. (call-Raises c pm).disconnections) cs;
  sent =
      accumulates (λ pm. pm.ws_messages_sent_total) is_sent refl (λ c pm. (call-Raises c pm).sent)
        cs;
  received =
      accumulates (λ pm. pm.ws_messages_received_total) is_received refl
        (λ c pm. (call-Raises c pm).received) cs;
  requests =
      accumulates (λ pm. pm.horizontal_adapter_requests_total) is_request refl
        (λ c pm. (call-Raises c pm).requests) cs;
  replies =
      accumulates (λ pm. pm.horizontal_adapter_requests_received) is_request_received refl
        (λ c pm. (call-Raises c pm).replies) cs;
  resolved =
      accumulates (λ pm. pm.horizontal_adapter_resolved_promises) (is_promise true) refl
        (λ c pm. (call-Raises c pm).resolved) cs;
  failed =
      accumulates (λ pm. pm.horizontal_adapter_failed_promises) (is_promise false) refl
        (λ c pm. (call-Raises c pm).failed) cs;
  messages =
      accumulates (λ pm. pm.api_messages_total) is_api_message refl
        (λ c pm. (call-Raises c pm).messages) cs;
  events =
      accumulates (λ pm. pm.events_total) is_api_message refl (λ c pm. (call-Raises c pm).events)
        cs;
  errors = accumulates (λ pm. pm.errors_total) is_error refl (λ c pm. (call-Raises c pm).errors) cs;
  by_type = λ a b.
      accumulates (λ pm. count pm.events_by_type a b) (has_type a b) refl
        (λ c pm. (call-Raises c pm).by_type a b) cs;
  by_channel = λ a b.
      accumulates (λ pm. count pm.events_by_channel a b) (has_channel a b) refl
        (λ c pm. (call-Raises c pm).by_channel a b) cs;
  by_error = λ a b.
      accumulates (λ pm. count pm.errors_by_type a b) (has_error a b) refl
        (λ c pm. (call-Raises c pm).by_error a b) cs;
  error_sum =
      accumulates (λ pm. total pm.errors_by_type) is_error refl
        (λ c pm. (call-Raises c pm).error_sum) cs
      ∙ sym (
          accumulates (λ pm. pm.errors_total) is_error refl (λ c pm. (call-Raises c pm).errors) cs);
}
