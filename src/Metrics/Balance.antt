-- ===== src/Metrics/Balance.antt =====
-- The gauge of the active connections of internal/metrics/metricPrometheus.go.
use pusher.Prelude.{
  ℕ, zero, suc, ◌≡◌, refl, true, false, not, List, [], ◌∷◌, arith, all, ℤ, pos, negsuc,
}
use pusher.Metrics
use pusher.Metrics.{PrometheusMetrics, inc, dec}
use pusher.Metrics.Calls.{MetricsCall, call, after, resets}

-- c - d
pub difference : ℕ → ℕ → ℤ
difference c zero = pos c
difference zero (suc d) = negsuc d
difference (suc c) (suc d) = difference c d

inc-difference : (c d : ℕ) → inc (difference c d) ≡ difference (suc c) d
unfolding inc difference
inc-difference c zero = ground arith
inc-difference zero (suc zero) = refl
inc-difference zero (suc (suc d)) = refl
inc-difference (suc c) (suc d) = inc-difference c d

dec-difference : (c d : ℕ) → dec (difference c d) ≡ difference c (suc d)
unfolding dec difference
dec-difference zero zero = refl
dec-difference (suc c) zero = refl
dec-difference zero (suc d) = ground arith
dec-difference (suc c) (suc d) = dec-difference c d

abbrev Balanced : PrometheusMetrics → Type 0
Balanced pm = pm.active_connections ≡ difference pm.connections_total pm.disconnections_total

call-Balanced :
    (c : MetricsCall) (pm : PrometheusMetrics)
    → resets c ≡ false
    → Balanced pm
    → Balanced (call c pm)
unfolding call Metrics.mark_new_connection Metrics.mark_disconnection Metrics.mark_api_message
    Metrics.mark_ws_message_sent Metrics.mark_ws_message_received
    Metrics.track_horizontal_adapter_resolve_time Metrics.track_horizontal_adapter_resolved_promises
    Metrics.mark_horizontal_adapter_request_sent Metrics.mark_horizontal_adapter_request_received
    Metrics.clear Metrics.set_active_connections Metrics.set_channels_total
    Metrics.set_presence_channels Metrics.set_private_channels Metrics.set_public_channels
    Metrics.mark_error Metrics.observe_response_time Metrics.observe_request_size
    Metrics.observe_response_size Metrics.update_resource_metrics
call-Balanced c pm r b = ground (
  arith,
  r,
  b,
  inc-difference pm.connections_total pm.disconnections_total,
  dec-difference pm.connections_total pm.disconnections_total,
)

-- As long as no call sets the gauge itself, the active connections are the connections less the
-- disconnections, and below zero where there were more of these.
pub active_connections_lem :
    (cs : List MetricsCall)
    → all (λ c. not (resets c)) cs ≡ true
    → (after cs).active_connections
      ≡ difference (after cs).connections_total (after cs).disconnections_total
unfolding after all difference
active_connections_lem [] h = refl
active_connections_lem (c ∷ cs) h =
    call-Balanced c (after cs) (ground (arith, h)) (active_connections_lem cs (ground (arith, h)))
