-- ===== src/Metrics/Setup.antt =====
-- initializeMetrics of internal/metrics/metricPrometheus.go: which metrics it registers. The registry is
-- the library's, a parameter: where a metric is not accepted, MustRegister panics. The constant labels,
-- none when the metrics are made, and the help texts are left out.
use pusher.Prelude.{
  ℕ, ◌≡◌, Bool, true, false, ◌&&◌, ◌||◌, Option, some, List, [], ◌∷◌, ◌++◌, leb, eqb, all, is_some,
  not, is_nil, has_prefix, ◌==◌, Text, codes, contains, ◌>>=◌,
}

pub data MetricKind : Type 0 where
  counter gauge histogram counter_vec : MetricKind

-- what is registered under a name, with the names of the variable labels
pub record Metric : Type 0 where
  pub name : Text
  pub kind : MetricKind
  pub labels : List Text

abbrev pub plain : MetricKind → Text → Metric
plain kind name = record { name = name; kind = kind; labels = [] }

abbrev pub vector : Text → Text → Metric
vector name label = record { name = name; kind = counter_vec; labels = label ∷ codes "app_id" ∷ [] }

abbrev pub connection_metrics : List Metric
connection_metrics =
    plain counter (codes "connections_total")
    ∷ plain counter (codes "disconnections_total")
    ∷ plain gauge (codes "active_connections")
    ∷ []

abbrev pub api_message_metrics : List Metric
api_message_metrics =
    plain counter (codes "api_messages_total")
    ∷ plain counter (codes "api_messages_failed_total")
    ∷ plain histogram (codes "api_message_duration_seconds")
    ∷ []

abbrev pub ws_message_metrics : List Metric
ws_message_metrics =
    plain counter (codes "ws_messages_sent_total")
    ∷ plain counter (codes "ws_messages_received_total")
    ∷ plain histogram (codes "ws_message_duration_seconds")
    ∷ []

abbrev pub horizontal_adapter_metrics : List Metric
horizontal_adapter_metrics =
    plain counter (codes "horizontal_adapter_requests_total")
    ∷ plain counter (codes "horizontal_adapter_requests_received_total")
    ∷ plain histogram (codes "horizontal_adapter_resolve_duration_seconds")
    ∷ plain counter (codes "horizontal_adapter_resolved_promises_total")
    ∷ plain counter (codes "horizontal_adapter_failed_promises_total")
    ∷ []

abbrev pub channel_metrics : List Metric
channel_metrics =
    plain gauge (codes "channels_total")
    ∷ plain gauge (codes "presence_channels_total")
    ∷ plain gauge (codes "private_channels_total")
    ∷ plain gauge (codes "public_channels_total")
    ∷ []

abbrev pub event_metrics : List Metric
event_metrics =
    plain counter (codes "events_total")
    ∷ vector (codes "events_by_type_total") (codes "event_type")
    ∷ vector (codes "events_by_channel_total") (codes "channel")
    ∷ []

abbrev pub error_metrics : List Metric
error_metrics =
    plain counter (codes "errors_total")
    ∷ vector (codes "errors_by_type_total") (codes "error_type")
    ∷ []

abbrev pub performance_metrics : List Metric
performance_metrics =
    plain histogram (codes "response_duration_seconds")
    ∷ plain histogram (codes "request_size_bytes")
    ∷ plain histogram (codes "response_size_bytes")
    ∷ []

abbrev pub resource_metrics : List Metric
resource_metrics =
    plain gauge (codes "memory_usage_bytes")
    ∷ plain gauge (codes "cpu_usage_percent")
    ∷ plain gauge (codes "goroutines_total")
    ∷ []

-- all of them, in the order of their registration
unfoldable pub initial_metrics : List Metric
initial_metrics =
    connection_metrics
    ++ (api_message_metrics
        ++ (ws_message_metrics
            ++ (horizontal_adapter_metrics
                ++ (channel_metrics
                    ++ (event_metrics
                        ++ (error_metrics ++ (performance_metrics ++ resource_metrics)))))))

-- small letters and underscores
abbrev pub is_plain_byte : ℕ → Bool
is_plain_byte c = leb 97 c && leb c 122 || eqb c 95

-- a label's name: of such letters, not reserved, and not the one that histograms use
unfoldable pub is_label_name : Text → Bool
is_label_name l =
    not (is_nil l)
    && all is_plain_byte l
    && not (has_prefix l (codes "__"))
    && not (l == codes "le")

-- no label stands twice
unfoldable pub distinct : List Text → Bool
distinct [] = true
distinct (l ∷ ls) = not (contains ls l) && distinct ls

-- what makes a valid descriptor for certain: a name, and label names that are valid and differ
unfoldable pub is_valid : Metric → Bool
is_valid m =
    not (is_nil m.name)
    && all is_plain_byte m.name
    && all is_label_name m.labels
    && distinct m.labels

-- A registry for the metrics of one namespace and subsystem: MustRegister, and whether a name is taken.
-- It accepts a metric with a valid descriptor whose name is not yet taken.
pub record MetricsRegistry : Type 1 where
  pub Registry : Type 0
  pub new_registry : Registry
  pub must_register : Metric → Registry → Option Registry
  pub has : Registry → Text → Bool
  pub has-new : (n : Text) → has new_registry n ≡ false
  pub accepts :
      (m : Metric) (r : Registry)
      → is_valid m ≡ true
      → has r m.name ≡ false
      → is_some (must_register m r) ≡ true
  pub has-register :
      (m : Metric) (r r' : Registry) (n : Text)
      → must_register m r ≡ some r'
      → has r' n ≡ contains (m.name ∷ []) n || has r n

module _ (registry : MetricsRegistry) where
  open registry use {Registry, new_registry, must_register}

  unfoldable pub register_each : List Metric → Registry → Option Registry
  register_each [] r = some r
  register_each (m ∷ ms) r = do r' ← must_register m r; register_each ms r'

  -- initializeMetrics, on the registry that NewPrometheusMetrics makes; `none` is a panic
  unfoldable pub initialize_metrics : Option Registry
  initialize_metrics = register_each initial_metrics new_registry
