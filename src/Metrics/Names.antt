-- ===== src/Metrics/Names.antt =====
-- The metrics that internal/metrics/metricPrometheus.go registers have names of their own.
use pusher.Prelude.{
  ◌≡◌, refl, ◌∙◌, Bool, true, false, ◌&&◌, ◌||◌, not, some, List, [], ◌∷◌, arith, all, Text,
  contains, has_prefix, ◌==◌, eq_iff, eq_refl, Option-cases, inl, inr,
}
use pusher.Metrics.Setup.{
  Metric, MetricsRegistry, is_valid, is_label_name, distinct, initial_metrics, register_each,
  initialize_metrics,
}

pub names : List Metric → List Text
names [] = []
names (m ∷ ms) = m.name ∷ names ms

-- no name stands twice
distinct_names : List Metric → Bool
distinct_names [] = true
distinct_names (m ∷ ms) = not (contains (names ms) m.name) && distinct_names ms

initial_metrics_valid : all is_valid initial_metrics ≡ true
unfolding is_valid is_label_name distinct has_prefix contains initial_metrics all ◌==◌
initial_metrics_valid = refl

initial_metrics_distinct : distinct_names initial_metrics ≡ true
unfolding distinct_names names contains initial_metrics ◌==◌
initial_metrics_distinct = refl

module _ (registry : MetricsRegistry) where
  open registry use {Registry, new_registry, must_register, has, accepts, has-register, has-new}

  register_each_lem :
      (ms : List Metric) (r : Registry)
      → all is_valid ms ≡ true
      → distinct_names ms ≡ true
      → ((n : Text) → contains (names ms) n ≡ true → has r n ≡ false)
      → (r' : Registry) × (register_each registry ms r ≡ some r')
        × ((n : Text) → has r' n ≡ (contains (names ms) n || has r n))
  unfolding register_each all distinct_names names contains
  register_each_lem [] r plain distinct free = (r, refl, λ n. refl)
  register_each_lem (m ∷ ms) r plain distinct free =
      let ok : is_valid m ≡ true = ground (arith, plain) in
      let fresh : has r m.name ≡ false = free m.name (ground (arith, eq_refl m.name)) in
      elim (Option-cases (must_register m r)) [
        | inl e ↦ absurd (ground (arith, e, accepts m r ok fresh))
        | inr (r1, e) ↦
            let next = λ (n : Text). has-register m r r1 n e in
            let (r', run, h) =
              register_each_lem ms r1 (ground (arith, plain)) (ground (arith, distinct)) (λ n c.
                ground (arith, next n, free n, c, distinct, eq_iff m.name n, eq_iff n m.name)) in
            (r', rw (register_each, e) run, λ n. ground (arith, h n, next n))
      ]

  -- Setting up the metrics never panics on a registry that accepts what has a valid descriptor and a name
  -- not yet taken: all of the metrics have a name of their own and valid label names that differ.
  -- Afterwards the registry has exactly the names of the list.
  pub initialize_metrics_lem :
      (r : Registry) × (initialize_metrics registry ≡ some r)
      × ((n : Text) → has r n ≡ contains (names initial_metrics) n)
  unfolding initialize_metrics
  initialize_metrics_lem =
      let (r, run, h) =
        register_each_lem initial_metrics new_registry initial_metrics_valid
          initial_metrics_distinct (λ n c. has-new n) in
      (r, run, λ n. h n ∙ missing (names initial_metrics) n (has-new n))
    where
      missing :
          (taken : List Text) (n : Text)
          → has new_registry n ≡ false
          → (contains taken n || has new_registry n) ≡ contains taken n
      missing taken n e = ground (arith, e)
