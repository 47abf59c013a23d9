-- ===== src/Tests/Counters.antt =====
-- The metrics after some calls, and a registry that is the list of its names.
use pusher.Prelude.{
  ◌≡◌, refl, true, false, ◌&&◌, ◌||◌, not, Option, none, some, List, [], ◌∷◌, if◌then◌else◌, arith,
  is_some, Text, codes, contains, Bool-cases, inl, inr,
}
use pusher.Api.Events.{ApiMessage}
use pusher.Metrics.Calls.{
  MetricsCall, new_connection, disconnection, api_message, promise, error, after,
}
use pusher.Metrics.Names.{names, initialize_metrics_lem}
use pusher.Metrics.Setup.{Metric, MetricsRegistry, is_valid, initial_metrics, initialize_metrics}
use pusher.Metrics.Totals.{Counted, after-Counted}

abbrev message : ApiMessage
message = record {
  name = codes "greet";
  body = codes "hi";
  channel = codes "room";
  channels = [];
  socket_id = [];
}

abbrev marks : List MetricsCall
marks =
    disconnection
    ∷ error (codes "lost") (codes "7")
    ∷ api_message (codes "7") (some message)
    ∷ promise false
    ∷ disconnection
    ∷ new_connection
    ∷ []

after-Counted_example : Counted marks (after marks)
after-Counted_example = after-Counted marks

register : Metric → List Text → Option (List Text)
register m r = if is_valid m && not (contains r m.name) then some (m.name ∷ r) else none

register-accepts :
    (m : Metric) (r : List Text)
    → is_valid m ≡ true
    → contains r m.name ≡ false
    → is_some (register m r) ≡ true
unfolding register
register-accepts m r p c = ground (arith, p, c)

some_inj : {r s : List Text} → some r ≡ some s → r ≡ s
some_inj e = cc

contains-register :
    (m : Metric) (r r' : List Text) (n : Text)
    → register m r ≡ some r'
    → contains r' n ≡ (contains (m.name ∷ []) n || contains r n)
unfolding register contains
contains-register m r r' n e = elim (Bool-cases (is_valid m && not (contains r m.name))) [
  | inl y ↦
      let is : some (m.name ∷ r) ≡ some r' = ground (arith, e, y) in
      let same : m.name ∷ r ≡ r' = some_inj is in ground (arith, same)
  | inr f ↦ absurd (ground (arith, e, f))
]

contains-nothing : (n : Text) → contains [] n ≡ false
unfolding contains
contains-nothing n = refl

abbrev registry : MetricsRegistry
registry = record {
  Registry = List Text;
  new_registry = [];
  must_register = register;
  has = contains;
  has-new = contains-nothing;
  accepts = register-accepts;
  has-register = contains-register;
}

initialize_metrics_lem_example :
    (r : List Text) × (initialize_metrics registry ≡ some r)
    × ((n : Text) → contains r n ≡ contains (names initial_metrics) n)
initialize_metrics_lem_example = initialize_metrics_lem registry
