-- ===== src/Api/Triggering.antt =====
-- Which events internal/apiEvents.go sends, and what becomes of those it refuses.
use pusher.Prelude.{
  ◌≡◌, ◌≢◌, refl, sym, true, false, ◌↔◌, ◌⊎◌, inl, inr, none, some, List, [], ◌∷◌, ◌++◌, arith,
  length, Text, ◌==◌, eq_iff, eq_refl, contains, exceeds, scale, Option-cases, Bool-cases,
}
use mathlib.Core.Path.{subst}
use pusher.App.{App}
use pusher.ChannelName.{valid_channel}
use pusher.Api.Deliveries.{Wrote, deliveries, broadcast_each-Wrote}
use pusher.Session.Events.{IsOpen}
use pusher.Session.World.{World, Frame}
use pusher.Api.Events.{
  ApiMessage, Status, ok, with_channels, all_valid, message_problem, broadcast_message,
  broadcast_each, event_trigger, trigger_each,
}

all_valid-contains :
    (cs : List Text) (app : App) (c : Text)
    → all_valid cs app ≡ true
    → contains cs c ≡ true
    → valid_channel c app.max_channel_name_length ≡ true
unfolding all_valid contains
all_valid-contains [] app c v h = cc
all_valid-contains (d ∷ cs) app c v h = elim (Bool-cases (d == c)) [
  | inl y ↦ ground (arith, v, y, eq_iff d c)
  | inr n ↦ all_valid-contains cs app c (ground (arith, v)) (ground (arith, h, n))
]

all_valid_of :
    (cs : List Text) (app : App)
    → ((c : Text) → contains cs c ≡ true → valid_channel c app.max_channel_name_length ≡ true)
    → all_valid cs app ≡ true
unfolding all_valid contains
all_valid_of [] app v = refl
all_valid_of (d ∷ cs) app v =
    let first = v d (ground (arith, eq_refl d)) in
    let rest = all_valid_of cs app (λ c h. v c (ground (arith, h))) in ground (arith, first, rest)

-- The message is within the app's limits.
pub record IsWithin (app : App) (m : ApiMessage) : Type 0 where
  pub channels :
      (c : Text) → contains m.channels c ≡ true → valid_channel c app.max_channel_name_length ≡ true
  pub number : exceeds (length m.channels) app.max_event_channels_at_once ≡ false
  pub name : exceeds (length m.name) app.max_event_name_length ≡ false
  pub body : exceeds (length m.body) (scale app.max_event_payload_in_kb 1024) ≡ false

message_problem_iff : (app : App) (m : ApiMessage) → (message_problem app m ≡ none) ↔ IsWithin app m
unfolding message_problem
message_problem_iff app m = (
  λ e. record {
    channels = λ c h. all_valid-contains m.channels app c (ground (arith, e)) h;
    number = ground (arith, e);
    name = ground (arith, e);
    body = ground (arith, e);
  },
  λ w. ground (arith, all_valid_of m.channels app w.channels, w.number, w.name, w.body),
)

-- no problem has the status 200
never_ok :
    (app : App) (m : ApiMessage) (st : Status) → message_problem app m ≡ some st → st ≡ ok → ⊥
unfolding message_problem
never_ok app m st e h = ground (arith, e, h)

-- With every connection open: an event that is triggered is answered with 200 exactly if all names of
-- its channels are valid and their number, the event's name and its data are within the app's limits.
-- Then, for each of its channels in turn, the event for that channel is written to the connections of
-- the list that the local adapter's Send gives for it with the excluded id, nothing else is written, and
-- the adapter, the connections and the webhooks stay as they are. Otherwise the answer is another and
-- nothing changes.
pub event_trigger_lem :
    (encode : Frame → Text) (app : App) (form : ApiMessage) (s : World)
    → IsOpen s
    → (((event_trigger encode (some app) (some form) s).1 ≡ ok) ↔ IsWithin app (with_channels form))
      × ((((event_trigger encode (some app) (some form) s).1 ≡ ok)
            × Wrote s
                (event_trigger encode (some app) (some form) s).0
                (deliveries s.adapter app (with_channels form) (with_channels form).channels))
          ⊎ (((event_trigger encode (some app) (some form) s).0 ≡ s)
              × ((event_trigger encode (some app) (some form) s).1 ≢ ok)))
unfolding event_trigger broadcast_message
event_trigger_lem encode app form s o =
    let m = with_channels form in
    let (to, from) = message_problem_iff app m in
    let sent : message_problem app m ≡ none
        → event_trigger encode (some app) (some form) s
          ≡ (broadcast_each encode app m m.channels s, ok) =
      λ e. ground (arith, e) in
    let wrote = broadcast_each-Wrote encode app m m.channels s o in
    elim (Option-cases (message_problem app m)) [
      | inl e ↦ (
        (λ h. to e, λ w. ground (arith, e)),
        inl (
          ground (arith, e),
          subst (λ (p : World × Status). Wrote s p.0 (deliveries s.adapter app m m.channels))
              (sym (sent e)) wrote,
        ),
      )
      | inr (st, e) ↦
          let bad = never_ok app m st e in
          (
            (λ h. absurd (bad (ground (arith, e, h))), λ w. absurd (ground (arith, e, from w))),
            inr (ground (arith, e), λ h. bad (ground (arith, e, h))),
          )
    ]

-- A batch with a message that is refused ends there, with that message's status; the messages before
-- it have been sent all the same, and the later ones are not looked at.
pub trigger_each_stops :
    (encode : Frame → Text) (app : App) (good : List ApiMessage) (bad : ApiMessage)
    (rest : List ApiMessage) (s t : World) (status : Status)
    → trigger_each encode app good s ≡ (t, ok)
    → message_problem app (with_channels bad) ≡ some status
    → trigger_each encode app (good ++ bad ∷ rest) s ≡ (t, status)
unfolding trigger_each
trigger_each_stops encode app [] bad rest s t status e f = ground (arith, e, f)
trigger_each_stops encode app (m ∷ good) bad rest s t status e f =
    elim (Option-cases (message_problem app (with_channels m))) [
      | inl g ↦
          rw (g, trigger_each)
            (trigger_each_stops encode app good bad rest
              (broadcast_message encode app (with_channels m) s) t status (ground (arith, e, g)) f)
      | inr (st, g) ↦ absurd (never_ok app (with_channels m) st g (ground (arith, e, g)))
    ]
