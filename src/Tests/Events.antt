-- ===== src/Tests/Events.antt =====
-- Webhook events of one app, and the timers of the detector.
use pusher.Prelude.{
  ℕ, ◌+◌, ◌≡◌, refl, Bool, true, List, [], ◌∷◌, eqb, all, Text, codes, ◌==◌, get, put,
}
use pusher.FlapDetector.{
  Detector, init, connect, disconnect, check_for_flapping, steps, check, expires, finishes, armed,
  delay, Step,
}
use pusher.FlapDetector.Silence.{count_jobs, count_armed, cancelled_for_good, opposite_lost}
use pusher.Queue.{
  Job, QueuedJobData, send_member_added, send_member_removed, send_channel_occupied,
  send_channel_vacated, named,
}
use pusher.Queue.Pairs.{Wanted, pairs_suppressed}
use pusher.Tests.Data.{room, alice, shop, webhook}

abbrev key : Text
key = codes "k"

-- numbers in place of events
abbrev on : Detector ℕ
on = init true

-- two events of one type wait on the key
abbrev waiting : Detector ℕ
waiting = check_for_flapping key connect 2 (check_for_flapping key connect 1 on)

abbrev is_first : ℕ → Bool
is_first n = eqb n 1

cancelled_for_good_example :
    count_jobs is_first
      (steps
        (check key disconnect 2 ∷ expires 0 ∷ finishes 0 ∷ [])
        (check_for_flapping key connect 1 on)).dispatched
    ≡ count_jobs is_first (check_for_flapping key connect 1 on).dispatched
unfolding check_for_flapping delay get put ◌==◌ count_armed all
cancelled_for_good_example =
    cancelled_for_good is_first key connect 2 (check_for_flapping key connect 1 on) 0
      (record { key = key; job = 1; status = armed }) (expires 0 ∷ finishes 0 ∷ []) refl refl refl
      refl refl refl refl

opposite_lost_example :
    count_jobs is_first
      (steps
        (expires 0 ∷ check key disconnect 2 ∷ finishes 0 ∷ [])
        (check_for_flapping key connect 1 on)).dispatched
    ≡ count_jobs is_first (check_for_flapping key connect 1 on).dispatched + 1
unfolding check_for_flapping delay get put ◌==◌ count_armed all
opposite_lost_example =
    opposite_lost is_first key connect 2 (check_for_flapping key connect 1 on) 0
      (record { key = key; job = 1; status = armed }) (finishes 0 ∷ []) refl refl refl refl refl
      refl

abbrev job : QueuedJobData
job = record {
  webhook = webhook;
  payload = named (codes "cache_miss") room;
  app_id = shop.id;
  app_key = shop.key;
  app_secret = shop.secret;
}

abbrev quiet : Detector Job
quiet = init true

shop-Wanted : Wanted shop quiet
shop-Wanted = record {
  webhooks = refl;
  joins = refl;
  leaves = refl;
  occupied = refl;
  vacated = refl;
  on = refl;
}

abbrev every : Job → Bool
every j = true

abbrev timers_end : List (Step Job)
timers_end = expires 0 ∷ finishes 0 ∷ []

pairs_suppressed_example :
    (count_jobs every
        (steps timers_end (
          send_member_removed true shop room alice.user_id
            (send_member_added true shop room alice.user_id quiet))).dispatched
      ≡ count_jobs every quiet.dispatched)
    × (count_jobs every
          (steps timers_end (
            send_member_added true shop room alice.user_id
              (send_member_removed true shop room alice.user_id quiet))).dispatched
        ≡ count_jobs every quiet.dispatched)
    × (count_jobs every
          (steps timers_end (
            send_channel_vacated true shop room
              (send_channel_occupied true shop room quiet))).dispatched
        ≡ count_jobs every quiet.dispatched)
unfolding get count_armed all
pairs_suppressed_example =
    pairs_suppressed every shop room alice.user_id quiet timers_end shop-Wanted refl refl refl refl
