-- ===== src/Tests/Queues.antt =====
-- One webhook job in each of the two transports.
use pusher.Prelude.{
  ◌+◌, ◌≤◌, ◌≡◌, ◌⊎◌, refl, true, false, Option, some, [], ◌∷◌, ◌++◌, length, Text, codes,
}
use pusher.Queue.{QueuedJobData}
use pusher.Queue.Transports.{
  SyncQueue, RedisQueue, capacity, add_to_channel, is_drained, empty_lists, add_to_queue, fetch,
  pop_last,
}
use pusher.Queue.Transports.Counting.{count, backwards}
use pusher.Queue.Transports.Keeping.{ReachesRedis, redis_queue_keeps}
use pusher.Queue.Transports.Order.{ReachesSync, sync_queue_in_order}
use pusher.Tests.Data.{room, webhook, shop}

abbrev pub job : QueuedJobData
job = record {
  webhook = webhook;
  payload = record {
    name = codes "client_event";
    channel = room;
    body = [];
    socket_id = [];
    user_id = [];
  };
  app_id = shop.id;
  app_key = shop.key;
  app_secret = shop.secret;
}

abbrev pub one_waits : SyncQueue
one_waits = record { incoming = job ∷ []; added = job ∷ []; sent = [] }

sync_queue_in_order_example :
    (length one_waits.incoming ≤ capacity)
    × (one_waits.sent ++ one_waits.incoming ≡ one_waits.added)
    × ((is_drained one_waits ≡ false) ⊎ (one_waits.sent ≡ one_waits.added))
unfolding add_to_channel
sync_queue_in_order_example =
    sync_queue_in_order one_waits (ReachesSync.adds job ReachesSync.start refl)

abbrev encode : QueuedJobData → Option Text
encode j = some j.payload.channel

abbrev decode : Text → Option QueuedJobData
decode t = some job

abbrev pushed : RedisQueue
pushed = record empty_lists { queue = room ∷ []; added = room ∷ [] }

abbrev fetched : RedisQueue
fetched = record empty_lists {
  added = room ∷ [];
  working = room ∷ [];
  in_hand = room ∷ [];
  fetched = room ∷ [];
}

pushed_reached : ReachesRedis encode decode pushed
unfolding add_to_queue
pushed_reached = ReachesRedis.adds true job ReachesRedis.start

redis_queue_keeps_example :
    (count room fetched.added
      ≡ count room fetched.queue + count room fetched.working + count room fetched.removed)
    × (count room fetched.working ≡ count room fetched.in_hand + count room fetched.left)
    × (count room fetched.removed ≤ count room fetched.processed)
    × (fetched.fetched ++ backwards fetched.queue ≡ fetched.added)
unfolding fetch pop_last
redis_queue_keeps_example =
    redis_queue_keeps encode decode fetched room (ReachesRedis.fetches pushed_reached refl)
