-- ===== src/Queue/Transports.antt =====
-- How queued jobs come to the sender: internal/queues/queueSync.go, a buffered Go channel, and
-- internal/queues/queueRedis.go, two Redis lists that several nodes share. A Redis command is one step;
-- whether it fails is a parameter, and so are the JSON encoder and decoder of a job. What the log fields
-- of the states keep is nowhere in the program.
pub mod Order
pub mod Counting
pub mod Keeping
use pusher.Prelude.{
  ℕ, ◌≡◌, Bool, true, false, Option, none, some, List, [], ◌∷◌, ◌++◌, if◌then◌else◌, ltb, length,
  Text, contains, ◌==◌,
}
use pusher.Queue.{QueuedJobData}

-- SyncQueue: the channel with the oldest job first; the logs of what came in and of what went to
-- sendWebhook
pub record SyncQueue : Type 0 where
  pub incoming : List QueuedJobData
  pub added : List QueuedJobData
  pub sent : List QueuedJobData

abbrev pub capacity : ℕ
capacity = 100

abbrev pub empty_channel : SyncQueue
empty_channel = record { incoming = []; added = []; sent = [] }

-- addToQueue; `none` is that it blocks on the full channel
unfoldable pub add_to_channel : QueuedJobData → SyncQueue → Option SyncQueue
add_to_channel job q =
    if ltb (length q.incoming) capacity
    then some (record q { incoming = q.incoming ++ job ∷ []; added = q.added ++ job ∷ [] })
    else none

-- one round of monitorQueue; `none` is that it waits
unfoldable pub monitor_channel : SyncQueue → Option SyncQueue
monitor_channel q = elim q.incoming [
  | [] ↦ none
  | job ∷ rest ↦ some (record q { incoming = rest; sent = q.sent ++ job ∷ [] })
]

-- the loop of Shutdown ends
unfoldable pub is_drained : SyncQueue → Bool
is_drained q = elim q.incoming [ [] ↦ true | job ∷ rest ↦ false ]

-- The Redis lists, from the left, and the events that nodes have in hand, each between its fetch and its
-- removal. The logs: what was pushed, fetched, processed and removed, and what stays in the working list
-- without a node that has it in hand.
pub record RedisQueue : Type 0 where
  pub queue : List Text
  pub working : List Text
  pub in_hand : List Text
  pub added : List Text
  pub fetched : List Text
  pub processed : List Text
  pub removed : List Text
  pub left : List Text

abbrev pub empty_lists : RedisQueue
empty_lists = record {
  queue = [];
  working = [];
  in_hand = [];
  added = [];
  fetched = [];
  processed = [];
  removed = [];
  left = [];
}

-- addToQueue, with LPUSH; an event that cannot be encoded or pushed is dropped
unfoldable pub add_to_queue :
    (QueuedJobData → Option Text) → Bool → QueuedJobData → RedisQueue → RedisQueue
add_to_queue encode pushes job q = elim (encode job) [
  | none ↦ q
  | some e ↦ if pushes then record q { queue = e ∷ q.queue; added = q.added ++ e ∷ [] } else q
]

-- the rightmost entry
unfoldable pub pop_last : List Text → Option (List Text × Text)
pop_last [] = none
pop_last (e ∷ es) = elim (pop_last es) [
  | none ↦ some ([], e)
  | some (rest, last) ↦ some (e ∷ rest, last)
]

-- BRPopLPush of monitorQueue; `none` is that the list stays empty for the timeout
unfoldable pub fetch : RedisQueue → Option RedisQueue
fetch q = elim (pop_last q.queue) [
  | none ↦ none
  | some (rest, e) ↦ some (record q {
    queue = rest;
    working = e ∷ q.working;
    in_hand = e ∷ q.in_hand;
    fetched = q.fetched ++ e ∷ [];
  })
]

-- LRem with the count 1
unfoldable pub remove_one : Text → List Text → List Text
remove_one e [] = []
remove_one e (x ∷ xs) = let rest = remove_one e xs in if x == e then xs else x ∷ rest

-- removeEventFromQueue; an event whose removal fails is let go
unfoldable pub remove_event_from_queue : Bool → Text → RedisQueue → RedisQueue
remove_event_from_queue removes e q =
    if removes
    then record q {
      working = remove_one e q.working;
      in_hand = remove_one e q.in_hand;
      removed = q.removed ++ e ∷ [];
    }
    else record q { in_hand = remove_one e q.in_hand; left = e ∷ q.left }

-- processEvent: what goes to sendWebhook, if the event can be decoded, and the removal in any case
unfoldable pub process_event :
    (Text → Option QueuedJobData) → Bool → Text → RedisQueue → RedisQueue × Option QueuedJobData
process_event decode removes e q =
    (remove_event_from_queue removes e (record q { processed = q.processed ++ e ∷ [] }), decode e)

-- not a call of the program: the process of a node ends while it has the event in hand
unfoldable pub stop : Text → RedisQueue → RedisQueue
stop e q = record q { in_hand = remove_one e q.in_hand; left = e ∷ q.left }

-- Shutdown ends
unfoldable pub has_finished : RedisQueue → Bool
has_finished q = elim q.working [ [] ↦ true | e ∷ rest ↦ false ]
