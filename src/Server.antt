-- ===== src/Server.antt =====
-- internal/server.go: how a server is put together from its configuration, and what its shutdown waits
-- for. The SNS client is the library's: a parameter says whether it loads. Starting the HTTP servers, the
-- signals and the metrics are left out.
pub mod Starting
pub mod Shutdown
use pusher.Prelude.{
  Bool, true, false, ◌&&◌, ◌||◌, not, Option, none, some, List, [], ◌∷◌, if◌then◌else◌, Text, ◌==◌,
  ◌>>=◌,
}
use pusher.Config.{ServerConfig, redis_driver, listed}
use pusher.Queue.{QueuedJobData}
use pusher.Queue.Transports.{SyncQueue, add_to_channel, monitor_channel, is_drained}
use pusher.Registry
use pusher.Registry.{Registry}

-- which of its two implementations a component has
pub data Backend : Type 0 where
  in_process in_redis : Backend

-- whether the Redis client is there
abbrev pub has_client : Option Bool → Bool
has_client none = false
has_client (some client) = client

-- loadAdapter, loadQueueManager and loadCacheManager by the name of the driver: any name but `redis`
-- gives the local one; `none` is an error, of the nil instance or of the nil client
unfoldable pub load_backend : Text → ServerConfig → Option Backend
load_backend driver conf =
    if driver == redis_driver
    then if has_client conf.redis_instance then some in_redis else none
    else some in_process

-- loadAppManager: every name gives the array manager
unfoldable pub load_app_manager : ServerConfig → Option Registry
load_app_manager conf =
    let (r, error) = Registry.init (listed conf.applications) in if error then none else some r

pub record Server : Type 0 where
  pub adapter : Backend
  pub app_manager : Registry
  pub cache_manager : Backend
  pub queue_manager : Backend
  pub closing : Bool

-- NewServer
unfoldable pub new_server : Bool → Option ServerConfig → Option Server
new_server sns_loads none = none
new_server sns_loads (some conf) = do
  apps_are_set ← conf.applications
  adapter ← load_backend conf.adapter_driver conf
  apps ← load_app_manager conf
  cache ← load_backend conf.channel_cache_driver conf
  if sns_loads
      then (do
        queue ← load_backend conf.queue_driver conf
        some (record {
          adapter = adapter;
          app_manager = apps;
          cache_manager = cache;
          queue_manager = queue;
          closing = false;
        }))
      else none

-- What attemptGracefulShutdown starts and waits for, with the local queue: the channel of jobs; whether
-- the context is cancelled, monitorQueue still runs, CloseAllLocalSockets is done, and the Shutdown of the
-- queue has found the channel empty.
pub record Closing : Type 0 where
  pub queue : SyncQueue
  pub cancelled : Bool
  pub monitoring : Bool
  pub sockets_closed : Bool
  pub drained : Bool

unfoldable pub begin_shutdown : SyncQueue → Closing
begin_shutdown q = record {
  queue = q;
  cancelled = false;
  monitoring = true;
  sockets_closed = false;
  drained = false;
}

-- cancel(), which does not wait for anything
unfoldable pub cancel : Closing → Closing
cancel s = record s { cancelled = true }

-- The goroutine that closes the sockets is done. The events that this causes wait in the timers of the
-- flap detector first; each comes into the channel later, as a step of its own.
unfoldable pub close_sockets : Closing → Closing
close_sockets s = record s { sockets_closed = true }

abbrev pub on_queue : Closing → Option SyncQueue → Option Closing
on_queue s none = none
on_queue s (some q) = some (record s { queue = q })

-- a job that another goroutine adds; `none` is that it waits
unfoldable pub add_job : QueuedJobData → Closing → Option Closing
add_job job s = on_queue s (add_to_channel job s.queue)

-- the two cases of the select in monitorQueue: a job, or the end of the context
unfoldable pub monitor_job : Closing → Option Closing
monitor_job s = if s.monitoring then on_queue s (monitor_channel s.queue) else none

unfoldable pub stop_monitor : Closing → Option Closing
stop_monitor s =
    if s.monitoring && s.cancelled then some (record s { monitoring = false }) else none

-- the goroutine that shuts the queue down, once the sockets are closed
unfoldable pub shutdown_queue : Closing → Option Closing
shutdown_queue s =
    if s.sockets_closed && is_drained s.queue then some (record s { drained = true }) else none
