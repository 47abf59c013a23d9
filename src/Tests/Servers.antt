-- ===== src/Tests/Servers.antt =====
-- A server of one app on the local drivers, and its shutdown with a job in the queue.
use pusher.Prelude.{◌≡◌, refl, true, false, none, some, [], ◌∷◌, if◌then◌else◌, codes, ◌==◌, pos}
use pusher.Config.{
  ServerConfig, Viper, applications_of, single_app, needs_redis, initialize_server_config,
}
use pusher.Queue.Transports.{add_to_channel, monitor_channel, is_drained}
use pusher.Queue.Transports.Order.{ReachesSync}
use pusher.Server.{
  Server, Closing, begin_shutdown, cancel, close_sockets, new_server, stop_monitor, monitor_job,
}
use pusher.Server.Shutdown.{Step, Steps, Stranded, stopped_monitor_strands}
use pusher.Server.Starting.{Runs, new_server-Runs}
use pusher.Tests.Queues.{job, one_waits}

-- one key is set, and all numbers are 0
abbrev viper : Viper
viper = record {
  get_string = λ k. if k == codes "app_id" then codes "7" else [];
  get_int = λ k. pos 0;
  get_bool = λ k. false;
}

abbrev read : ServerConfig
read = record {
  env = codes "production";
  port = codes "6001";
  bind_address = codes "0.0.0.0";
  app_manager = codes "array";
  adapter_driver = codes "redis";
  queue_driver = codes "local";
  channel_cache_driver = codes "memory";
  using_redis = false;
  redis_instance = none;
  redis_prefix = codes "pusher";
  log_level = codes "warn";
  redis_url = codes "localhost:6379";
  redis_tls = false;
  redis_cluster_mode = false;
  ignore_logger_middleware = false;
  metrics_enabled = false;
  metrics_port = codes "6002";
  applications = none;
}

cfg : (c : ServerConfig) × (initialize_server_config viper true (some read) ≡ some c)
unfolding initialize_server_config applications_of single_app ◌==◌ needs_redis
cfg = (_, refl)

new_server-Runs_example : (s : Server) × (new_server true (some cfg.0) ≡ some s) × Runs viper read s
new_server-Runs_example = new_server-Runs viper true read cfg.0 cfg.1

waiting : ReachesSync one_waits
unfolding add_to_channel
waiting = ReachesSync.adds job ReachesSync.start refl

-- the job is taken, and the sockets are closed
abbrev taken : Closing
taken = record (begin_shutdown one_waits) {
  queue = record one_waits { incoming = []; sent = job ∷ [] };
}

abbrev idle : Closing
idle = record taken { sockets_closed = true }

to_taken : Step (begin_shutdown one_waits) taken
unfolding begin_shutdown monitor_job monitor_channel
to_taken = Step.monitors refl

to_idle : Step taken idle
unfolding close_sockets
to_idle = Step.closes

-- the context is cancelled and monitorQueue stops before the job is taken
abbrev stopped : Closing
stopped = record (begin_shutdown one_waits) { cancelled = true; monitoring = false }

stops_early : Steps (begin_shutdown one_waits) stopped
unfolding begin_shutdown cancel stop_monitor
stops_early = Steps.next (Steps.next Steps.stay Step.cancels) (Step.stops refl)

stopped_monitor_strands_example : Stranded stopped (close_sockets stopped)
unfolding is_drained begin_shutdown
stopped_monitor_strands_example =
    stopped_monitor_strands stopped (close_sockets stopped) refl refl
      (Steps.next Steps.stay Step.closes)
