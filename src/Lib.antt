-- ===== src/Lib.antt =====
-- A model of a Pusher-compatible WebSocket server written in Go, with proofs.
--
-- Clients connect over WebSockets, each to one app, and subscribe to channels of that app. The server
-- relays events among the connections of a channel, keeps the members of presence channels, and tells
-- the app's owner by webhooks what happens. A connection (internal/websocket.go) acts on an adapter,
-- which has one namespace for each app and may ask other nodes; on a cache, which holds the last event
-- of a cache channel; and on the webhook queue, in front of which the flap detector cancels pairs of
-- opposite events.
--
-- ChannelName: the predicates and validators of names in internal/util/utils.go.
-- App: the settings of an app and their defaults, internal/apps/app.go.
-- Channel: CreateChannelFromString of internal/channels.go.
-- Socket: type WebSocket of internal/websocket.go, and the shared objects. A pointer is a number (Ref)
--   and a Heap leads from it to the object.
-- Namespace: internal/namespace.go, one function for each method.
-- LocalAdapter: internal/adaptersLocal.go, one function for each method, and the channel gauges.
-- FlapDetector: internal/queues/flapDetector.go. Calls and timers are steps that may come in any order.
-- Queue: internal/queues/queueAbstract.go, and Send of internal/webhooks/webhooks.go.
--   Queue.Transports: internal/queues/queueSync.go and internal/queues/queueRedis.go, which take the jobs
--   from there to the sender.
-- Webhooks: the senders of internal/webhooks/http.go and internal/webhooks/sns.go.
-- Cache: internal/cache/localCache.go and the channel key of internal/cache/cache.go. Cache.Redis:
--   internal/cache/redisCache.go, which has the same interface, over the commands of Redis.
--   Cache.Calls: that interface as calls at given times.
-- Auth: tokens, request times and signed requests, of internal/util/utils.go,
--   internal/util/signature.go and internal/websocket.go.
-- Session: the handlers of internal/websocket.go, and Join and Leave of internal/channels.go, as
--   functions on a World: the objects, the adapter, the cache, the detector and the frames written so far.
--   Session.Listening is the read loop that calls them.
-- Registry: the apps of the configuration, internal/appManagerArray.go.
-- Serve: how a connection comes to be, internal/serve.go.
-- Api: the HTTP API. Api.Events: events that the app's own server triggers, internal/apiEvents.go.
--   Api.Channels: what it is told of channels and users, internal/apiChannels.go. Api.Guards: the
--   middlewares that refuse a request, internal/httpMiddlewares.go. Api.Routes: what LoadWebServer of
--   internal/serve.go routes to them.
-- Horizontal: several nodes that ask one another and pass events on, internal/adaptersHorizontal.go and
--   internal/adaptersRedis.go. Horizontal.Queries has the queries, Horizontal.Answering what a node
--   answers, Horizontal.Relay the events, and Horizontal.Storm the requests to terminate connections,
--   which reach all nodes, and what each node does with one, with what getNumSub gives as a parameter.
-- Config: what internal/config/config.go makes of the settings that were read.
-- Server: internal/server.go. How a server is put together from its configuration, and as steps in any
--   order what its shutdown does while the jobs of the local queue are still being sent. That the sockets
--   are closed is a flag there; the events that this causes come later, from the flap detector's timers.
-- Metrics: internal/metrics/metricPrometheus.go. Metrics.Setup lists what is registered.
-- Prelude: the shared names. Go strings are lists of bytes (Text), slices are lists, and maps are
--   association lists in which `put` replaces.
-- Tests: runs on small inputs.
--
-- Names are those of the source in lower case with underscores: AddToChannel is add_to_channel, and its
-- receiver is the last argument. Get is left out of GetX. A method that runs under a mutex is one step;
-- the handlers of one connection run as if no other handler ran between their steps. A panic is `none`:
-- for slices made with a negative capacity and for the nil pointers and nil maps that the handlers use.
-- Nothing needs fuel: all loops run over lists. A Go int or int64 setting is a ℤ; counts and lengths are
-- ℕ and stay far below 2 ^ 63; checkTimestamp, where a client chooses the number, is modelled with its
-- wrap-around. A map's iteration order is that of its list.
--
-- Parameters stand for what the repository takes from elsewhere: HMAC-SHA256, and the JSON decoder at
-- each type that is decoded (Session.World.Codec). Which connections can be written to and closed, and
-- the clock, are fields of the World. A query over several nodes takes what getNumSub returns and the
-- arrivals of its request, answers or the timer, in the order of the network. The upgrade of a request
-- to a WebSocket, what the HTTP and SNS clients answer, the random socket id, the encoding of an event and the case of letters are parameters too.
--
-- The getters of viper, the commands of Redis, the registry of Prometheus and the router of the HTTP
-- server are parameters; the last three are records with the laws that the code relies on. That of
-- Redis leaves open what it gives near the end of a time to live, and that of the registry promises to
-- accept only what has a valid descriptor: a name, and label names that are valid and differ.
--
-- Not modelled: the logging middleware of the HTTP server, the read deadlines, the Redis
-- transport and the table of open requests of the horizontal adapter, the start of the Redis client,
-- the signals and the HTTP servers of the server's life cycle, the reading of flags,
-- files and the environment, the printing of metrics, and logging. These are wiring, I/O or calls of
-- libraries. The functions on a World leave the metrics out.
pub mod Prelude
pub mod ChannelName
pub mod App
pub mod Channel
pub mod Socket
pub mod Namespace
pub mod LocalAdapter
pub mod FlapDetector
pub mod Queue
pub mod Cache
pub mod Auth
pub mod Horizontal
pub mod Registry
pub mod Serve
pub mod Api
pub mod Session
pub mod Config
pub mod Server
pub mod Tests
pub mod Metrics
pub mod Webhooks
