-- ===== src/Tests.antt =====
-- Runs of the model on small inputs: two connections of one app, in the modules below.
pub mod Data
pub mod Names
pub mod Rooms
pub mod Nodes
pub mod Events
pub mod Caches
pub mod Tokens
pub mod Sessions
pub mod Requests
pub mod Clusters
pub mod Serving
pub mod Triggers
pub mod Signing
pub mod Queues
pub mod Reading
pub mod Counters
pub mod Servers
pub mod Posting
pub mod Routes
