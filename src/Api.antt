-- ===== src/Api.antt =====
-- The HTTP API: internal/apiEvents.go and internal/apiChannels.go, on the World of the connections.
pub mod Events
pub mod Deliveries
pub mod Triggering
pub mod Replay
pub mod Channels
pub mod Reports
pub mod Guards
pub mod Routes
pub mod Routing
