-- ===== src/Session.antt =====
-- The connections: internal/websocket.go and Join and Leave of internal/channels.go, over the local
-- adapter. World is what the handlers act on; Joining and Leaving are the starts and ends of
-- subscriptions and connections, Requests and Messages the handlers of what a client sends; the other
-- modules prove things of them.
pub mod World
pub mod Joining
pub mod Leaving
pub mod Requests
pub mod Messages
pub mod Steady
pub mod Closing
pub mod Quiet
pub mod Refusals
pub mod Events
pub mod Granted
pub mod Caching
pub mod Listening
pub mod Reading
