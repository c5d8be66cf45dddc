-- ===== src/Bridge.antt =====
-- The bridge daemon, arm/: the engine that it loads, its clients, and the dispatch of their requests.
pub mod Engine
pub mod Load
pub mod Client
pub mod Reply
pub mod Dispatch
pub mod Server
pub mod Callback
pub mod Paths
pub mod Daemon
