-- ===== src/Host.antt =====
-- The native library of the host, host/: its callback table, its connection to the bridge, the start of the
-- bridge, and the ECI interface.
pub mod Callback
pub mod Connection
pub mod Api
pub mod Launch
