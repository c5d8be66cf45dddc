-- ===== src/Tests.antt =====
-- Concrete runs of the development's theorems, by the parts of the program.
pub mod Sample
pub mod Wire
pub mod Handles
pub mod Bridge
pub mod Host
pub mod Api
pub mod Speech
pub mod Cli
pub mod Callbacks
pub mod Launch
pub mod Threads
pub mod Session
pub mod Daemon
