-- ===== src/SlWifiConn.antt =====
-- slwificonn.c: the Wi-Fi connection manager, in one child module for each of its parts.
pub mod Types
pub mod Effects
pub mod Profile
pub mod Nwp
pub mod Deferred
pub mod Stats
pub mod Enter
pub mod States
pub mod Machine
pub mod Handlers
pub mod Api
pub mod Quiet
pub mod Watchdog
pub mod Watched
pub mod AddProfile
pub mod Init
pub mod Moves
pub mod Processed
pub mod Reach
pub mod Started
pub mod Backoff
pub mod Diagram
pub mod Transitions
pub mod Followed
pub mod Disabled
pub mod Fifo
pub mod RoundTrip
pub mod Paused
pub mod Guards
pub mod Supervised
pub mod Sample
pub mod Tests
