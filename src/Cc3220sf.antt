-- ===== src/Cc3220sf.antt =====
-- drivers/network/wlan/cc3220sf/cc3220sf.c: the driver of the Wi-Fi device, in one child module for
-- each of its parts.
pub mod Types
pub mod Run
pub mod Events
pub mod States
pub mod Serving
pub mod Ops
pub mod Handlers
pub mod Start
pub mod After
pub mod Diagram
pub mod Served
pub mod Moves
pub mod Steps
pub mod Quiet
pub mod Reach
pub mod Timeouts
pub mod Recovery
pub mod FatalErrors
pub mod StaleIp
pub mod Requests
pub mod Reboot
pub mod Sample
mod Tests
