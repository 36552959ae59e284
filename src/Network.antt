-- ===== src/Network.antt =====
-- drivers/network/netdevice.c: the table of devices, the event listeners and the TLS certificate.
pub mod Listeners
pub mod Device
pub mod ThreadLaws
pub mod WlanDevice
pub mod Startup
pub mod Certificate
pub mod Escapes
pub mod Tests
pub mod WlanTests
pub mod Worker
