-- ===== src/Net.antt =====
-- src/net: the networks of the host, the routes of the client, and the writes to the TUN device.
pub mod BypassRoute
pub mod LocalNetworks
pub mod Routes
pub mod TunWriter
