-- ===== src/Pool.antt =====
-- src/tunnel/server.rs: the pools that lend VPN addresses to clients. A client is an endpoint id of the
-- crate `iroh`, of which the pools use only equality, with a device id.
pub mod History
pub mod V4
pub mod V6
