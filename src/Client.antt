-- ===== src/Client.antt =====
-- src/tunnel/client.rs: the reconnect loop and its delays (Reconnect), the addresses that are
-- kept out of the tunnel (Bypass), and what a reconnect may change (Params).
pub mod Reconnect
pub mod Bypass
pub mod Params
pub mod Status
