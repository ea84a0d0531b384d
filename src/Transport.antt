-- ===== src/Transport.antt =====
-- src/transport: the paths of the client's connection.
pub mod PathSelector
