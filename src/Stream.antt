-- ===== src/Stream.antt =====
-- src/tunnel/stream.rs: the frames of the control stream (Control), the sending of datagrams
-- (Batch), and their preparation from a packet of the TUN device (Prepare).
pub mod Control
pub mod Batch
pub mod Prepare
