-- ===== src/Tcp.antt =====
-- wolf/src/stream/tcp and wolf/src/stream/common/tls.rs.
pub mod Tls
pub mod Native
pub mod WebSocket
pub mod Server
pub mod Fiber
pub mod Client
mod Examples
