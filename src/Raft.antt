-- ===== src/Raft.antt =====
-- wolf/src/system/algorithm/raft: the messages, the converters, the service and the router.
pub mod Messages
pub mod Converter
pub mod Service
pub mod Router
pub mod Cluster
mod Examples
