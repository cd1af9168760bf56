-- ===== src/Protocol.antt =====
-- pyxxl/protocol: how the executor and the admins talk to each other.
pub mod Admin
pub mod Failover
pub mod Server
pub mod Serving
mod Examples
