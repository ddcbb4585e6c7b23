-- ===== src/Session.antt =====
-- src/session: the rules of a client session that do not touch a socket.
pub mod Failover
pub mod Ring
pub mod Pending
pub mod Mirror
pub mod Link
pub mod Judge
pub mod Status
pub mod Outgoing
pub mod Lockstep
mod Tests
