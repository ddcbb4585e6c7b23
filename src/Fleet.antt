-- ===== src/Fleet.antt =====
-- src/fleet: the listener's view of its upstreams, and the planner over it.
pub mod Coverage
pub mod Upstream
pub mod View
pub mod Tip
pub mod Canonical
pub mod Sticky
pub mod Build
pub mod Segments
pub mod Request
pub mod Eligible
pub mod Run
pub mod Planner
pub mod Pool
pub mod Tests
