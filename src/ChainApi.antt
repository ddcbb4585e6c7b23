-- ===== src/ChainApi.antt =====
-- src/chain_api: the HTTP side of the router, which proxies nodeos's chain API to a fleet of APIs.
pub mod Route
pub mod View
pub mod Plan
pub mod Attempt
pub mod Attempts
mod Tests
