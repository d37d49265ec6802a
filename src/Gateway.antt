-- ===== src/Gateway.antt =====
-- The gateway (services/gateway/app): the session guard and the proxy.
pub mod Types
pub mod Retry
pub mod Attempts
pub mod Header
pub mod Scheme
pub mod Paths
pub mod Cache
pub mod Client
pub mod Guard
pub mod Proxy
pub mod Forwarding
pub mod Admission
pub mod Expiry
pub mod Staleness
pub mod Blocked
pub mod Tests
