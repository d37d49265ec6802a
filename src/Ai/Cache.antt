-- ===== src/Ai/Cache.antt =====
-- app/cache: the cache of generated answers.
pub mod Backing
pub mod Provider
pub mod Manager
pub mod Calls
pub mod Counters
pub mod Promise
pub mod Refinement
pub mod Promised
pub mod Reading
pub mod Segments
pub mod Keys
pub mod Distinct
