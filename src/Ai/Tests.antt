-- ===== src/Ai/Tests.antt =====
-- Concrete runs of the AI service.
pub mod Table
pub mod Payloads
pub mod Caching
mod Calls
mod Catalog
mod Requests
mod Runs
