-- ===== src/Ai.antt =====
-- The AI service (services/ai_service/app).
pub mod Json
pub mod Sections
pub mod Estimate
pub mod Allocation
pub mod Occurrences
pub mod Fairness
pub mod Merging
pub mod Children
pub mod Nests
pub mod Cache
pub mod Tokens
pub mod Generation
pub mod Client
pub mod Models
pub mod Workflow
mod Tests
