-- ===== src/Ai/Workflow.antt =====
-- agents/shared/workflow: what follows the answer of the model.
pub mod Types
pub mod Messages
pub mod Modules
pub mod Pipeline
pub mod Rollback
pub mod Cancelling
pub mod Stream
pub mod Streaming
pub mod Accounting
pub mod Completion
