-- ===== src/Ai/Generation.antt =====
-- agents/shared/workflow/nodes.py: the answer of the model, asked for again until it is valid.
pub mod Types
pub mod Loop
pub mod Node
pub mod Ending
pub mod Reuse
pub mod Stored
pub mod Served
