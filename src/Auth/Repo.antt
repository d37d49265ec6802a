-- ===== src/Auth/Repo.antt =====
-- The repositories (app/repositories): the statements that they send, and how they fail.
pub mod Refresh
pub mod Resets
pub mod Verifications
pub mod Users
pub mod Sessions
pub mod Rows
