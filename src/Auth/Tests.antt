-- ===== src/Auth/Tests.antt =====
-- Tests of the Auth Service's theorems at a small database.
pub mod Data
mod Sessions
mod Tokens
mod Passwords
mod Accounts
mod Stores
