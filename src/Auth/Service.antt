-- ===== src/Auth/Service.antt =====
-- The use cases (app/services).
pub mod Jwt
pub mod Verification
pub mod Session
pub mod Reset
pub mod Password
pub mod Account
pub mod Admin
pub mod State
pub mod Seed
