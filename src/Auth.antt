-- ===== src/Auth.antt =====
-- The Auth Service (services/auth_service/app).
pub mod Model
pub mod Action
pub mod Repo
pub mod Fields
pub mod Service
pub mod Access
pub mod Rotation
pub mod Reuse
pub mod SignIn
pub mod Issue
pub mod Redemption
pub mod PasswordChange
pub mod AccessTokens
pub mod Lockout
pub mod Account
pub mod Store
pub mod Request
pub mod Tests
