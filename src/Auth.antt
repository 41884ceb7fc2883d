-- ===== src/Auth.antt =====
-- Accounts and sessions: internal/httpapi/auth.go, internal/auth/password.go and random.go, and
-- the lifetimes of internal/auth/token.go.
pub mod Platform
pub mod Validate
pub mod Accounts
pub mod Login
pub mod Reset
pub mod Guarded
pub mod Statements
pub mod Kept
pub mod Calls
pub mod Suspended
pub mod OneUse
pub mod Rotation
pub mod Links
pub mod Hashed
pub mod ResetDone
pub mod Steps
pub mod Confirmed
pub mod Welcome
pub mod Registered
pub mod LoggedIn
mod Tests
mod WelcomeTests
