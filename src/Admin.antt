-- ===== src/Admin.antt =====
-- The admin actions of internal/db: audit.go, accounts.go, roles.go and posts.go, and the handlers
-- of internal/httpapi/admin_accounts.go and admin_posts.go that run them.
pub mod Audit
pub mod Actions
pub mod Posts
pub mod Ledger
pub mod Accounts
pub mod RoleChange
pub mod Effects
pub mod LastAdmin
pub mod Takedown
pub mod PostEffects
pub mod Calls
pub mod History
pub mod Runs
pub mod Tests
mod PostTests
