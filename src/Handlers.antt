-- ===== src/Handlers.antt =====
-- The admin handlers of internal/httpapi: admin_guard.go, admin_accounts.go and admin_posts.go.
pub mod Replies
pub mod AdminAccounts
pub mod AdminPosts
pub mod Reads
pub mod Safe
pub mod SafePosts
pub mod Requests
mod Tests
