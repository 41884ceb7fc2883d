-- ===== src/Request.antt =====
-- A housing request and its edits: internal/httpapi/requests_write.go.
pub mod Rows
pub mod Update
pub mod Merge
mod Tests
