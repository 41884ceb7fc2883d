-- ===== src/Listing.antt =====
-- A listing and its edits: internal/httpapi/listings_validate.go and listings_write.go.
pub mod Rows
pub mod Validate
pub mod Update
pub mod Merge
pub mod Status
pub mod Lifecycle
pub mod Moves
pub mod Calls
mod Tests
