-- ===== src/Chat.antt =====
-- Conversations between a listing's owner and a student: internal/httpapi/conversations.go,
-- messages.go, offers.go and notifications.go, and the queries of conversations.sql and
-- offers.sql that they run.
pub mod Queries
pub mod UpdateQueries
pub mod Offered
pub mod Notify
pub mod Messages
pub mod Conversations
pub mod Offers
pub mod Ruled
pub mod Rules
pub mod Updates
pub mod Kept
pub mod OffersKept
pub mod Calls
pub mod Sealed
pub mod Address
pub mod Reveal
pub mod MakeOffer
mod Tests
