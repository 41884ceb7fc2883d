-- ===== src/Store.antt =====
-- The database as the modelled code sees it: tables of rows under their primary keys, the
-- queries of internal/db/queries that the modelled code calls, and a connection that may fail.
pub mod Table
pub mod AtKey
pub mod Rows
pub mod Conn
pub mod Queries
pub mod Calm
pub mod Hoare
pub mod Invariants
pub mod Sessions
pub mod AccountQueries
