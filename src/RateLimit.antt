-- ===== src/RateLimit.antt =====
-- The token-bucket limiter of internal/ratelimit/ratelimit.go, over any type of keys with a
-- decidable equality.
--
-- A `time.Time` and a `time.Duration` are numbers of nanoseconds; the clock's reading `l.now()`
-- is an argument. A negative `Burst` or `Window` takes the branch that 0 takes. The map is an
-- association list. An element of the recency list is named by its key: a key is pushed only
-- when the map does not hold it, and both are dropped together.
pub mod Float
pub mod Assoc
pub mod Bucket
pub mod Limiter
pub mod Bounded
pub mod Fetch
pub mod Keeps
pub mod PerKey
pub mod Calls
pub mod Capped
pub mod Tokens
pub mod Exact
mod Tests
pub mod Policy
pub mod Middleware
pub mod Gate
pub mod Backstop
mod BackstopTests
