-- ===== src/Lib.antt =====
-- A verification library for the backend of Waterloo Star: the rate limiter and its middleware,
-- the admin actions with their ledger and handlers, the edits and the lifecycle of a listing,
-- accounts with their sessions and links, and conversations with their messages and offers.
--
-- Common: shared names, integers over the native numbers, and texts as lists of code points
-- with strings.TrimSpace.
--
-- RateLimit: internal/ratelimit/ratelimit.go. A limiter is its map of buckets, its recency list
-- and its ceiling (Limiter, in RateLimit/Limiter.antt); New, Allow, Peek, Spend, consult,
-- dropLocked, evictLocked, Tracked and Reset are make, allow, peek, spend, consult,
-- drop_locked, evict_locked, tracked and reset. Each method holds the lock throughout, so it is
-- one step. float64 is a parameter (RateLimit/Float.antt) with the laws of IEEE 754 that the
-- code relies on; RateLimit/Exact.antt fills it with exact numbers. The loop of evictLocked
-- runs on fuel, the length of the recency list and one more: each round drops an element of
-- that list, so the loop ends by itself before. RateLimit/PerKey.antt is the specification, one
-- bucket to a key (step, and for one call the theorem that ties it to consult);
-- RateLimit/Tokens.antt and RateLimit/Capped.antt use it for the answers and for runs of calls;
-- RateLimit/Policy.antt has the rules of internal/ratelimit/policy.go. The middleware of
-- internal/httpapi/ratelimit_mw.go is in RateLimit/Middleware.antt (the routes, matchRoute,
-- routeIdentity, humanWait) and RateLimit/Gate.antt (RateLimit as rate_limit, chargeFailedLogin
-- as charge_failed_login, and the caps of notify as charge_caps); one request is one run on the
-- limiter's state. RateLimit/Backstop.antt is about the service-wide rules. Go's strings, its
-- ToLower and SHA-256 are a parameter (Strings). The conversion of a float64 to a time.Duration
-- is taken to be in range: no wait is 292 years.
--
-- Store: the database. Rows under their primary keys (Store/Table.antt, Store/Rows.antt), the
-- statements of internal/db/sqlcgen that the modelled code runs (Store/Queries.antt), and a
-- connection on which any statement may fail (Store/Conn.antt). A run of a statement reads and
-- writes the whole database at once; concurrent transactions are not modelled. A connection
-- also has the time, the random draws, the emails that left, and the faults to come; the
-- program and the database read one clock. Store/Sessions.antt and Store/AccountQueries.antt
-- have the statements of tokens and accounts. Store/Hoare.antt has rules for what holds before
-- and after a piece of code, whichever statement fails; Store/Invariants.antt those for what
-- code keeps, and Store/AtKey.antt what is said of the row under one key. The trigger
-- set_updated_at of the migrations is part of the statements on users, listings and requests in
-- Store and Listing/Status; the rows that the merges of an edit compare have no updated_at.
-- What pgx's BeginFunc documents is the hypothesis IsTransactional. Store/Calm.antt shows that
-- code that succeeds does what it does where nothing fails.
--
-- Admin: internal/db/audit.go (Admin/Audit.antt), accounts.go and roles.go (Admin/Actions.antt)
-- and posts.go (Admin/Posts.antt): Audited, Suspend, Reinstate, VerifyByHand, ChangeRole,
-- RemovePost and RestorePost. The ledger's detail is a list of keys and values. The proofs
-- stand in Admin/Ledger.antt, Admin/Accounts.antt, Admin/RoleChange.antt, Admin/Effects.antt,
-- Admin/LastAdmin.antt, Admin/Takedown.antt, Admin/PostEffects.antt, and, for any call and any
-- sequence of calls, Admin/Calls.antt, Admin/History.antt and Admin/Runs.antt.
--
-- Handlers: internal/httpapi/admin_guard.go (Handlers/Replies.antt), admin_accounts.go
-- (Handlers/AdminAccounts.antt) and admin_posts.go (Handlers/AdminPosts.antt), the eight
-- requests that change something. They run the actions of Admin and read the row back.
--
-- Listing: internal/httpapi/listings_validate.go with the statement UpdateListing
-- (Listing/Validate.antt, Listing/Update.antt), and the status of a post of listings_write.go
-- and requests_write.go (Listing/Status.antt). A number of the body is a ℤ, and its conversion
-- to int32 keeps the 32 low bits. A problem stands for its message.
--
-- Request: the same edit of a housing request, in requests_write.go with the statement
-- UpdateRequest (Request/Update.antt, Request/Merge.antt).
--
-- Auth: internal/httpapi/auth.go and the files of internal/auth that it uses. SHA-256, base64,
-- bcrypt, the signing of a JWT and the case mappings of Go and of PostgreSQL are the parameter
-- Platform (Auth/Platform.antt, with MintAccessToken, NewOpaqueToken and HashToken).
-- Auth/Validate.antt has validateRegistration and ValidatePassword, Auth/Accounts.antt
-- Register, VerifyEmail, ResendVerification and GetMe, Auth/Login.antt Login, RefreshSession
-- and Logout, and Auth/Reset.antt the two requests of a password reset. A cookie is its value
-- and its expiry. Auth/Calls.antt puts the requests in one type and runs sequences of them,
-- each with its own time, draws and faults (Surroundings). The proofs are in
-- Auth/Statements.antt, Auth/Kept.antt and Auth/Guarded.antt for what every request keeps, and
-- in Auth/Suspended.antt, Auth/OneUse.antt, Auth/Rotation.antt, Auth/Links.antt,
-- Auth/Hashed.antt, Auth/ResetDone.antt, Auth/Registered.antt and Auth/LoggedIn.antt;
-- Auth/Steps.antt has rules for code whose steps succeed, for Auth/Confirmed.antt and
-- Auth/Welcome.antt.
--
-- Chat: internal/httpapi/conversations.go (Chat/Conversations.antt), messages.go
-- (Chat/Messages.antt), offers.go (Chat/Offers.antt) and notifications.go (Chat/Notify.antt),
-- with their statements in Chat/Queries.antt, Chat/UpdateQueries.antt and Chat/Offered.antt.
-- The viewer is the id and the verification of the access token, if there is one. A view of a
-- conversation has no title, name or last message. PostgreSQL's btrim and what the limiter
-- answers for a recipient are parameters, and pgx's BeginFunc is as in Store. Chat/Ruled.antt
-- says what an invariant of this state must survive, Chat/Rules.antt, Chat/Updates.antt,
-- Chat/Kept.antt and Chat/OffersKept.antt that the requests then keep it, and Chat/Calls.antt
-- runs sequences of them; the proofs that use it are in Chat/Sealed.antt and Chat/Address.antt,
-- and those of one request in Chat/Reveal.antt and Chat/MakeOffer.antt.
--
-- Not modelled: logging, the wording of the owner's messages and of the emails,
-- VerifyAccessToken with the cookies, contexts and middleware around it, the time that
-- WasteComparison takes, how a JSON body is decoded, the lists with their filters and pages,
-- the inbox and the unread counts, the response of an offer beyond its row, transactions that
-- overlap, email, configuration and routing, and the generated server.
pub mod Common
pub mod RateLimit
pub mod Store
pub mod Admin
pub mod Handlers
pub mod Listing
pub mod Request
pub mod Auth
pub mod Chat
