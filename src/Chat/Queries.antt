-- ===== src/Chat/Queries.antt =====
-- The statements of internal/db/sqlcgen/conversations.sql.go, and GetPublishedListing.
use waterloo_star_backend.Common.{
  ℕ, Bool, true, false, ◌&&◌, ◌||◌, not, Option, none, some, ◌∷◌, ◌==◌, ltb, if◌then◌else◌, is_none,
  is_some,
}
use waterloo_star_backend.Common.Text.{Text, text_eq}
use waterloo_star_backend.Store.Table.{Table, lookup, find, count}
use waterloo_star_backend.Store.Rows.{Db, User, Post, Conversation, ChatMessage, database}
use waterloo_star_backend.Store.Conn.{Result, ok, err, M, ◌>>=◌, query, draw}
use waterloo_star_backend.Store.Queries.{found}
use waterloo_star_backend.Store.Sessions.{only_if, unless_taken}
use waterloo_star_backend.Listing.Validate.{published}

abbrev pub is_participant : ℕ → Conversation → Bool
is_participant user_id c = c.owner_id == user_id || c.enquirer_id == user_id

abbrev pub is_account_suspended : Option User → Bool
is_account_suspended none = false
is_account_suspended (some u) = is_some u.suspended_at

-- A row that a join finds, and the rest: no row where there is none
abbrev pub joined : {A B : Type 0} → Option A → (A → Option B) → Option B
joined none f = none
joined (some a) f = f a

-- WHERE l.id = $1 AND l.status = 'published' AND u.suspended_at IS NULL AND l.removed_at IS NULL,
-- of listings and of requests
unfoldable pub is_public : Table User → Post → Bool
is_public users l =
    text_eq l.status published
    && elim (lookup l.owner_id users) [ none ↦ false | some o ↦ is_none o.suspended_at ]
    && is_none l.removed_at

unfoldable pub get_published_listing_sql : ℕ → ℕ → Db → Result Post × Db
get_published_listing_sql id now d = found (only_if (is_public d.users) (lookup id d.listings)) d

unfoldable pub get_published_listing : ℕ → M Post
get_published_listing id = query (get_published_listing_sql id)

unfoldable pub get_published_request_sql : ℕ → ℕ → Db → Result Post × Db
get_published_request_sql id now d = found (only_if (is_public d.users) (lookup id d.requests)) d

unfoldable pub get_published_request : ℕ → M Post
get_published_request id = query (get_published_request_sql id)

-- WHERE listing_id = $1 AND enquirer_id = $2
unfoldable pub is_between : ℕ → ℕ → Conversation → Bool
is_between listing_id enquirer_id c = c.listing_id == listing_id && c.enquirer_id == enquirer_id

unfoldable pub get_conversation_by_listing_and_enquirer_sql :
    ℕ → ℕ → ℕ → Db → Result (ℕ × Conversation) × Db
get_conversation_by_listing_and_enquirer_sql listing_id enquirer_id now d =
    found (find (is_between listing_id enquirer_id) d.conversations) d

unfoldable pub get_conversation_by_listing_and_enquirer : ℕ → ℕ → M (ℕ × Conversation)
get_conversation_by_listing_and_enquirer listing_id enquirer_id =
    query (get_conversation_by_listing_and_enquirer_sql listing_id enquirer_id)

abbrev pub new_conversation : ℕ → ℕ → ℕ → ℕ → Conversation
new_conversation listing_id owner_id enquirer_id opened_by = record {
  listing_id = listing_id;
  owner_id = owner_id;
  enquirer_id = enquirer_id;
  opened_by = opened_by;
  closed_at = none;
  closed_by = none;
  owner_read_at = none;
  enquirer_read_at = none;
  address_shared_at = none;
}

-- owner_id <> enquirer_id, opened_by is one of the two, and the rows that the keys name are there
unfoldable pub admits_conversation : Conversation → Db → Bool
admits_conversation c d =
    not (c.owner_id == c.enquirer_id)
    && is_participant c.opened_by c
    && is_some (lookup c.listing_id d.listings)
    && is_some (lookup c.owner_id d.users)
    && is_some (lookup c.enquirer_id d.users)

abbrev pub insert_conversation : ℕ → Conversation → Db → Result (ℕ × Conversation) × Db
insert_conversation id c d = (ok (id, c), record d { conversations = (id, c) ∷ d.conversations })

-- One conversation for a listing and an enquirer. The id is a random UUID.
unfoldable pub create_conversation_sql : ℕ → Conversation → ℕ → Db → Result (ℕ × Conversation) × Db
create_conversation_sql id c now d =
    if admits_conversation c d
    then unless_taken (find (is_between c.listing_id c.enquirer_id) d.conversations) d
        (unless_taken (lookup id d.conversations) d (insert_conversation id c d))
    else (err database, d)

unfoldable pub create_conversation : ℕ → ℕ → ℕ → ℕ → M (ℕ × Conversation)
create_conversation listing_id owner_id enquirer_id opened_by = draw >>= λ id.
    query (create_conversation_sql id (new_conversation listing_id owner_id enquirer_id opened_by))

abbrev pub insert_message : ℕ → ChatMessage → Db → Result (ℕ × ChatMessage) × Db
insert_message id m d = (ok (id, m), record d { messages = (id, m) ∷ d.messages })

-- The sender and the conversation must be there. The CHECK on the body, 1 to 4000 characters
-- once trimmed, is left out: the handlers pass trimmed texts of such a length only.
unfoldable pub create_message_sql : ℕ → ℕ → ℕ → Text → ℕ → Db → Result (ℕ × ChatMessage) × Db
create_message_sql id conversation_id sender_id body now d =
    let m : ChatMessage = record {
      conversation_id = conversation_id;
      sender_id = sender_id;
      body = body;
      created_at = now;
    } in
    if is_some (lookup conversation_id d.conversations) && is_some (lookup sender_id d.users)
    then unless_taken (lookup id d.messages) d (insert_message id m d)
    else (err database, d)

unfoldable pub create_message : ℕ → ℕ → Text → M (ℕ × ChatMessage)
create_message conversation_id sender_id body =
    draw >>= λ id. query (create_message_sql id conversation_id sender_id body)

-- m.created_at > coalesce(at, '-infinity')
abbrev pub is_later : Option ℕ → ℕ → Bool
is_later none at = true
is_later (some t) at = ltb t at

abbrev pub read_marker : ℕ → Conversation → Option ℕ
read_marker user_id c = if c.owner_id == user_id then c.owner_read_at else c.enquirer_read_at

-- The messages of the other side that a participant has not read
unfoldable pub is_unread : ℕ → ℕ → Conversation → ChatMessage → Bool
is_unread user_id id c m =
    m.conversation_id == id
    && not (m.sender_id == user_id)
    && is_later (read_marker user_id c) m.created_at

-- `GetConversationForParticipantRow`, without the columns that only a response shows.
pub record ConversationRow : Type 0 where
  pub id : ℕ
  pub conversation : Conversation
  pub listing_available : Bool
  pub listing_removed : Bool
  pub counterpart_id : ℕ
  pub counterpart : User
  pub counterpart_suspended : Bool
  pub place_address_line : Option Text
  pub unread_count : ℕ

abbrev pub counterpart_of : ℕ → Conversation → ℕ
counterpart_of user_id c = if c.owner_id == user_id then c.enquirer_id else c.owner_id

-- The exact address: only where it was shared, the listing stands and the owner is not suspended
unfoldable pub place_of : Conversation → Post → User → Option Text
place_of c l o =
    if is_some c.address_shared_at && is_none l.removed_at && is_none o.suspended_at
    then some l.address_line
    else none

-- The joins: a row where the listing, its owner and the counterpart are there
abbrev pub row_from :
    ℕ
    → ℕ
    → Conversation
    → Table ChatMessage
    → Option Post
    → Option User
    → Option User
    → Option ConversationRow
row_from user_id id c messages (some l) (some o) (some cp) = some (record {
  id = id;
  conversation = c;
  listing_available = text_eq l.status published && is_none l.removed_at && is_none o.suspended_at;
  listing_removed = is_some l.removed_at;
  counterpart_id = counterpart_of user_id c;
  counterpart = cp;
  counterpart_suspended = is_some cp.suspended_at;
  place_address_line = place_of c l o;
  unread_count = count (is_unread user_id id c) messages;
})
row_from user_id id c messages _ _ _ = none

abbrev pub row_of : ℕ → ℕ → Db → Option Conversation → Option ConversationRow
row_of user_id id d none = none
row_of user_id id d (some c) =
    if is_participant user_id c
    then row_from user_id id c d.messages (lookup c.listing_id d.listings)
        (lookup c.owner_id d.users) (lookup (counterpart_of user_id c) d.users)
    else none

-- WHERE c.id = $2 AND $1 IN (c.owner_id, c.enquirer_id)
unfoldable pub get_conversation_for_participant_sql : ℕ → ℕ → ℕ → Db → Result ConversationRow × Db
get_conversation_for_participant_sql user_id id now d =
    found (row_of user_id id d (lookup id d.conversations)) d

unfoldable pub get_conversation_for_participant : ℕ → ℕ → M ConversationRow
get_conversation_for_participant user_id id =
    query (get_conversation_for_participant_sql user_id id)
