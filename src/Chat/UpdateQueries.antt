-- ===== src/Chat/UpdateQueries.antt =====
-- The statements of internal/db/sqlcgen/conversations.sql.go that change a row.
use waterloo_star_backend.Common.{
  ℕ, Bool, false, ◌&&◌, not, Option, none, some, ◌==◌, if◌then◌else◌, is_none,
}
use waterloo_star_backend.Common.Text.{Text, text_eq, is_empty}
use waterloo_star_backend.Store.Table.{lookup, update}
use waterloo_star_backend.Store.Rows.{Db, Conversation, no_rows}
use waterloo_star_backend.Store.Conn.{Result, ok, err, M, query}
use waterloo_star_backend.Listing.Validate.{published}
use waterloo_star_backend.Chat.Queries.{is_participant}

-- UPDATE conversations … of the row under a key, where a test admits it
abbrev pub rewritten :
    {A : Type 0}
    → ℕ
    → (Conversation → Bool)
    → (Conversation → Conversation)
    → (Conversation → A)
    → Result A × Db
    → Option Conversation
    → Db
    → Result A × Db
rewritten id q f out other none d = other
rewritten id q f out other (some c) d =
    if q c
    then (ok (out (f c)), record d { conversations = update id (f c) d.conversations })
    else other

unfoldable pub mark_read : ℕ → ℕ → Conversation → Conversation
mark_read user_id now c = record c {
  owner_read_at = if c.owner_id == user_id then some now else c.owner_read_at;
  enquirer_read_at = if c.enquirer_id == user_id then some now else c.enquirer_read_at;
}

-- How many rows changed
unfoldable pub mark_conversation_read_sql : ℕ → ℕ → ℕ → Db → Result ℕ × Db
mark_conversation_read_sql user_id id now d =
    rewritten id (is_participant user_id) (mark_read user_id now) (λ _. 1) (ok 0, d)
      (lookup id d.conversations) d

unfoldable pub mark_conversation_read : ℕ → ℕ → M ℕ
mark_conversation_read user_id id = query (mark_conversation_read_sql user_id id)

unfoldable pub can_close : ℕ → Conversation → Bool
can_close user_id c = is_none c.closed_at && is_participant user_id c

unfoldable pub close_row : ℕ → ℕ → Conversation → Conversation
close_row user_id now c = record c { closed_at = some now; closed_by = some user_id }

unfoldable pub close_conversation_sql : ℕ → ℕ → ℕ → Db → Result Conversation × Db
close_conversation_sql user_id id now d =
    rewritten id (can_close user_id) (close_row user_id now) (λ c. c) (err no_rows, d)
      (lookup id d.conversations) d

unfoldable pub close_conversation : ℕ → ℕ → M Conversation
close_conversation user_id id = query (close_conversation_sql user_id id)

-- `=` of a column that may be null and a value
abbrev pub is_value : Option ℕ → ℕ → Bool
is_value none v = false
is_value (some x) v = x == v

unfoldable pub can_reopen : ℕ → Conversation → Bool
can_reopen owner_id c = is_value c.closed_by owner_id && c.owner_id == owner_id

unfoldable pub reopen_row : Conversation → Conversation
reopen_row c = record c { closed_at = none; closed_by = none }

unfoldable pub reopen_conversation_sql : ℕ → ℕ → ℕ → Db → Result Conversation × Db
reopen_conversation_sql id owner_id now d =
    rewritten id (can_reopen owner_id) reopen_row (λ c. c) (err no_rows, d)
      (lookup id d.conversations) d

unfoldable pub reopen_conversation : ℕ → ℕ → M Conversation
reopen_conversation id owner_id = query (reopen_conversation_sql id owner_id)

unfoldable pub share_row : ℕ → Conversation → Conversation
share_row now c = record c { address_shared_at = some now }

-- l.status = 'published' AND l.removed_at IS NULL AND btrim(l.address_line) <> '', and neither
-- account is suspended. `btrim` is a parameter.
module _ (btrim : Text → Text) where
  unfoldable pub can_share : ℕ → Db → Conversation → Bool
  can_share owner_id d c =
      c.owner_id == owner_id
      && is_none c.address_shared_at
      && is_none c.closed_at
      && elim (lookup c.listing_id d.listings) [
        | none ↦ false
        | some l ↦
            text_eq l.status published
            && is_none l.removed_at
            && not (is_empty (btrim l.address_line))
      ]
      && elim (lookup c.owner_id d.users) [ none ↦ false | some o ↦ is_none o.suspended_at ]
      && elim (lookup c.enquirer_id d.users) [ none ↦ false | some e ↦ is_none e.suspended_at ]

  unfoldable pub share_conversation_address_sql : ℕ → ℕ → ℕ → Db → Result ℕ × Db
  share_conversation_address_sql id owner_id now d =
      rewritten id (can_share owner_id d) (share_row now) (λ _. 1) (ok 0, d)
        (lookup id d.conversations) d

  unfoldable pub share_conversation_address : ℕ → ℕ → M ℕ
  share_conversation_address id owner_id = query (share_conversation_address_sql id owner_id)
