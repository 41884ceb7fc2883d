-- ===== src/Chat/Ruled.antt =====
-- Invariants that the statements of conversations and offers keep, where a message is written in
-- no conversation but a writable one, and an address is shared by no one but a sharer: the rules
-- of each statement, and of the rows that are read.
use waterloo_star_backend.Common.{
  ℕ, ◌≡◌, refl, Bool, true, false, Option, none, some, ◌∷◌, is_none, if◌then◌else◌,
}
use waterloo_star_backend.Common.Text.{Text}
use waterloo_star_backend.Store.Table.{Table, lookup, update, find}
use waterloo_star_backend.Store.Rows.{Db, Conversation, ChatMessage, RequestOffer}
use waterloo_star_backend.Store.Conn.{Result, ok}
use waterloo_star_backend.Store.Hoare.{After}
use waterloo_star_backend.Chat.Queries.{new_conversation}
use waterloo_star_backend.Chat.UpdateQueries.{
  rewritten, mark_read, can_close, close_row, can_reopen, reopen_row, can_share, share_row,
}

abbrev pub is_open_conversation : Conversation → Bool
is_open_conversation c = is_none c.closed_at

abbrev pub set_conversation : ℕ → Conversation → Db → Db
set_conversation id c d = record d { conversations = update id c d.conversations }

pub record ChatInvariant (I : Db → Type 0) (Writable Sharer : ℕ → Type 0) : Type 0 where
  pub reads_row :
      (id : ℕ) (c : Conversation) (d : Db)
      → I d
      → lookup id d.conversations ≡ some c
      → is_open_conversation c ≡ true
      → Writable id
  pub finds_row :
      (q : Conversation → Bool) (id : ℕ) (c : Conversation) (d : Db)
      → I d
      → find q d.conversations ≡ some (id, c)
      → is_open_conversation c ≡ true
      → Writable id
  pub creates :
      (id listing_id owner_id enquirer_id opened_by : ℕ) (d : Db)
      → I d
      → lookup id d.conversations ≡ none
      → I (record d {
        conversations =
            (id, new_conversation listing_id owner_id enquirer_id opened_by) ∷ d.conversations;
      })
        × Writable id
  pub writes :
      (id : ℕ) (m : ChatMessage) (d : Db)
      → I d
      → Writable m.conversation_id
      → I (record d { messages = (id, m) ∷ d.messages })
  pub marks :
      (id user_id now : ℕ) (c : Conversation) (d : Db)
      → I d
      → lookup id d.conversations ≡ some c
      → I (set_conversation id (mark_read user_id now c) d)
  pub closes :
      (id user_id now : ℕ) (c : Conversation) (d : Db)
      → I d
      → lookup id d.conversations ≡ some c
      → can_close user_id c ≡ true
      → I (set_conversation id (close_row user_id now c) d)
  pub reopens :
      (id owner_id : ℕ) (c : Conversation) (d : Db)
      → I d
      → lookup id d.conversations ≡ some c
      → can_reopen owner_id c ≡ true
      → I (set_conversation id (reopen_row c) d) × Writable id
  pub shares :
      (btrim : Text → Text) (id owner_id now : ℕ) (c : Conversation) (d : Db)
      → I d
      → lookup id d.conversations ≡ some c
      → can_share btrim owner_id d c ≡ true
      → Sharer owner_id
      → I (set_conversation id (share_row now c) d)
  pub offers : (t : Table RequestOffer) (d : Db) → I d → I (record d { offers = t })

-- An update of one row, by what it leaves where it is made.
pub rewritten-After :
    {A : Type 0} (I : Db → Type 0) (Q : A → Db → Type 0) (id : ℕ) (q : Conversation → Bool)
    (f : Conversation → Conversation) (out : Conversation → A) (other : Result A × Db)
    (o : Option Conversation) (d : Db)
    → After I Q other
    → ((c : Conversation) → o ≡ some c → q c ≡ true → Q (out (f c)) (set_conversation id (f c) d))
    → After I Q (rewritten id q f out other o d)
rewritten-After I Q id q f out other none d h k = h
rewritten-After {A} I Q id q f out other (some c) d h k = pick (q c) refl
  where
    pick :
        (b : Bool)
        → q c ≡ b
        → After I Q (if b then (ok (out (f c)), set_conversation id (f c) d) else other)
    pick true e = k c refl e
    pick false e = h
