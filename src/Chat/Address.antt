-- ===== src/Chat/Address.antt =====
-- The exact address of a place: who makes a conversation show it, that it stays shown once it is,
-- and whom a conversation is between.
use waterloo_star_backend.Common.{
  ℕ, ◌≡◌, Bool, true, false, ◌&&◌, none, some, List, ◌==◌, arith, is_none,
}
use waterloo_star_backend.Store.AtKey.{AtKey, AtKey-insert, AtKey-update}
use waterloo_star_backend.Store.Rows.{Db, Conversation}
use waterloo_star_backend.Store.Conn.{Conn, IsTransactional}
use waterloo_star_backend.Auth.Calls.{Surroundings}
use waterloo_star_backend.Chat.UpdateQueries.{
  mark_read, close_row, reopen_row, can_share, share_row,
}
use waterloo_star_backend.Chat.Ruled.{ChatInvariant}
use waterloo_star_backend.Chat.Calls.{
  Server, ChatCall, perform_chats, perform_chats-Ruled, anyone, Every, SharedBy,
}

-- An invariant of the row of one conversation alone, which updates of the row keep
abbrev pub RowOnly : (Conversation → Bool) → ℕ → Db → Type 0
RowOnly q id d = AtKey q id d.conversations

-- The rules of such an invariant, by what the updates do to a row that has it.
pub RowOnly-Ruled :
    (q : Conversation → Bool) (Sharer : ℕ → Type 0) (id : ℕ)
    → ((user_id now : ℕ) (c : Conversation) → q c ≡ true → q (mark_read user_id now c) ≡ true)
    → ((user_id now : ℕ) (c : Conversation) → q c ≡ true → q (close_row user_id now c) ≡ true)
    → ((c : Conversation) → q c ≡ true → q (reopen_row c) ≡ true)
    → ((owner_id now : ℕ) (c : Conversation)
        → Sharer owner_id
        → (c.owner_id == owner_id) ≡ true
        → is_none c.address_shared_at ≡ true
        → q c ≡ true
        → q (share_row now c) ≡ true)
    → ChatInvariant (RowOnly q id) (λ _. Unit {0}) Sharer
unfolding can_share
RowOnly-Ruled q Sharer id marked closed reopened shared = record {
  reads_row = λ k c d i e o. tt;
  finds_row = λ p k c d i e o. tt;
  creates = λ k listing_id owner_id enquirer_id opened_by d i e.
      (AtKey-insert q id k _ d.conversations i e, tt);
  writes = λ k m d i w. i;
  marks =
      λ k user_id now c d i e. AtKey-update q id k c _ d.conversations i e (marked user_id now c);
  closes =
      λ k user_id now c d i e _. AtKey-update q id k c _ d.conversations i e (closed user_id now c);
  reopens = λ k owner_id c d i e _. (AtKey-update q id k c _ d.conversations i e (reopened c), tt);
  shares = λ btrim k owner_id now c d i e can s.
      AtKey-update q id k c _ d.conversations i e
        (shared owner_id now c s (ground arith) (ground arith));
  offers = λ t d i. i;
}

-- The same listing and people, and the same time of the share, if there was one
unfoldable pub follows : Conversation → Conversation → Bool
follows before c =
    c.listing_id == before.listing_id
    && c.owner_id == before.owner_id
    && c.enquirer_id == before.enquirer_id
    && c.opened_by == before.opened_by
    && elim before.address_shared_at [
      | none ↦ true
      | some t ↦ elim c.address_shared_at [ none ↦ false | some u ↦ u == t ]
    ]

-- Whatever requests of conversations, messages and offers are made, a conversation stays between
-- the same two people about the same listing, opened by the same one of them; and if its address
-- was shared, it stays shared, with the time of the first share.
pub perform_chats-follows :
    (s : Server)
    → IsTransactional s.tx
    → (id : ℕ) (before : Conversation) (calls : List (Surroundings × ChatCall)) (c : Conn)
    → AtKey (follows before) id c.db.conversations
    → AtKey (follows before) id (perform_chats s calls c).db.conversations
unfolding follows mark_read close_row reopen_row share_row
perform_chats-follows s t id before calls c h =
    perform_chats-Ruled s t
      (RowOnly-Ruled (follows before) (λ _. Unit {0}) id (λ u n x e. e) (λ u n x e. e) (λ x e. e)
        (λ o n x _ _ fresh e. ground arith))
      calls c (anyone calls) h

-- Not shared, of one owner
unfoldable pub is_unshared_of : ℕ → Conversation → Bool
is_unshared_of owner_id c = is_none c.address_shared_at && c.owner_id == owner_id

-- The address of a conversation is shared by its owner or by nobody: whatever requests
-- of conversations, messages and offers are made, if none of them is a request of the owner to
-- share an address, the address of a conversation of that owner that was not shared is not shared
-- after them.
pub perform_chats-is_unshared_of :
    (s : Server)
    → IsTransactional s.tx
    → (id owner_id : ℕ) (calls : List (Surroundings × ChatCall)) (c : Conn)
    → Every (SharedBy (λ user_id. (user_id == owner_id) ≡ false)) calls
    → AtKey (is_unshared_of owner_id) id c.db.conversations
    → AtKey (is_unshared_of owner_id) id (perform_chats s calls c).db.conversations
unfolding is_unshared_of mark_read close_row reopen_row share_row
perform_chats-is_unshared_of s t id owner_id calls c others h =
    perform_chats-Ruled s t
      (RowOnly-Ruled (is_unshared_of owner_id) (λ user_id. (user_id == owner_id) ≡ false) id
        (λ u n x e. e) (λ u n x e. e) (λ x e. e) (λ o n x other own fresh e. ground arith))
      calls c others h
