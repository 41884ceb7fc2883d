-- ===== src/Chat/Rules.antt =====
-- The statements that read conversations and offers or add to them, by the rules of an invariant.
use waterloo_star_backend.Common.{
  ℕ, ◌≡◌, refl, Bool, true, false, ◌&&◌, Option, none, some, is_some, if◌then◌else◌,
}
use waterloo_star_backend.Common.Text.{Text}
use waterloo_star_backend.Store.Table.{lookup, find}
use waterloo_star_backend.Store.Rows.{Db, User, Post, Conversation, ChatMessage, database}
use waterloo_star_backend.Store.Conn.{err, draw}
use waterloo_star_backend.Store.Queries.{found, get_listing_for_owner, get_listing_for_owner_sql}
use waterloo_star_backend.Store.Sessions.{only_if, unless_taken}
use waterloo_star_backend.Store.Hoare.{Triple, After, query-Triple, >>=-Triple}
use waterloo_star_backend.Store.Invariants.{Keeps, query-Keeps, draw-Keeps, >>=-Keeps}
use waterloo_star_backend.Auth.Guarded.{found-After, if-After, unless_taken-After}
use waterloo_star_backend.Chat.Queries.{
  ConversationRow, is_participant, is_public, get_published_listing, get_published_listing_sql,
  get_published_request, get_published_request_sql, is_between,
  get_conversation_by_listing_and_enquirer, get_conversation_by_listing_and_enquirer_sql,
  new_conversation, admits_conversation, insert_conversation, create_conversation,
  create_conversation_sql, insert_message, create_message, create_message_sql, row_from, row_of,
  counterpart_of, get_conversation_for_participant, get_conversation_for_participant_sql,
}
use waterloo_star_backend.Chat.Offered.{
  get_offer, get_offer_sql, is_offer_of, get_offer_for_listing, get_offer_for_listing_sql,
}
use waterloo_star_backend.Chat.Ruled.{ChatInvariant, is_open_conversation}

module _ {I : Db → Type 0} {Writable Sharer : ℕ → Type 0}
    (g : ChatInvariant I Writable Sharer) where
  pub get_published_listing-Keeps : (id : ℕ) → Keeps I (get_published_listing id)
  unfolding get_published_listing get_published_listing_sql
  get_published_listing-Keeps id =
      query-Keeps (get_published_listing_sql id)
        λ now d i. found-After I (only_if (is_public d.users) (lookup id d.listings)) d i

  pub get_published_request-Keeps : (id : ℕ) → Keeps I (get_published_request id)
  unfolding get_published_request get_published_request_sql
  get_published_request-Keeps id =
      query-Keeps (get_published_request_sql id)
        λ now d i. found-After I (only_if (is_public d.users) (lookup id d.requests)) d i

  pub get_listing_for_owner-Keeps : (id : ℕ) → Keeps I (get_listing_for_owner id)
  unfolding get_listing_for_owner get_listing_for_owner_sql
  get_listing_for_owner-Keeps id =
      query-Keeps (get_listing_for_owner_sql id) λ now d i. found-After I (lookup id d.listings) d i

  pub get_offer-Keeps : (id : ℕ) → Keeps I (get_offer id)
  unfolding get_offer get_offer_sql
  get_offer-Keeps id =
      query-Keeps (get_offer_sql id) λ now d i. found-After I (lookup id d.offers) d i

  pub get_offer_for_listing-Keeps :
      (request_id listing_id : ℕ) → Keeps I (get_offer_for_listing request_id listing_id)
  unfolding get_offer_for_listing get_offer_for_listing_sql
  get_offer_for_listing-Keeps request_id listing_id =
      query-Keeps (get_offer_for_listing_sql request_id listing_id)
        λ now d i. found-After I (find (is_offer_of request_id listing_id) d.offers) d i

  pub get_conversation_by_listing_and_enquirer-Ruled :
      (listing_id enquirer_id : ℕ)
      → Triple I I
          (get_conversation_by_listing_and_enquirer listing_id enquirer_id)
          (λ row d. I d × (is_open_conversation (row.1) ≡ true → Writable (row.0)))
  unfolding get_conversation_by_listing_and_enquirer get_conversation_by_listing_and_enquirer_sql
  get_conversation_by_listing_and_enquirer-Ruled listing_id enquirer_id =
      query-Triple (get_conversation_by_listing_and_enquirer_sql listing_id enquirer_id) (λ d i. i)
        λ now d i. go d i (find (is_between listing_id enquirer_id) d.conversations) refl
    where
      go :
          (d : Db)
          → I d
          → (o : Option (ℕ × Conversation))
          → find (is_between listing_id enquirer_id) d.conversations ≡ o
          → After I
              (λ row d. I d × (is_open_conversation (row.1) ≡ true → Writable (row.0)))
              (found o d)
      go d i none e = i
      go d i (some (id, c)) e = (i, g.finds_row (is_between listing_id enquirer_id) id c d i e)

  -- The row of the conversation, as it was read
  abbrev pub ReadRow : ℕ → ConversationRow → Db → Type 0
  ReadRow id row d = I d × (is_open_conversation row.conversation ≡ true → Writable id)

  pub get_conversation_for_participant-Ruled :
      (user_id id : ℕ) → Triple I I (get_conversation_for_participant user_id id) (ReadRow id)
  unfolding get_conversation_for_participant get_conversation_for_participant_sql
  get_conversation_for_participant-Ruled user_id id =
      query-Triple (get_conversation_for_participant_sql user_id id) (λ d i. i)
        λ now d i. go d i (lookup id d.conversations) refl
    where
      from :
          (d : Db) (c : Conversation)
          → I d
          → (is_open_conversation c ≡ true → Writable id)
          → (l : Option Post) (o cp : Option User)
          → After I (ReadRow id) (found (row_from user_id id c d.messages l o cp) d)
      from d c i w none o cp = i
      from d c i w (some l) none cp = i
      from d c i w (some l) (some o) none = i
      from d c i w (some l) (some o) (some cp) = (i, w)

      go :
          (d : Db)
          → I d
          → (o : Option Conversation) → lookup id d.conversations ≡ o
          → After I (ReadRow id) (found (row_of user_id id d o) d)
      go d i none e = i
      go d i (some c) e = pick (is_participant user_id c)
        where
          row : Option ConversationRow
          row =
              row_from user_id id c d.messages (lookup c.listing_id d.listings)
                (lookup c.owner_id d.users) (lookup (counterpart_of user_id c) d.users)

          pick : (b : Bool) → After I (ReadRow id) (found (if b then row else none) d)
          pick true = from d c i (g.reads_row id c d i e) _ _ _
          pick false = i

  pub create_conversation-Ruled :
      (listing_id owner_id enquirer_id opened_by : ℕ)
      → Triple I I
          (create_conversation listing_id owner_id enquirer_id opened_by)
          (λ row d. I d × Writable (row.0))
  unfolding create_conversation create_conversation_sql
  create_conversation-Ruled listing_id owner_id enquirer_id opened_by =
      >>=-Triple draw _ draw-Keeps λ id.
        query-Triple (create_conversation_sql id c) (λ d i. i)
          λ now d i.
            pick id d i (admits_conversation c d)
              (find (is_between c.listing_id c.enquirer_id) d.conversations)
              (lookup id d.conversations) refl
    where
      c : Conversation
      c = new_conversation listing_id owner_id enquirer_id opened_by

      pick :
          (id : ℕ) (d : Db)
          → I d
          → (b : Bool) (between : Option (ℕ × Conversation)) (o : Option Conversation)
          → lookup id d.conversations ≡ o
          → After I
              (λ row d. I d × Writable (row.0))
              (if b
                then unless_taken between d (unless_taken o d (insert_conversation id c d))
                else (err database, d))
      pick id d i false between o e = i
      pick id d i true (some x) o e = i
      pick id d i true none (some x) e = i
      pick id d i true none none e = g.creates id listing_id owner_id enquirer_id opened_by d i e

  pub create_message-Keeps :
      (conversation_id sender_id : ℕ) (body : Text)
      → Writable conversation_id
      → Keeps I (create_message conversation_id sender_id body)
  unfolding create_message create_message_sql
  create_message-Keeps conversation_id sender_id body w = >>=-Keeps draw _ draw-Keeps λ id.
      query-Keeps (create_message_sql id conversation_id sender_id body) λ now d i.
        let m : ChatMessage = record {
          conversation_id = conversation_id;
          sender_id = sender_id;
          body = body;
          created_at = now;
        } in
        if-After I
          (is_some (lookup conversation_id d.conversations) && is_some (lookup sender_id d.users))
          (unless_taken (lookup id d.messages) d (insert_message id m d)) (err database, d)
          (unless_taken-After I d i (insert_message id m d) (lookup id d.messages)
            λ _. g.writes id m d i w)
          i
