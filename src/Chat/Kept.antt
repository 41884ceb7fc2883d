-- ===== src/Chat/Kept.antt =====
-- Every handler of conversations, messages and offers keeps an invariant that its statements keep.
use waterloo_star_backend.Common.{
  ℕ, ◌≡◌, refl, Bool, true, not, Option, none, some, is_some, ◌==◌, arith,
}
use waterloo_star_backend.Common.Text.{Text, is_empty, trim_space}
use waterloo_star_backend.Store.Rows.{Db, Post, Conversation, no_rows, unique_violation}
use waterloo_star_backend.Store.Conn.{Result, ok, err, TxRunner, IsTransactional}
use waterloo_star_backend.Store.Hoare.{>>=-Triple, run-Triple}
use waterloo_star_backend.Store.Invariants.{
  Keeps, pure-Keeps, throw-Keeps, >>=-Keeps, if-Keeps, attempt-Keeps, send-Keeps, query-Keeps,
  weaken-Triple, with_fact,
}
use waterloo_star_backend.Handlers.Replies.{Message}
use waterloo_star_backend.Auth.Guarded.{when_found-Triple, when_found-Keeps, found-After}
use waterloo_star_backend.Chat.Queries.{
  ConversationRow, get_conversation_for_participant, get_conversation_by_listing_and_enquirer,
}
use waterloo_star_backend.Chat.Notify.{
  Notification, notify, notify_recipient, get_notification_recipient,
  get_notification_recipient_sql,
}
use waterloo_star_backend.Chat.Messages.{
  Viewer, send_refusal, share_refusal, Checked, stored, problem, message_body, send_message,
  send_checked, send_text,
}
use waterloo_star_backend.Chat.Conversations.{
  conversation_for, get_conversation, mark_read_by, after_close, close_by, start_statements,
  lost_race, started, start_checked, start_about, start_conversation, after_share, share_listed,
  share_unless, share_row_of, share_address,
}
use waterloo_star_backend.Chat.Ruled.{ChatInvariant, is_open_conversation}
use waterloo_star_backend.Chat.Rules.{
  get_published_listing-Keeps, get_listing_for_owner-Keeps,
  get_conversation_by_listing_and_enquirer-Ruled, get_conversation_for_participant-Ruled,
  create_conversation-Ruled, create_message-Keeps,
}
use waterloo_star_backend.Chat.Updates.{
  mark_conversation_read-Keeps, close_conversation-Keeps, share_conversation_address-Keeps,
}

pub ruleset chat_rules = (pure-Keeps, throw-Keeps, >>=-Keeps, if-Keeps, when_found-Keeps)

-- It reads one row and sends.
pub notify-Keeps :
    {I : Db → Type 0} (allowed : ℕ → Bool) (n : Notification) → Keeps I (notify allowed n)
unfolding notify get_notification_recipient get_notification_recipient_sql
notify-Keeps {I} allowed n =
    >>=-Keeps _ _
      (attempt-Keeps _
        (query-Keeps (get_notification_recipient_sql n) λ now d i. found-After I _ d i))
      go
  where
    go : (r : Result _) → Keeps I (notify_recipient allowed n r)
    go (err e) = pure-Keeps _
    go (ok r) = search (chat_rules, attempt-Keeps, send-Keeps) depth 10

send_refusal-none :
    (row : ConversationRow) → send_refusal row ≡ none → is_open_conversation row.conversation ≡ true
unfolding send_refusal
send_refusal-none row e = ground arith

module _ {I : Db → Type 0} {Writable Sharer : ℕ → Type 0} (g : ChatInvariant I Writable Sharer)
    (allowed : ℕ → Bool) (tx : TxRunner) (t : IsTransactional tx) where
  get_conversation_for_participant-Keeps :
      (user_id id : ℕ) → Keeps I (get_conversation_for_participant user_id id)
  get_conversation_for_participant-Keeps user_id id =
      weaken-Triple _ (λ d i. i) (λ row d h. h.0)
        (get_conversation_for_participant-Ruled g user_id id)

  conversation_for-Keeps : (id : ℕ) (viewer : Viewer) → Keeps I (conversation_for id viewer)
  unfolding conversation_for
  conversation_for-Keeps id viewer = search (chat_rules, get_conversation_for_participant-Keeps)

  pub get_conversation-Keeps : (v : Option Viewer) (id : ℕ) → Keeps I (get_conversation v id)
  unfolding get_conversation
  get_conversation-Keeps none id = pure-Keeps _
  get_conversation-Keeps (some viewer) id = search (chat_rules, conversation_for-Keeps)

  pub mark_read_by-Keeps : (v : Option Viewer) (id : ℕ) → Keeps I (mark_read_by v id)
  unfolding mark_read_by
  mark_read_by-Keeps none id = pure-Keeps _
  mark_read_by-Keeps (some viewer) id = search (chat_rules, mark_conversation_read-Keeps g)

  pub close_by-Keeps : (v : Option Viewer) (id : ℕ) → Keeps I (close_by v id)
  unfolding close_by
  close_by-Keeps none id = pure-Keeps _
  close_by-Keeps (some viewer) id =
      when_found-Keeps _ _ _ (get_conversation_for_participant-Keeps viewer.user_id id)
        (pure-Keeps _)
        λ row. >>=-Keeps _ _ (attempt-Keeps _ (close_conversation-Keeps g viewer.user_id id)) go
    where
      go : (r : Result Conversation) → Keeps I (after_close viewer id r)
      go (ok c) = search (chat_rules, conversation_for-Keeps)
      go (err no_rows) = search (chat_rules, conversation_for-Keeps)
      go (err e) = throw-Keeps e

  pub send_message-Keeps :
      (v : Option Viewer) (id : ℕ) (body : Option Text)
      → Keeps I (send_message (notify allowed) v id body)
  unfolding send_message
  send_message-Keeps none id body = pure-Keeps _
  send_message-Keeps (some viewer) id body = if-Keeps (not viewer.verified) _ _ (pure-Keeps _) (
      when_found-Triple _ _ _ (get_conversation_for_participant-Ruled g viewer.user_id id)
        (pure-Keeps _) λ row. with_fact _ λ w. checked row w (message_body body))
    where
      refusal :
          (row : ConversationRow) (text : Text)
          → (is_open_conversation row.conversation ≡ true → Writable id)
          → (o : Option Message) → send_refusal row ≡ o
          → Keeps I (send_text (notify allowed) viewer id text o)
      refusal row text w (some reason) e = pure-Keeps _
      refusal row text w none e =
          >>=-Keeps _ _
            (create_message-Keeps g id viewer.user_id text (w (send_refusal-none row e)))
            λ message. search (chat_rules, notify-Keeps allowed)

      checked :
          (row : ConversationRow)
          → (is_open_conversation row.conversation ≡ true → Writable id)
          → (o : Checked) → Keeps I (send_checked (notify allowed) viewer id row o)
      checked row w (problem text) = pure-Keeps _
      checked row w (stored text) = refusal row text w (send_refusal row) refl

  start_statements-Keeps :
      (viewer : Viewer) (listing_id : ℕ) (listing : Post) (text : Text)
      → Keeps I (start_statements tx (notify allowed) viewer listing_id listing text)
  unfolding start_statements
  start_statements-Keeps viewer listing_id listing text =
      >>=-Triple _ _
        (create_conversation-Ruled g listing_id listing.owner_id viewer.user_id viewer.user_id)
        λ row. with_fact _ λ w.
          >>=-Keeps _ _ (create_message-Keeps g row.0 viewer.user_id text w) λ message. pure-Keeps _

  find_conversation-Keeps :
      (listing_id enquirer_id : ℕ)
      → Keeps I (get_conversation_by_listing_and_enquirer listing_id enquirer_id)
  find_conversation-Keeps listing_id enquirer_id =
      weaken-Triple _ (λ d i. i) (λ row d h. h.0)
        (get_conversation_by_listing_and_enquirer-Ruled g listing_id enquirer_id)

  started-Keeps :
      (viewer : Viewer) (listing_id : ℕ) (r : Result (ℕ × Conversation))
      → Keeps I (started tx (notify allowed) viewer listing_id r)
  started-Keeps viewer listing_id (ok (id, c)) =
      search (chat_rules, notify-Keeps allowed, conversation_for-Keeps) depth 10
  started-Keeps viewer listing_id (err unique_violation) =
      >>=-Keeps _ _ (attempt-Keeps _ (find_conversation-Keeps listing_id viewer.user_id)) go
    where
      go :
          (r : Result (ℕ × Conversation))
          → Keeps I (lost_race tx (notify allowed) unique_violation r)
      go (ok existing) = pure-Keeps _
      go (err e) = throw-Keeps _
  started-Keeps viewer listing_id (err e) = throw-Keeps e

  start_checked-Keeps :
      (viewer : Viewer) (listing_id : ℕ) (listing : Post) (o : Checked)
      → Keeps I (start_checked tx (notify allowed) viewer listing_id listing o)
  start_checked-Keeps viewer listing_id listing (problem text) = pure-Keeps _
  start_checked-Keeps viewer listing_id listing (stored text) =
      when_found-Keeps _ _ _ (find_conversation-Keeps listing_id viewer.user_id)
        (>>=-Keeps _ _
          (attempt-Keeps _
            (run-Triple tx t _ (λ d i. i) (start_statements-Keeps viewer listing_id listing text)))
          λ r. started-Keeps viewer listing_id r)
        λ existing. pure-Keeps _

  pub start_conversation-Keeps :
      (v : Option Viewer) (listing_id : ℕ) (body : Option Text)
      → Keeps I (start_conversation tx (notify allowed) v listing_id body)
  unfolding start_conversation start_about
  start_conversation-Keeps none listing_id body = pure-Keeps _
  start_conversation-Keeps (some viewer) listing_id body =
      search (chat_rules, get_published_listing-Keeps g, start_checked-Keeps) depth 12

  share_listed-Keeps :
      (btrim : Text → Text) (viewer : Viewer) (id : ℕ) (listing : Post)
      → Sharer viewer.user_id
      → Keeps I (share_listed btrim (notify allowed) viewer id listing)
  unfolding share_listed after_share
  share_listed-Keeps btrim viewer id listing s =
      if-Keeps (is_empty (trim_space listing.address_line)) _ _ (pure-Keeps _) (
        >>=-Keeps _ _ (share_conversation_address-Keeps g btrim id viewer.user_id s) λ affected.
          >>=-Keeps _ _ (get_conversation_for_participant-Keeps viewer.user_id id)
            λ row. search (chat_rules, notify-Keeps allowed) depth 10)

  pub share_address-Keeps :
      (btrim : Text → Text) (v : Option Viewer) (id : ℕ)
      → ((viewer : Viewer) → v ≡ some viewer → Sharer viewer.user_id)
      → Keeps I (share_address btrim (notify allowed) v id)
  unfolding share_address share_row_of
  share_address-Keeps btrim none id s = pure-Keeps _
  share_address-Keeps btrim (some viewer) id s =
      when_found-Keeps _ _ _ (get_conversation_for_participant-Keeps viewer.user_id id)
        (pure-Keeps _)
        λ row. if-Keeps (not (row.conversation.owner_id == viewer.user_id)) _ _ (pure-Keeps _) (
          if-Keeps (not viewer.verified) _ _ (pure-Keeps _) (
            if-Keeps (is_some row.conversation.address_shared_at) _ _ (pure-Keeps _)
              (unless row (share_refusal row))))
    where
      unless :
          (row : ConversationRow) (o : Option Message)
          → Keeps I (share_unless btrim (notify allowed) viewer id row o)
      unless row (some reason) = pure-Keeps _
      unless row none =
          >>=-Keeps _ _ (get_listing_for_owner-Keeps g row.conversation.listing_id)
            λ listing. share_listed-Keeps btrim viewer id listing (s viewer refl)
