-- ===== src/Chat/Conversations.antt =====
-- StartConversation, GetConversation, MarkConversationRead, CloseConversation and ShareAddress of
-- internal/httpapi/conversations.go.
use waterloo_star_backend.Common.{
  ℕ, not, Option, none, some, [], ◌∷◌, ◌==◌, ltb, if◌then◌else◌, is_some, is_none,
}
use waterloo_star_backend.Common.Text.{Text, trim_space, is_empty}
use waterloo_star_backend.Store.Rows.{Post, Conversation, Error, no_rows, unique_violation}
use waterloo_star_backend.Store.Conn.{Result, ok, err, M, ◌>>=◌, ◌>>◌, pure, throw, TxRunner}
use waterloo_star_backend.Store.Queries.{get_listing_for_owner}
use waterloo_star_backend.Handlers.Replies.{
  Message, Code, Response, shown, refused, error_body, attempt,
}
use waterloo_star_backend.Auth.Accounts.{when_found, unauthorized}
use waterloo_star_backend.Chat.Queries.{
  ConversationRow, get_published_listing, get_conversation_by_listing_and_enquirer,
  create_conversation, create_message, get_conversation_for_participant,
}
use waterloo_star_backend.Chat.UpdateQueries.{
  mark_conversation_read, close_conversation, share_conversation_address,
}
use waterloo_star_backend.Chat.Notify.{Notification, conversation_opened, address_shared}
use waterloo_star_backend.Chat.Messages.{
  Viewer, conversation_not_found, forbidden, conflict, share_refusal, Checked, stored, problem,
  message_body, body_problem, ConversationView, to_conversation,
}

unfoldable pub conversation_for : ℕ → Viewer → M ConversationView
conversation_for id viewer =
    get_conversation_for_participant viewer.user_id id >>= λ row. pure (to_conversation row viewer)

abbrev pub log_in_to_read : {A : Type 0} → Response A
log_in_to_read = unauthorized ("Log in to see your messages." ∷ [])

unfoldable pub get_conversation : Option Viewer → ℕ → M (Response ConversationView)
get_conversation none id = pure log_in_to_read
get_conversation (some viewer) id =
    when_found (conversation_for id viewer) (pure conversation_not_found)
      (λ view. pure (shown view))

unfoldable pub mark_read_by : Option Viewer → ℕ → M (Response (Unit {0}))
mark_read_by none id = pure log_in_to_read
mark_read_by (some viewer) id = mark_conversation_read viewer.user_id id >>= λ affected.
    pure (if affected == 0 then conversation_not_found else shown tt)

-- The first id of a 409 is in its details; here it is the answer's second half.
abbrev pub existing_conversation : {A : Type 0} → ℕ × Conversation → Response A
existing_conversation (id, c) =
    if is_some c.closed_at
    then conflict
        ("Your conversation about this listing was closed, so another cannot be started." ∷ [])
    else conflict ("You already have a conversation about this listing." ∷ [])

-- A closed conversation is success: no row means that it was closed already.
abbrev pub after_close : Viewer → ℕ → Result Conversation → M (Response ConversationView)
after_close viewer id (ok c) = conversation_for id viewer >>= λ view. pure (shown view)
after_close viewer id (err no_rows) = conversation_for id viewer >>= λ view. pure (shown view)
after_close viewer id (err e) = throw e

unfoldable pub close_by : Option Viewer → ℕ → M (Response ConversationView)
close_by none id = pure (unauthorized ("Log in to close a conversation." ∷ []))
close_by (some viewer) id =
    when_found (get_conversation_for_participant viewer.user_id id) (pure conversation_not_found)
      (λ row. attempt (close_conversation viewer.user_id id) >>= after_close viewer id)

module _ (tx : TxRunner) (notify : Notification → M (Unit {0})) where
  unfoldable pub start_statements : Viewer → ℕ → Post → Text → M (ℕ × Conversation)
  start_statements viewer listing_id listing text =
      create_conversation listing_id listing.owner_id viewer.user_id viewer.user_id
      >>= λ conversation.
          create_message conversation.0 viewer.user_id text >>= λ message. pure conversation

  -- A unique violation: a start at the same time won.
  abbrev pub lost_race : Error → Result (ℕ × Conversation) → M (Response ConversationView)
  lost_race e (ok existing) = pure (existing_conversation existing)
  lost_race e (err _) = throw e

  abbrev pub started : Viewer → ℕ → Result (ℕ × Conversation) → M (Response ConversationView)
  started viewer listing_id (err unique_violation) =
      attempt (get_conversation_by_listing_and_enquirer listing_id viewer.user_id)
      >>= lost_race unique_violation
  started viewer listing_id (err e) = throw e
  started viewer listing_id (ok conversation) =
      notify (record {
        kind = conversation_opened;
        conversation_id = conversation.0;
        sender_id = viewer.user_id;
        message_id = none;
      })
      >> (conversation_for conversation.0 viewer >>= λ view. pure (shown view))

  abbrev pub start_checked : Viewer → ℕ → Post → Checked → M (Response ConversationView)
  start_checked viewer listing_id listing (problem text) = pure (body_problem text)
  start_checked viewer listing_id listing (stored text) =
      when_found (get_conversation_by_listing_and_enquirer listing_id viewer.user_id)
        (attempt (tx.run (ℕ × Conversation) (start_statements viewer listing_id listing text))
          >>= started viewer listing_id)
        (λ existing. pure (existing_conversation existing))

  unfoldable pub start_about : Viewer → ℕ → Option Text → Post → M (Response ConversationView)
  start_about viewer listing_id body listing =
      if listing.owner_id == viewer.user_id
      then pure (
          refused 400 (
            error_body Code.validation
              ("That is your own listing. Students who are interested will message you." ∷ [])))
      else start_checked viewer listing_id listing (message_body body)

  unfoldable pub start_conversation :
      Option Viewer → ℕ → Option Text → M (Response ConversationView)
  start_conversation none listing_id body = pure (unauthorized ("Log in to message an owner." ∷ []))
  start_conversation (some viewer) listing_id body =
      if not viewer.verified
      then pure (forbidden ("Confirm your uwaterloo.ca address before messaging an owner." ∷ []))
      else when_found (get_published_listing listing_id)
          (pure (refused 404 (error_body Code.not_found ("No listing with that id." ∷ []))))
          (start_about viewer listing_id body)

abbrev pub no_address_to_share : Message
no_address_to_share = "Add the exact address to your listing before sharing it." ∷ []

abbrev pub or_else : {A : Type 0} → Option A → A → A
or_else none a = a
or_else (some b) a = b

module _ (btrim : Text → Text) (notify : Notification → M (Unit {0})) where
  -- The row is read again: it was not shared where something changed in between.
  unfoldable pub after_share : Viewer → ℕ → ℕ → ConversationRow → M (Response ConversationView)
  after_share viewer id affected row =
      if is_none row.conversation.address_shared_at
      then pure (
          conflict (
            or_else (share_refusal row)
              ("The address cannot be shared in this conversation now." ∷ [])))
      else if ltb 0 affected
      then notify (record {
        kind = address_shared;
        conversation_id = id;
        sender_id = viewer.user_id;
        message_id = none;
      })
        >> pure (shown (to_conversation row viewer))
      else pure (shown (to_conversation row viewer))

  unfoldable pub share_listed : Viewer → ℕ → Post → M (Response ConversationView)
  share_listed viewer id listing =
      if is_empty (trim_space listing.address_line)
      then pure (conflict no_address_to_share)
      else share_conversation_address btrim id viewer.user_id >>= λ affected.
          get_conversation_for_participant viewer.user_id id >>= after_share viewer id affected

  abbrev pub share_unless :
      Viewer → ℕ → ConversationRow → Option Message → M (Response ConversationView)
  share_unless viewer id row (some reason) = pure (conflict reason)
  share_unless viewer id row none =
      get_listing_for_owner row.conversation.listing_id >>= share_listed viewer id

  unfoldable pub share_row_of : Viewer → ℕ → ConversationRow → M (Response ConversationView)
  share_row_of viewer id row =
      if not (row.conversation.owner_id == viewer.user_id)
      then pure (forbidden ("Only the owner can share the address of their place." ∷ []))
      else if not viewer.verified
      then pure (forbidden ("Confirm your uwaterloo.ca address before sharing your address." ∷ []))
      else if is_some row.conversation.address_shared_at
      then pure (shown (to_conversation row viewer))
      else share_unless viewer id row (share_refusal row)

  unfoldable pub share_address : Option Viewer → ℕ → M (Response ConversationView)
  share_address none id = pure (unauthorized ("Log in to share an address." ∷ []))
  share_address (some viewer) id =
      when_found (get_conversation_for_participant viewer.user_id id) (pure conversation_not_found)
        (share_row_of viewer id)
