-- ===== src/Chat/Messages.antt =====
-- When a message can be sent, and SendMessage: internal/httpapi/messages.go; what a participant
-- sees of a conversation: toConversation of mapping.go, and shareRefusal of conversations.go.
use waterloo_star_backend.Common.{
  ℕ, ◌&&◌, ◌||◌, Bool, not, Option, none, some, [], ◌∷◌, ◌==◌, ltb, if◌then◌else◌, is_none, is_some,
  length,
}
use waterloo_star_backend.Common.Text.{Text, trim_space, is_empty}
use waterloo_star_backend.Store.Rows.{ChatMessage}
use waterloo_star_backend.Store.Conn.{M, ◌>>=◌, ◌>>◌, pure}
use waterloo_star_backend.Handlers.Replies.{
  Message, Code, Response, shown, refused, error_body, field_body,
}
use waterloo_star_backend.Auth.Accounts.{when_found, unauthorized}
use waterloo_star_backend.Chat.Queries.{
  ConversationRow, get_conversation_for_participant, create_message,
}
use waterloo_star_backend.Chat.UpdateQueries.{is_value}
use waterloo_star_backend.Chat.Notify.{Notification, reply_waiting}

-- The participant that the access token names
pub record Viewer : Type 0 where
  pub user_id : ℕ
  pub verified : Bool

abbrev pub conversation_not_found : {A : Type 0} → Response A
conversation_not_found =
    refused 404 (error_body Code.not_found ("No conversation of yours with that id." ∷ []))

abbrev pub forbidden : {A : Type 0} → Message → Response A
forbidden message = refused 403 (error_body Code.forbidden message)

abbrev pub conflict : {A : Type 0} → Message → Response A
conflict message = refused 409 (error_body Code.conflict message)

unfoldable pub send_refusal : ConversationRow → Option Message
send_refusal c =
    if is_some c.conversation.closed_at
    then some ("This conversation was closed." ∷ [])
    else if c.counterpart_suspended
    then some ("This account is no longer available." ∷ [])
    else if c.listing_removed
    then some ("This listing is no longer available." ∷ [])
    else none

unfoldable pub share_refusal : ConversationRow → Option Message
share_refusal c =
    if is_some c.conversation.closed_at
    then some ("This conversation was closed." ∷ [])
    else if c.counterpart_suspended
    then some ("This account is no longer available." ∷ [])
    else if c.listing_removed || not c.listing_available
    then some ("This listing is not available, so its address cannot be shared." ∷ [])
    else none

abbrev pub max_message_length : ℕ
max_message_length = 4000

-- The text to store, or a problem to show
pub data Checked : Type 0 where
  stored : Text → Checked
  problem : Message → Checked

unfoldable pub message_body : Option Text → Checked
message_body none = problem ("Write a message first." ∷ [])
message_body (some body) =
    let text = trim_space body in
    if is_empty text
    then problem ("Write a message first." ∷ [])
    else if ltb max_message_length (length text)
    then problem ("Keep a message under 4000 characters." ∷ [])
    else stored text

abbrev pub body_problem : {A : Type 0} → Message → Response A
body_problem text = refused 400 (field_body text "body" text)

-- What `gen.Conversation` says, without the listing's summary, the counterpart's name and the
-- last message.
pub record ConversationView : Type 0 where
  pub id : ℕ
  pub is_closed : Bool
  pub listing_id : ℕ
  pub listing_available : Bool
  pub counterpart_id : ℕ
  pub viewer_is_owner : Bool
  pub opened_by_viewer : Bool
  pub can_send : Bool
  pub unread_count : ℕ
  pub counterpart_available : Bool
  pub closed_at : Option ℕ
  pub closed_by_viewer : Option Bool
  pub address_shared_at : Option ℕ
  pub can_share_address : Bool
  pub place : Option Text

unfoldable pub to_conversation : ConversationRow → Viewer → ConversationView
to_conversation r viewer =
    let c = r.conversation in
    record {
      id = r.id;
      is_closed = is_some c.closed_at;
      listing_id = c.listing_id;
      listing_available = r.listing_available;
      counterpart_id = r.counterpart_id;
      viewer_is_owner = c.owner_id == viewer.user_id;
      opened_by_viewer = c.opened_by == viewer.user_id;
      can_send = viewer.verified && is_none (send_refusal r);
      unread_count = r.unread_count;
      counterpart_available = not r.counterpart_suspended;
      closed_at = c.closed_at;
      closed_by_viewer =
          if is_some c.closed_at then some (is_value c.closed_by viewer.user_id) else none;
      address_shared_at = c.address_shared_at;
      can_share_address =
          viewer.verified
          && c.owner_id == viewer.user_id
          && is_none c.address_shared_at
          && is_none (share_refusal r);
      place = r.place_address_line;
    }

module _ (notify : Notification → M (Unit {0})) where
  abbrev pub send_text : Viewer → ℕ → Text → Option Message → M (Response ChatMessage)
  send_text viewer id text (some reason) = pure (conflict reason)
  send_text viewer id text none = create_message id viewer.user_id text >>= λ message.
      notify (record {
        kind = reply_waiting;
        conversation_id = id;
        sender_id = viewer.user_id;
        message_id = some message.0;
      })
      >> pure (shown message.1)

  abbrev pub send_checked : Viewer → ℕ → ConversationRow → Checked → M (Response ChatMessage)
  send_checked viewer id row (problem text) = pure (body_problem text)
  send_checked viewer id row (stored text) = send_text viewer id text (send_refusal row)

  -- Participants first, so a stranger learns nothing from a validation error.
  unfoldable pub send_message : Option Viewer → ℕ → Option Text → M (Response ChatMessage)
  send_message none id body = pure (unauthorized ("Log in to send a message." ∷ []))
  send_message (some viewer) id body =
      if not viewer.verified
      then pure (forbidden ("Confirm your uwaterloo.ca address before sending messages." ∷ []))
      else when_found (get_conversation_for_participant viewer.user_id id)
          (pure conversation_not_found) (λ row. send_checked viewer id row (message_body body))
