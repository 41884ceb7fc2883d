-- ===== src/Chat/Notify.antt =====
-- Notifications: `notify` of internal/httpapi/notifications.go, and GetNotificationRecipient. What
-- the limiter would answer for a recipient is a parameter here; RateLimit/Gate.antt has its state.
use waterloo_star_backend.Common.{
  ℕ, Bool, true, false, ◌&&◌, ◌||◌, not, Option, none, some, ◌==◌, leb, if◌then◌else◌, is_some,
}
use waterloo_star_backend.Store.Table.{Table, lookup, count}
use waterloo_star_backend.Store.Rows.{Db, User, Conversation, ChatMessage}
use waterloo_star_backend.Store.Conn.{
  Result, ok, err, M, ◌>>=◌, pure, query, send, notification_mail,
}
use waterloo_star_backend.Store.Queries.{found}
use waterloo_star_backend.Store.Sessions.{only_if}
use waterloo_star_backend.Handlers.Replies.{attempt}
use waterloo_star_backend.Chat.Queries.{is_participant, counterpart_of, joined, is_unread}

pub data NotificationKind : Type 0 where
  conversation_opened offer_opened address_shared reply_waiting : NotificationKind

pub record Notification : Type 0 where
  pub kind : NotificationKind
  pub conversation_id : ℕ
  -- who acted: the email goes to the other participant
  pub sender_id : ℕ
  -- the reply, for reply_waiting only
  pub message_id : Option ℕ

-- `GetNotificationRecipientRow`, without the names that only the text of the email shows.
pub record Recipient : Type 0 where
  pub id : ℕ
  pub account : User
  pub unread_through_message : ℕ

-- AND m.created_at <= (SELECT t.created_at …): no row makes it null, and no message counts.
abbrev pub is_through : Option ChatMessage → ℕ → ℕ → Bool
is_through none id at = false
is_through (some t) id at = t.conversation_id == id && leb at t.created_at

abbrev pub message_of : Option ℕ → Table ChatMessage → Option ChatMessage
message_of none t = none
message_of (some id) t = lookup id t

unfoldable pub recipient_of : Option ℕ → ℕ → ℕ → Conversation → Db → Option Recipient
recipient_of message_id sender_id id c d = joined (lookup c.listing_id d.listings) λ l.
    joined (lookup sender_id d.users) λ s. joined (lookup (counterpart_of sender_id c) d.users) λ r.
      some (record {
        id = counterpart_of sender_id c;
        account = r;
        unread_through_message =
            count
              (λ m.
                is_unread (counterpart_of sender_id c) id c m
                && is_through (message_of message_id d.messages) id m.created_at)
              d.messages;
      })

unfoldable pub get_notification_recipient_sql : Notification → ℕ → Db → Result Recipient × Db
get_notification_recipient_sql n now d =
    found
      (joined (only_if (is_participant n.sender_id) (lookup n.conversation_id d.conversations))
        λ c. recipient_of n.message_id n.sender_id n.conversation_id c d)
      d

unfoldable pub get_notification_recipient : Notification → M Recipient
get_notification_recipient n = query (get_notification_recipient_sql n)

abbrev pub is_reply : NotificationKind → Bool
is_reply reply_waiting = true
is_reply _ = false

-- Whether an event emails its recipient, before the caps
unfoldable pub wants_email : Notification → Recipient → Bool
wants_email n r =
    (not (is_reply n.kind) || r.unread_through_message == 1)
    && r.account.email_notifications
    && not (is_some r.account.suspended_at)
    && r.account.verified

module _ (allowed : ℕ → Bool) where
  abbrev pub notify_recipient : Notification → Result Recipient → M (Unit {0})
  notify_recipient n (err e) = pure tt
  notify_recipient n (ok r) =
      if wants_email n r && allowed r.id
      then (attempt (send (notification_mail r.account.email n.conversation_id)) >>= λ sent.
          pure tt)
      else pure tt

  -- It never returns an error.
  unfoldable pub notify : Notification → M (Unit {0})
  notify n = attempt (get_notification_recipient n) >>= notify_recipient n
