-- ===== src/Chat/Calls.antt =====
-- Any sequence of requests to the handlers of conversations, messages and offers, each at any time,
-- with any faults and random values, and by anyone.
use waterloo_star_backend.Common.{ℕ, ◌≡◌, Bool, Option, none, some, List, [], ◌∷◌}
use waterloo_star_backend.Common.Text.{Text}
use waterloo_star_backend.Store.Rows.{Db}
use waterloo_star_backend.Store.Conn.{Conn, TxRunner, IsTransactional}
use waterloo_star_backend.Store.Invariants.{kept}
use waterloo_star_backend.Auth.Calls.{Surroundings, surrounded}
use waterloo_star_backend.Chat.Notify.{notify}
use waterloo_star_backend.Chat.Messages.{Viewer, send_message}
use waterloo_star_backend.Chat.Conversations.{
  get_conversation, mark_read_by, close_by, start_conversation, share_address,
}
use waterloo_star_backend.Chat.Offers.{OfferBody, create_offer_by, withdraw_by}
use waterloo_star_backend.Chat.Ruled.{ChatInvariant}
use waterloo_star_backend.Chat.Kept.{
  get_conversation-Keeps, mark_read_by-Keeps, close_by-Keeps, send_message-Keeps,
  start_conversation-Keeps, share_address-Keeps,
}
use waterloo_star_backend.Chat.OffersKept.{create_offer_by-Keeps, withdraw_by-Keeps}

pub data ChatCall : Type 0 where
  starting : Option Viewer → ℕ → Option Text → ChatCall
  sending : Option Viewer → ℕ → Option Text → ChatCall
  reading marking closing sharing withdrawing : Option Viewer → ℕ → ChatCall
  offering : Option Viewer → ℕ → Option OfferBody → ChatCall

-- Who shares an address, if the call is one that does.
abbrev pub sharer : ChatCall → Option Viewer
sharer (sharing v id) = v
sharer _ = none

-- What the deployment gives: the transaction runner, the caps on notifications as they stand at
-- each of them, and the `btrim` of the database.
pub record Server : Type 1 where
  pub tx : TxRunner
  pub allowed : ℕ → Bool
  pub btrim : Text → Text

module _ (s : Server) where
  unfoldable pub perform_chat : ChatCall → Conn → Conn
  perform_chat (starting v id body) c = (start_conversation s.tx (notify s.allowed) v id body c).1
  perform_chat (sending v id body) c = (send_message (notify s.allowed) v id body c).1
  perform_chat (reading v id) c = (get_conversation v id c).1
  perform_chat (marking v id) c = (mark_read_by v id c).1
  perform_chat (closing v id) c = (close_by v id c).1
  perform_chat (sharing v id) c = (share_address s.btrim (notify s.allowed) v id c).1
  perform_chat (withdrawing v id) c = (withdraw_by v id c).1
  perform_chat (offering v id body) c = (create_offer_by s.tx (notify s.allowed) v id body c).1

  unfoldable pub perform_chats : List (Surroundings × ChatCall) → Conn → Conn
  perform_chats [] c = c
  perform_chats ((around, call) ∷ rest) c =
      perform_chats rest (perform_chat call (surrounded around c))

-- Every call of a sequence passes.
abbrev pub Every : (ChatCall → Type 0) → List (Surroundings × ChatCall) → Type 0
Every P [] = Unit {0}
Every P ((around, call) ∷ rest) = P call × Every P rest

-- A call that shares an address is a sharer's.
abbrev pub SharedBy : (ℕ → Type 0) → ChatCall → Type 0
SharedBy Sharer call = (viewer : Viewer) → sharer call ≡ some viewer → Sharer viewer.user_id

module _ (s : Server) (t : IsTransactional s.tx) {I : Db → Type 0} {Writable Sharer : ℕ → Type 0}
    (g : ChatInvariant I Writable Sharer) where
  pub perform_chat-Ruled :
      (call : ChatCall) (c : Conn) → SharedBy Sharer call → I c.db → I (perform_chat s call c).db
  unfolding perform_chat
  perform_chat-Ruled (starting v id body) c h i =
      kept _ (start_conversation-Keeps g s.allowed s.tx t v id body) c i
  perform_chat-Ruled (sending v id body) c h i =
      kept _ (send_message-Keeps g s.allowed s.tx t v id body) c i
  perform_chat-Ruled (reading v id) c h i =
      kept _ (get_conversation-Keeps g s.allowed s.tx t v id) c i
  perform_chat-Ruled (marking v id) c h i = kept _ (mark_read_by-Keeps g s.allowed s.tx t v id) c i
  perform_chat-Ruled (closing v id) c h i = kept _ (close_by-Keeps g s.allowed s.tx t v id) c i
  perform_chat-Ruled (sharing v id) c h i =
      kept _ (share_address-Keeps g s.allowed s.tx t s.btrim v id h) c i
  perform_chat-Ruled (withdrawing v id) c h i =
      kept _ (withdraw_by-Keeps g s.allowed s.tx t v id) c i
  perform_chat-Ruled (offering v id body) c h i =
      kept _ (create_offer_by-Keeps g s.allowed s.tx t v id body) c i

  pub perform_chats-Ruled :
      (calls : List (Surroundings × ChatCall)) (c : Conn)
      → Every (SharedBy Sharer) calls
      → I c.db
      → I (perform_chats s calls c).db
  unfolding perform_chats
  perform_chats-Ruled [] c h i = i
  perform_chats-Ruled ((around, call) ∷ rest) c (h, hs) i =
      perform_chats-Ruled rest (perform_chat s call (surrounded around c)) hs
        (perform_chat-Ruled call (surrounded around c) h i)

-- Anyone may share.
pub anyone : (calls : List (Surroundings × ChatCall)) → Every (SharedBy (λ _. Unit {0})) calls
anyone [] = tt
anyone ((around, call) ∷ rest) = (λ viewer e. tt, anyone rest)
