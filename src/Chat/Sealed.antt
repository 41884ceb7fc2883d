-- ===== src/Chat/Sealed.antt =====
-- A conversation that its enquirer closed: it stays closed, and nothing is written in it.
use waterloo_star_backend.Common.{
  ℕ, ◌≡◌, refl, Bool, false, ◌&&◌, not, List, [], ◌∷◌, ◌==◌, arith, is_some, if◌then◌else◌,
}
use waterloo_star_backend.Store.Table.{Table}
use waterloo_star_backend.Store.AtKey.{
  AtKey, AtKey-find, AtKey-lookup_other, AtKey-insert, AtKey-update,
}
use waterloo_star_backend.Store.Rows.{Db, Conversation, ChatMessage}
use waterloo_star_backend.Store.Conn.{Conn, IsTransactional}
use waterloo_star_backend.Auth.Calls.{Surroundings}
use waterloo_star_backend.Chat.UpdateQueries.{
  is_value, mark_read, can_close, close_row, can_reopen, reopen_row, can_share, share_row,
}
use waterloo_star_backend.Chat.Ruled.{ChatInvariant}
use waterloo_star_backend.Chat.Calls.{Server, ChatCall, perform_chats, perform_chats-Ruled, anyone}

-- Closed, and not by the listing's owner
unfoldable pub is_refused : Conversation → Bool
is_refused c = is_some c.closed_at && not (is_value c.closed_by c.owner_id)

-- The messages of a conversation
unfoldable pub messages_in : ℕ → Table ChatMessage → List ChatMessage
messages_in id [] = []
messages_in id ((j, m) ∷ t) =
    let rest = messages_in id t in if m.conversation_id == id then m ∷ rest else rest

pub record IsSealed (id : ℕ) (messages : List ChatMessage) (d : Db) : Type 0 where
  pub refused : AtKey is_refused id d.conversations
  pub written : messages_in id d.messages ≡ messages

pub IsSealed-Ruled :
    (id : ℕ) (messages : List ChatMessage)
    → ChatInvariant (IsSealed id messages) (λ k. (k == id) ≡ false) (λ _. Unit {0})
unfolding is_refused messages_in mark_read can_close close_row can_reopen reopen_row can_share
    share_row
IsSealed-Ruled id messages = record {
  reads_row = λ k c d i e o.
      AtKey-lookup_other is_refused id k c d.conversations i.refused e (ground arith);
  finds_row =
      λ q k c d i e o. AtKey-find is_refused id q k c d.conversations i.refused e (ground arith);
  creates = λ k listing_id owner_id enquirer_id opened_by d i e. (
    record {
      refused = AtKey-insert is_refused id k _ d.conversations i.refused e;
      written = i.written;
    },
    let present = i.refused.present in ground arith,
  );
  writes = λ k m d i w. record { refused = i.refused; written = rw w i.written };
  marks = λ k user_id now c d i e. record {
    refused = AtKey-update is_refused id k c _ d.conversations i.refused e (λ q. q);
    written = i.written;
  };
  closes = λ k user_id now c d i e q. record {
    refused = AtKey-update is_refused id k c _ d.conversations i.refused e (λ r. ground arith);
    written = i.written;
  };
  reopens = λ k owner_id c d i e q. (
    record {
      refused = AtKey-update is_refused id k c _ d.conversations i.refused e (λ r. ground arith);
      written = i.written;
    },
    AtKey-lookup_other is_refused id k c d.conversations i.refused e (ground arith),
  );
  shares = λ btrim k owner_id now c d i e q s. record {
    refused = AtKey-update is_refused id k c _ d.conversations i.refused e (λ r. r);
    written = i.written;
  };
  offers = λ t d i. record { refused = i.refused; written = i.written };
}

-- A conversation that was closed by someone other than the listing's owner stays so, whatever
-- requests of conversations, messages and offers are made, and no message is ever written in it
-- again.
pub perform_chats-IsSealed :
    (s : Server)
    → IsTransactional s.tx
    → (id : ℕ) (calls : List (Surroundings × ChatCall)) (c : Conn)
    → AtKey is_refused id c.db.conversations
    → IsSealed id (messages_in id c.db.messages) (perform_chats s calls c).db
perform_chats-IsSealed s t id calls c h =
    perform_chats-Ruled s t (IsSealed-Ruled id (messages_in id c.db.messages)) calls c
      (anyone calls) (record { refused = h; written = refl })
