-- ===== src/Chat/Tests.antt =====
-- Conversations on a small site: account 3 lists place 7, account 4 asks about it.
use waterloo_star_backend.Common.{ℕ, ◌≡◌, refl, true, false, none, some, List, [], ◌∷◌, ◌==◌, arith}
use waterloo_star_backend.Common.Text.{trim_space}
use waterloo_star_backend.Store.Table.{lookup, find, all_rows}
use waterloo_star_backend.Store.AtKey.{AtKey}
use waterloo_star_backend.Store.Rows.{Role, Post, Conversation, ChatMessage}
use waterloo_star_backend.Store.Conn.{Conn}
use waterloo_star_backend.Listing.Validate.{published}
use waterloo_star_backend.Admin.Tests.{pool_tx, pool_tx-IsTransactional, account}
use waterloo_star_backend.Auth.Calls.{Surroundings}
use waterloo_star_backend.Chat.Queries.{is_between}
use waterloo_star_backend.Chat.Notify.{notify}
use waterloo_star_backend.Chat.Messages.{Viewer}
use waterloo_star_backend.Chat.Conversations.{get_conversation}
use waterloo_star_backend.Chat.Offers.{make_offer}
use waterloo_star_backend.Chat.Calls.{Server, ChatCall, perform_chats, Every, SharedBy}
use waterloo_star_backend.Chat.Sealed.{is_refused, messages_in, IsSealed, perform_chats-IsSealed}
use waterloo_star_backend.Chat.Address.{
  follows, is_unshared_of, perform_chats-follows, perform_chats-is_unshared_of,
}
use waterloo_star_backend.Chat.Reveal.{Reads, get_conversation-Reads}
use waterloo_star_backend.Chat.MakeOffer.{IsTurnedDown, make_offer-closed}

abbrev place : Post
place = record {
  owner_id = 3;
  status = published;
  published_at = some 100;
  removed_at = none;
  removed_by = none;
  removed_reason = none;
  updated_at = 0;
  address_line = 49 ∷ 32 ∷ 65 ∷ [];
}

-- Opened by the student, and its address shared
abbrev shared : Conversation
shared = record {
  listing_id = 7;
  owner_id = 3;
  enquirer_id = 4;
  opened_by = 4;
  closed_at = none;
  closed_by = none;
  owner_read_at = none;
  enquirer_read_at = none;
  address_shared_at = some 300;
}

abbrev private : Conversation
private = record shared { address_shared_at = none }

-- Closed by the student
abbrev refused : Conversation
refused = record private { closed_at = some 400; closed_by = some 4 }

abbrev hello : ChatMessage
hello = record { conversation_id = 30; sender_id = 4; body = 104 ∷ 105 ∷ []; created_at = 200 }

abbrev town : Conversation → Conn
town c = record {
  db = record {
    users = (3, account Role.user) ∷ (4, account Role.user) ∷ [];
    listings = (7, place) ∷ [];
    requests = (8, record place { owner_id = 4; address_line = [] }) ∷ [];
    refresh_tokens = [];
    email_verification_tokens = [];
    password_reset_tokens = [];
    conversations = (30, c) ∷ [];
    messages = (31, hello) ∷ [];
    offers = [];
    admin_actions = [];
  };
  faults = [];
  now = 500;
  draws = [];
  outbox = [];
}

abbrev owner : Viewer
owner = record { user_id = 3; verified = true }

abbrev student : Viewer
student = record { user_id = 4; verified = true }

abbrev server : Server
server = record { tx = pool_tx; allowed = λ _. true; btrim = trim_space }

abbrev quiet : ℕ → Surroundings
quiet now = record { now = now; faults = []; draws = 90 ∷ 91 ∷ [] }

-- Both write, the student closes, and the student asks to share the address.
abbrev calls : List (Surroundings × ChatCall)
calls =
    (quiet 600, ChatCall.sending (some owner) 30 (some (104 ∷ 105 ∷ [])))
    ∷ (quiet 610, ChatCall.marking (some student) 30)
    ∷ (quiet 620, ChatCall.closing (some student) 30)
    ∷ (quiet 630, ChatCall.sharing (some student) 30)
    ∷ []

perform_chats-IsSealed_example :
    IsSealed 30
      (messages_in 30 (town refused).db.messages)
      (perform_chats server calls (town refused)).db
unfolding lookup all_rows is_refused
perform_chats-IsSealed_example =
    perform_chats-IsSealed server pool_tx-IsTransactional 30 calls (town refused)
      (record { present = refl; passes = refl })

perform_chats-follows_example :
    AtKey (follows shared) 30 (perform_chats server calls (town shared)).db.conversations
unfolding lookup all_rows follows
perform_chats-follows_example =
    perform_chats-follows server pool_tx-IsTransactional 30 shared calls (town shared)
      (record { present = refl; passes = refl })

-- The student is not the owner.
only_the_student : Every (SharedBy (λ user_id. (user_id == 3) ≡ false)) calls
only_the_student = (nobody, (nobody, (nobody, (λ viewer e. ground arith, tt))))
  where
    nobody : (viewer : Viewer) → none ≡ some viewer → (viewer.user_id == 3) ≡ false
    nobody viewer e = absurd (cc)

perform_chats-is_unshared_of_example :
    AtKey (is_unshared_of 3) 30 (perform_chats server calls (town private)).db.conversations
unfolding lookup all_rows is_unshared_of
perform_chats-is_unshared_of_example =
    perform_chats-is_unshared_of server pool_tx-IsTransactional 30 3 calls (town private)
      only_the_student (record { present = refl; passes = refl })

get_conversation-Reads_example :
    Reads 4 30 (town shared).db (get_conversation (some student) 30 (town shared))
get_conversation-Reads_example = get_conversation-Reads student 30 (town shared)

make_offer-closed_example :
    IsTurnedDown
      (town refused).db
      (make_offer pool_tx (notify (λ _. true)) 8 4 7 place [] (town refused))
unfolding find is_between
make_offer-closed_example =
    make_offer-closed pool_tx pool_tx-IsTransactional (notify (λ _. true)) 8 4 7 place []
      (town refused) 30 refused refl refl refl
