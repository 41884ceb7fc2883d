-- ===== src/Chat/OffersKept.antt =====
-- Every handler of offers keeps an invariant that its statements keep.
use waterloo_star_backend.Common.{
  ℕ, ◌≡◌, Bool, true, false, not, Option, none, some, [], ◌∷◌, is_none,
}
use waterloo_star_backend.Common.Text.{Text}
use waterloo_star_backend.Store.Rows.{Db, Post, Conversation, RequestOffer, unique_violation}
use waterloo_star_backend.Store.Conn.{Result, ok, err, M, TxRunner, IsTransactional}
use waterloo_star_backend.Store.Hoare.{>>=-Triple, if-Triple, run-Triple}
use waterloo_star_backend.Store.Invariants.{
  Keeps, pure-Keeps, throw-Keeps, >>=-Keeps, if-Keeps, attempt-Keeps, with_fact,
}
use waterloo_star_backend.Auth.Guarded.{when_found-Triple}
use waterloo_star_backend.Chat.UpdateQueries.{is_value}
use waterloo_star_backend.Chat.Notify.{notify}
use waterloo_star_backend.Chat.Messages.{Viewer}
use waterloo_star_backend.Chat.Offers.{
  Made, made, turned_down, post_note, write_offer_in, offer_existing, make_offer_statements,
  OfferBody, make_offer, tell_poster, answer_made, retried, first_try, try_offer, offer_listing,
  offer_for, create_offer_by, withdraw_of, withdraw_by,
}
use waterloo_star_backend.Chat.Ruled.{ChatInvariant, is_open_conversation}
use waterloo_star_backend.Chat.Rules.{
  get_published_request-Keeps, get_listing_for_owner-Keeps, get_offer-Keeps,
  get_offer_for_listing-Keeps, get_conversation_by_listing_and_enquirer-Ruled,
  create_conversation-Ruled, create_message-Keeps,
}
use waterloo_star_backend.Chat.Updates.{
  reopen_conversation-Ruled, create_offer-Keeps, set_offer_conversation-Keeps, withdraw_offer-Keeps,
}
use waterloo_star_backend.Chat.Kept.{chat_rules, notify-Keeps}

module _ {I : Db → Type 0} {Writable Sharer : ℕ → Type 0} (g : ChatInvariant I Writable Sharer)
    (allowed : ℕ → Bool) (tx : TxRunner) (t : IsTransactional tx) where
  post_note-Keeps :
      (conversation_id owner_id : ℕ) (note : Text)
      → Writable conversation_id
      → Keeps I (post_note conversation_id owner_id note)
  post_note-Keeps conversation_id owner_id [] w = pure-Keeps _
  post_note-Keeps conversation_id owner_id (c ∷ note) w =
      >>=-Keeps _ _ (create_message-Keeps g conversation_id owner_id (c ∷ note) w)
        λ message. pure-Keeps _

  write_offer_in-Keeps :
      (request_id listing_id : ℕ) (listing : Post) (note : Text) (opened : Bool)
      (conversation_id : ℕ)
      → Writable conversation_id
      → Keeps I (write_offer_in request_id listing_id listing note opened conversation_id)
  unfolding write_offer_in
  write_offer_in-Keeps request_id listing_id listing note opened conversation_id w =
      >>=-Keeps _ _ (create_offer-Keeps g request_id listing_id listing.owner_id note) λ offer.
        >>=-Keeps _ _ (set_offer_conversation-Keeps g conversation_id offer.0) λ joined.
          >>=-Keeps _ _ (post_note-Keeps conversation_id listing.owner_id note w)
            λ note_id. pure-Keeps _

  offer_existing-Keeps :
      (request_id listing_id : ℕ) (listing : Post) (note : Text) (row : ℕ × Conversation)
      → (is_open_conversation (row.1) ≡ true → Writable (row.0))
      → Keeps I (offer_existing request_id listing_id listing note row)
  unfolding offer_existing
  offer_existing-Keeps request_id listing_id listing note (id, c) w =
      if-Triple (is_none c.closed_at) _ _
        (λ e. write_offer_in-Keeps request_id listing_id listing note false id (w e))
        λ _. if-Keeps (not (is_value c.closed_by listing.owner_id)) _ _ (pure-Keeps _) (
          >>=-Triple _ _ (reopen_conversation-Ruled g id listing.owner_id) λ _.
            with_fact _ λ v. write_offer_in-Keeps request_id listing_id listing note false id v)

  make_offer_statements-Keeps :
      (request_id poster_id listing_id : ℕ) (listing : Post) (note : Text)
      → Keeps I (make_offer_statements request_id poster_id listing_id listing note)
  unfolding make_offer_statements
  make_offer_statements-Keeps request_id poster_id listing_id listing note =
      when_found-Triple _ _ _
        (get_conversation_by_listing_and_enquirer-Ruled g listing_id poster_id)
        (>>=-Triple _ _
          (create_conversation-Ruled g listing_id listing.owner_id poster_id listing.owner_id)
          λ row.
            with_fact _ λ w. write_offer_in-Keeps request_id listing_id listing note true row.0 w)
        λ row. with_fact _ λ w. offer_existing-Keeps request_id listing_id listing note row w

  make_offer-Keeps :
      (request_id poster_id listing_id : ℕ) (listing : Post) (note : Text)
      → Keeps I (make_offer tx (notify allowed) request_id poster_id listing_id listing note)
  unfolding make_offer
  make_offer-Keeps request_id poster_id listing_id listing note =
      run-Triple tx t _ (λ d i. i)
        (make_offer_statements-Keeps request_id poster_id listing_id listing note)

  answer_made-Keeps :
      (viewer : Viewer) (m : Made) → Keeps I (answer_made tx (notify allowed) viewer m)
  answer_made-Keeps viewer turned_down = pure-Keeps _
  answer_made-Keeps viewer (made m) = >>=-Keeps _ _ (tell m.opened m.note_id) λ _. pure-Keeps _
    where
      tell :
          (opened : Bool) (note_id : Option ℕ)
          → Keeps I (tell_poster tx (notify allowed) viewer m opened note_id)
      tell true note_id = notify-Keeps allowed _
      tell false none = pure-Keeps _
      tell false (some message_id) = notify-Keeps allowed _

  first_try-Keeps :
      (viewer : Viewer) (again : M Made) (check : M (ℕ × RequestOffer)) (r : Result Made)
      → Keeps I again
      → Keeps I check
      → Keeps I (first_try tx (notify allowed) viewer again check r)
  first_try-Keeps viewer again check (ok m) k l = answer_made-Keeps viewer m
  first_try-Keeps viewer again check (err unique_violation) k l =
      >>=-Keeps _ _ (attempt-Keeps check l) retry
    where
      retry : (r : Result (ℕ × RequestOffer)) → Keeps I (retried tx (notify allowed) viewer again r)
      retry (ok o) = pure-Keeps _
      retry (err e) = >>=-Keeps again _ k λ m. answer_made-Keeps viewer m
  first_try-Keeps viewer again check (err e) k l = throw-Keeps e

  try_offer-Keeps :
      (viewer : Viewer) (request_id poster_id listing_id : ℕ) (listing : Post) (note : Text)
      → Keeps I (try_offer tx (notify allowed) viewer request_id poster_id listing_id listing note)
  unfolding try_offer
  try_offer-Keeps viewer request_id poster_id listing_id listing note =
      >>=-Keeps _ _
        (attempt-Keeps _ (make_offer-Keeps request_id poster_id listing_id listing note))
        λ r.
          first_try-Keeps viewer _ _ r
            (make_offer-Keeps request_id poster_id listing_id listing note)
            (get_offer_for_listing-Keeps g request_id listing_id)

  pub create_offer_by-Keeps :
      (v : Option Viewer) (request_id : ℕ) (body : Option OfferBody)
      → Keeps I (create_offer_by tx (notify allowed) v request_id body)
  unfolding create_offer_by offer_for offer_listing
  create_offer_by-Keeps none request_id body = pure-Keeps _
  create_offer_by-Keeps (some viewer) request_id none =
      if-Keeps (not viewer.verified) _ _ (pure-Keeps _) (pure-Keeps _)
  create_offer_by-Keeps (some viewer) request_id (some body) =
      search
        (
          chat_rules,
          get_published_request-Keeps g,
          get_listing_for_owner-Keeps g,
          get_offer_for_listing-Keeps g,
          try_offer-Keeps,
        )
        depth 20

  pub withdraw_by-Keeps : (v : Option Viewer) (id : ℕ) → Keeps I (withdraw_by v id)
  unfolding withdraw_by withdraw_of
  withdraw_by-Keeps none id = pure-Keeps _
  withdraw_by-Keeps (some viewer) id =
      search (chat_rules, get_offer-Keeps g, withdraw_offer-Keeps g) depth 12
