-- ===== src/Chat/Offers.antt =====
-- CreateOffer, makeOffer and WithdrawOffer of internal/httpapi/offers.go. The body of the 201 is
-- read back by ListOffersForRequest; here the answer is the offer's row.
use waterloo_star_backend.Common.{
  ℕ, Bool, true, false, not, Option, none, some, [], ◌∷◌, ◌==◌, ltb, if◌then◌else◌, is_none,
  is_some,
}
use waterloo_star_backend.Common.Text.{Text, trim_space, byte_length, text_eq}
use waterloo_star_backend.Store.Rows.{Post, Conversation, RequestOffer, unique_violation}
use waterloo_star_backend.Store.Conn.{Result, ok, err, M, ◌>>=◌, ◌>>◌, pure, throw, TxRunner}
use waterloo_star_backend.Store.Queries.{get_listing_for_owner}
use waterloo_star_backend.Listing.Validate.{published}
use waterloo_star_backend.Handlers.Replies.{Code, Response, shown, refused, error_body, attempt}
use waterloo_star_backend.Auth.Accounts.{when_found, unauthorized, bad_request}
use waterloo_star_backend.Chat.Queries.{
  get_published_request, get_conversation_by_listing_and_enquirer, create_conversation,
  create_message,
}
use waterloo_star_backend.Chat.UpdateQueries.{reopen_conversation, is_value}
use waterloo_star_backend.Chat.Offered.{
  get_offer, get_offer_for_listing, create_offer, set_offer_conversation, withdraw_offer,
}
use waterloo_star_backend.Chat.Notify.{Notification, offer_opened, reply_waiting}
use waterloo_star_backend.Chat.Messages.{Viewer, forbidden, conflict}

abbrev pub max_note_length : ℕ
max_note_length = 1000

pub record MadeOffer : Type 0 where
  pub offer : RequestOffer
  pub conversation_id : ℕ
  pub opened : Bool
  pub note_id : Option ℕ

-- What makeOffer returns without an error: an offer, or a refusal with nothing written.
pub data Made : Type 0 where
  made : MadeOffer → Made
  turned_down : Made

-- A note that is not empty is a message from the owner.
abbrev pub post_note : ℕ → ℕ → Text → M (Option ℕ)
post_note conversation_id owner_id [] = pure none
post_note conversation_id owner_id (c ∷ note) =
    create_message conversation_id owner_id (c ∷ note) >>= λ message. pure (some message.0)

unfoldable pub write_offer_in : ℕ → ℕ → Post → Text → Bool → ℕ → M Made
write_offer_in request_id listing_id listing note opened conversation_id = do
  offer ← create_offer request_id listing_id listing.owner_id note
  joined ← set_offer_conversation conversation_id offer.0
  note_id ← post_note conversation_id listing.owner_id note
  pure (
      made (record {
        offer = joined;
        conversation_id = conversation_id;
        opened = opened;
        note_id = note_id;
      }))

-- The conversation that the listing and the poster already have is joined, reopened or left alone.
unfoldable pub offer_existing : ℕ → ℕ → Post → Text → ℕ × Conversation → M Made
offer_existing request_id listing_id listing note (id, c) =
    if is_none c.closed_at
    then write_offer_in request_id listing_id listing note false id
    else if not (is_value c.closed_by listing.owner_id)
    then pure turned_down
    else reopen_conversation id listing.owner_id
      >> write_offer_in request_id listing_id listing note false id

unfoldable pub make_offer_statements : ℕ → ℕ → ℕ → Post → Text → M Made
make_offer_statements request_id poster_id listing_id listing note =
    when_found (get_conversation_by_listing_and_enquirer listing_id poster_id)
      (create_conversation listing_id listing.owner_id poster_id listing.owner_id
        >>= λ conversation. write_offer_in request_id listing_id listing note true conversation.0)
      (offer_existing request_id listing_id listing note)

abbrev pub offered_before : {A : Type 0} → ℕ × RequestOffer → Response A
offered_before (id, o) =
    if is_some o.withdrawn_at
    then conflict (
        "You offered that listing here before and withdrew it. Offer a different place, or repost this one."
        ∷ [])
    else conflict ("You have already offered that listing here." ∷ [])

-- `CreateOfferJSONRequestBody`
pub record OfferBody : Type 0 where
  pub listing_id : ℕ
  pub note : Option Text

abbrev pub note_of : Option Text → Text
note_of none = []
note_of (some note) = trim_space note

module _ (tx : TxRunner) (notify : Notification → M (Unit {0})) where
  unfoldable pub make_offer : ℕ → ℕ → ℕ → Post → Text → M Made
  make_offer request_id poster_id listing_id listing note =
      tx.run Made (make_offer_statements request_id poster_id listing_id listing note)

  -- An offer that opened its conversation tells the poster so; one that joined tells of its note.
  abbrev pub tell_poster : Viewer → MadeOffer → Bool → Option ℕ → M (Unit {0})
  tell_poster viewer m true note_id = notify (record {
    kind = offer_opened;
    conversation_id = m.conversation_id;
    sender_id = viewer.user_id;
    message_id = none;
  })
  tell_poster viewer m false none = pure tt
  tell_poster viewer m false (some message_id) = notify (record {
    kind = reply_waiting;
    conversation_id = m.conversation_id;
    sender_id = viewer.user_id;
    message_id = some message_id;
  })

  abbrev pub answer_made : Viewer → Made → M (Response RequestOffer)
  answer_made viewer turned_down =
      pure (conflict ("That student has closed the conversation about this listing." ∷ []))
  answer_made viewer (made m) = tell_poster viewer m m.opened m.note_id >> pure (shown m.offer)

  -- The same offer made at the same time, or one retry
  abbrev pub retried : Viewer → M Made → Result (ℕ × RequestOffer) → M (Response RequestOffer)
  retried viewer again (ok o) = pure (conflict ("You have already offered that listing here." ∷ []))
  retried viewer again (err e) = again >>= answer_made viewer

  abbrev pub first_try :
      Viewer → M Made → M (ℕ × RequestOffer) → Result Made → M (Response RequestOffer)
  first_try viewer again check (ok m) = answer_made viewer m
  first_try viewer again check (err unique_violation) = attempt check >>= retried viewer again
  first_try viewer again check (err e) = throw e

  unfoldable pub try_offer : Viewer → ℕ → ℕ → ℕ → Post → Text → M (Response RequestOffer)
  try_offer viewer request_id poster_id listing_id listing note =
      let attempted = make_offer request_id poster_id listing_id listing note in
      attempt attempted >>= first_try viewer attempted (get_offer_for_listing request_id listing_id)

  unfoldable pub offer_listing : Viewer → ℕ → ℕ → ℕ → Option Text → Post → M (Response RequestOffer)
  offer_listing viewer request_id poster_id listing_id note listing =
      if not (listing.owner_id == viewer.user_id)
      then pure (refused 404 (error_body Code.not_found ("No listing of yours with that id." ∷ [])))
      else if is_some listing.removed_at
      then pure (
          refused 400 (
            error_body Code.validation
              ("A moderator took that listing down, so it can't be offered." ∷ [])))
      else if not (text_eq listing.status published)
      then pure (
          refused 400 (
            error_body Code.validation (
              "Publish that listing before offering it — the student needs to be able to see the place."
              ∷ [])))
      else if ltb max_note_length (byte_length (note_of note))
      then pure (
          refused 400 (
            error_body Code.validation
              ("Keep the note under 1000 characters. The listing says the rest." ∷ [])))
      else when_found (get_offer_for_listing request_id listing_id)
          (try_offer viewer request_id poster_id listing_id listing (note_of note))
          (λ existing. pure (offered_before existing))

  unfoldable pub offer_for : Viewer → ℕ → OfferBody → Post → M (Response RequestOffer)
  offer_for viewer request_id body request =
      if request.owner_id == viewer.user_id
      then pure (
          refused 400 (
            error_body Code.validation
              ("That is your own request. Owners who have a place for you will answer it." ∷ [])))
      else when_found (get_listing_for_owner body.listing_id)
          (pure
            (refused 404 (error_body Code.not_found ("No listing of yours with that id." ∷ []))))
          (offer_listing viewer request_id request.owner_id body.listing_id body.note)

  unfoldable pub create_offer_by : Option Viewer → ℕ → Option OfferBody → M (Response RequestOffer)
  create_offer_by none request_id body = pure (unauthorized ("Log in to answer a request." ∷ []))
  create_offer_by (some viewer) request_id body =
      if not viewer.verified
      then pure (forbidden ("Confirm your uwaterloo.ca address before answering a request." ∷ []))
      else elim body [
        | none ↦ pure (bad_request ("A listing to offer is required." ∷ []))
        | some b ↦
            when_found (get_published_request request_id)
              (pure (refused 404 (error_body Code.not_found ("No request with that id." ∷ []))))
              (offer_for viewer request_id b)
      ]

unfoldable pub withdraw_of : Viewer → ℕ → RequestOffer → M (Response (Unit {0}))
withdraw_of viewer id offer =
    if not (offer.owner_id == viewer.user_id)
    then pure (refused 404 (error_body Code.not_found ("No offer of yours with that id." ∷ [])))
    else if is_none offer.withdrawn_at
    then withdraw_offer id >> pure (shown tt)
    else pure (shown tt)

-- Withdrawn already is success.
unfoldable pub withdraw_by : Option Viewer → ℕ → M (Response (Unit {0}))
withdraw_by none id = pure (unauthorized ("Log in to withdraw an offer." ∷ []))
withdraw_by (some viewer) id =
    when_found (get_offer id)
      (pure (refused 404 (error_body Code.not_found ("No offer of yours with that id." ∷ []))))
      (withdraw_of viewer id)
