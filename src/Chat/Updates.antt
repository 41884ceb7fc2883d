-- ===== src/Chat/Updates.antt =====
-- The statements that write rows of conversations and offers, by the rules of an invariant.
use waterloo_star_backend.Common.{
  ℕ, ◌&&◌, Option, none, some, ◌∷◌, leb, length, is_none, is_some, if◌then◌else◌,
}
use waterloo_star_backend.Common.Text.{Text}
use waterloo_star_backend.Store.Table.{lookup, update, find}
use waterloo_star_backend.Store.Rows.{Db, RequestOffer, no_rows, database}
use waterloo_star_backend.Store.Conn.{ok, err, draw}
use waterloo_star_backend.Store.Sessions.{unless_taken}
use waterloo_star_backend.Store.Hoare.{Triple, After, query-Triple}
use waterloo_star_backend.Store.Invariants.{Keeps, query-Keeps, draw-Keeps, >>=-Keeps}
use waterloo_star_backend.Auth.Guarded.{if-After, unless_taken-After}
use waterloo_star_backend.Chat.Queries.{is_participant}
use waterloo_star_backend.Chat.UpdateQueries.{
  mark_read, mark_conversation_read, mark_conversation_read_sql, can_close, close_row,
  close_conversation, close_conversation_sql, can_reopen, reopen_row, reopen_conversation,
  reopen_conversation_sql, can_share, share_row, share_conversation_address,
  share_conversation_address_sql,
}
use waterloo_star_backend.Chat.Offered.{
  is_offer_of, insert_offer, create_offer, create_offer_sql, write_offer, set_offer_conversation,
  set_offer_conversation_sql, withdraw_offer, withdraw_offer_sql,
}
use waterloo_star_backend.Chat.Ruled.{ChatInvariant, rewritten-After}

module _ {I : Db → Type 0} {Writable Sharer : ℕ → Type 0}
    (g : ChatInvariant I Writable Sharer) where
  pub mark_conversation_read-Keeps : (user_id id : ℕ) → Keeps I (mark_conversation_read user_id id)
  unfolding mark_conversation_read mark_conversation_read_sql
  mark_conversation_read-Keeps user_id id =
      query-Keeps (mark_conversation_read_sql user_id id) λ now d i.
        rewritten-After I (λ _. I) id (is_participant user_id) (mark_read user_id now) (λ _. 1)
          (ok 0, d) (lookup id d.conversations) d i λ c e q. g.marks id user_id now c d i e

  pub close_conversation-Keeps : (user_id id : ℕ) → Keeps I (close_conversation user_id id)
  unfolding close_conversation close_conversation_sql
  close_conversation-Keeps user_id id = query-Keeps (close_conversation_sql user_id id) λ now d i.
      rewritten-After I (λ _. I) id (can_close user_id) (close_row user_id now) (λ c. c)
        (err no_rows, d) (lookup id d.conversations) d i λ c e q. g.closes id user_id now c d i e q

  pub reopen_conversation-Ruled :
      (id owner_id : ℕ) → Triple I I (reopen_conversation id owner_id) (λ _ d. I d × Writable id)
  unfolding reopen_conversation reopen_conversation_sql
  reopen_conversation-Ruled id owner_id =
      query-Triple (reopen_conversation_sql id owner_id) (λ d i. i)
        λ now d i.
          rewritten-After I (λ _ d. I d × Writable id) id (can_reopen owner_id) reopen_row (λ c. c)
            (err no_rows, d) (lookup id d.conversations) d i
            λ c e q. g.reopens id owner_id c d i e q

  pub share_conversation_address-Keeps :
      (btrim : Text → Text) (id owner_id : ℕ)
      → Sharer owner_id
      → Keeps I (share_conversation_address btrim id owner_id)
  unfolding share_conversation_address share_conversation_address_sql
  share_conversation_address-Keeps btrim id owner_id s =
      query-Keeps (share_conversation_address_sql btrim id owner_id) λ now d i.
        rewritten-After I (λ _. I) id (can_share btrim owner_id d) (share_row now) (λ _. 1)
          (ok 0, d) (lookup id d.conversations) d i
          λ c e q. g.shares btrim id owner_id now c d i e q s

  pub create_offer-Keeps :
      (request_id listing_id owner_id : ℕ) (note : Text)
      → Keeps I (create_offer request_id listing_id owner_id note)
  unfolding create_offer create_offer_sql
  create_offer-Keeps request_id listing_id owner_id note = >>=-Keeps draw _ draw-Keeps λ id.
      query-Keeps (create_offer_sql id request_id listing_id owner_id note) λ now d i.
        let o : RequestOffer = record {
          request_id = request_id;
          listing_id = listing_id;
          owner_id = owner_id;
          note = note;
          withdrawn_at = none;
          conversation_id = none;
        } in
        let inserted = unless_taken (lookup id d.offers) d (insert_offer id o d) in
        if-After I
          (leb (length note) 1000
            && is_some (lookup request_id d.requests)
            && is_some (lookup listing_id d.listings)
            && is_some (lookup owner_id d.users))
          (unless_taken (find (is_offer_of request_id listing_id) d.offers) d inserted)
          (err database, d)
          (unless_taken-After I d i inserted (find (is_offer_of request_id listing_id) d.offers)
            λ _.
              unless_taken-After I d i (insert_offer id o d) (lookup id d.offers)
                λ _. g.offers ((id, o) ∷ d.offers) d i)
          i

  pub set_offer_conversation-Keeps :
      (conversation_id id : ℕ) → Keeps I (set_offer_conversation conversation_id id)
  unfolding set_offer_conversation set_offer_conversation_sql
  set_offer_conversation-Keeps conversation_id id =
      query-Keeps (set_offer_conversation_sql conversation_id id)
        λ now d i. go d i (lookup id d.offers)
    where
      go :
          (d : Db)
          → I d
          → (o : Option RequestOffer)
          → After {A = RequestOffer} I
              (λ _. I)
              (elim o [
                | none ↦ (err no_rows, d)
                | some o ↦
                    if is_some (lookup conversation_id d.conversations)
                    then write_offer id (record o { conversation_id = some conversation_id }) d
                    else (err database, d)
              ])
      go d i none = i
      go d i (some o) =
          if-After I (is_some (lookup conversation_id d.conversations))
            (write_offer id (record o { conversation_id = some conversation_id }) d)
            (err database, d)
            (g.offers (update id (record o { conversation_id = some conversation_id }) d.offers) d
              i)
            i

  pub withdraw_offer-Keeps : (id : ℕ) → Keeps I (withdraw_offer id)
  unfolding withdraw_offer withdraw_offer_sql
  withdraw_offer-Keeps id =
      query-Keeps (withdraw_offer_sql id) λ now d i. go now d i (lookup id d.offers)
    where
      go :
          (now : ℕ) (d : Db)
          → I d
          → (o : Option RequestOffer)
          → After {A = RequestOffer} I
              (λ _. I)
              (elim o [
                | none ↦ (err no_rows, d)
                | some o ↦
                    if is_none o.withdrawn_at
                    then write_offer id (record o { withdrawn_at = some now }) d
                    else (err no_rows, d)
              ])
      go now d i none = i
      go now d i (some o) =
          if-After I (is_none o.withdrawn_at)
            (write_offer id (record o { withdrawn_at = some now }) d) (err no_rows, d)
            (g.offers (update id (record o { withdrawn_at = some now }) d.offers) d i) i
