-- ===== src/Chat/MakeOffer.antt =====
-- The rule of makeOffer of internal/httpapi/offers.go for a conversation that the poster closed.
use waterloo_star_backend.Common.{
  ℕ, ◌≡◌, refl, sym, ap, subst, ◌∙◌, ◌⊎◌, inl, inr, Bool, true, false, not, some, List, [], ◌∷◌,
  arith, is_none, is_some,
}
use waterloo_star_backend.Common.Text.{Text}
use waterloo_star_backend.Store.Table.{find}
use waterloo_star_backend.Store.Rows.{Db, Post, Conversation, database}
use waterloo_star_backend.Store.Conn.{
  Conn, Result, ok, err, M, ◌>>=◌, throw, query, TxRunner, IsTransactional,
}
use waterloo_star_backend.Store.Hoare.{Triple, After, pure-Triple, if-Triple, run-Triple}
use waterloo_star_backend.Auth.Accounts.{when_found, found_row}
use waterloo_star_backend.Handlers.Replies.{attempt}
use waterloo_star_backend.Chat.Queries.{
  is_between, get_conversation_by_listing_and_enquirer,
  get_conversation_by_listing_and_enquirer_sql,
}
use waterloo_star_backend.Chat.UpdateQueries.{is_value}
use waterloo_star_backend.Chat.Notify.{Notification}
use waterloo_star_backend.Chat.Offers.{
  Made, turned_down, offer_existing, make_offer_statements, make_offer,
}

-- What an offer comes to, from a database where the listing and the poster have a conversation
-- that someone other than the owner closed.
abbrev pub IsTurnedDown : Db → Result Made × Conn → Type 0
IsTurnedDown d (ok m, c) = (m ≡ turned_down) × (c.db ≡ d)
IsTurnedDown d (err e, c) = c.db ≡ d

-- A read ends with its row or with an error of the server, and the database as it was.
abbrev Read : {A : Type 0} → A → Conn → Result A × Conn → Type 0
Read a c r = (c' : Conn) × (c'.db ≡ c.db) × ((r ≡ (ok a, c')) ⊎ (r ≡ (err database, c')))

find_conversation :
    (listing_id poster_id : ℕ) (row : ℕ × Conversation) (c : Conn)
    → find (is_between listing_id poster_id) c.db.conversations ≡ some row
    → Read row c (get_conversation_by_listing_and_enquirer listing_id poster_id c)
unfolding get_conversation_by_listing_and_enquirer get_conversation_by_listing_and_enquirer_sql
    query
find_conversation listing_id poster_id row c held = go c.faults
  where
    go :
        (faults : List Bool)
        → let c₁ = record c { faults = faults } in
          Read row c (get_conversation_by_listing_and_enquirer listing_id poster_id c₁)
    go [] = (record c { faults = [] }, refl, inl (rw held refl))
    go (true ∷ rest) = (record c { faults = rest }, refl, inr refl)
    go (false ∷ rest) = (record c { faults = rest }, refl, inl (rw held refl))

when_found-ok :
    {A B : Type 0} (m : M A) (missing : M B) (rest : A → M B) (c c' : Conn) (a : A)
    → m c ≡ (ok a, c')
    → when_found m missing rest c ≡ rest a c'
unfolding when_found attempt ◌>>=◌
when_found-ok m missing rest c c' a e = ap (λ q. (attempt (λ _. q) >>= found_row missing rest) c) e

when_found-database :
    {A B : Type 0} (m : M A) (missing : M B) (rest : A → M B) (c c' : Conn)
    → m c ≡ (err database, c')
    → when_found m missing rest c ≡ (err database, c')
unfolding when_found attempt ◌>>=◌ throw
when_found-database m missing rest c c' e =
    ap (λ q. (attempt (λ _. q) >>= found_row missing rest) c) e

-- The statements of an offer, from a closed conversation
abbrev IsDown : Db → Made → Db → Type 0
IsDown d₀ m d = (m ≡ turned_down) × (d ≡ d₀)

offer_existing-closed :
    (request_id listing_id : ℕ) (listing : Post) (note : Text) (row : ℕ × Conversation) (d₀ : Db)
    → is_some row.1.closed_at ≡ true
    → is_value row.1.closed_by listing.owner_id ≡ false
    → Triple
        (λ d. d ≡ d₀)
        (λ d. d ≡ d₀)
        (offer_existing request_id listing_id listing note row)
        (IsDown d₀)
unfolding offer_existing
offer_existing-closed request_id listing_id listing note (id, c) d₀ closed other =
    if-Triple (is_none c.closed_at) _ _ (λ e. absurd (ground arith))
      λ _.
        if-Triple (not (is_value c.closed_by listing.owner_id)) _ _
          (λ _. pure-Triple _ λ d s. (refl, s)) λ e. absurd (ground arith)

-- An offer of a listing to a student who has closed their conversation about it is turned down, or
-- fails with an error of the server, and nothing is written: no offer, no message, and the
-- conversation stays closed.
pub make_offer-closed :
    (tx : TxRunner)
    → IsTransactional tx
    → (notify : Notification → M (Unit {0})) (request_id poster_id listing_id : ℕ) (listing : Post)
      (note : Text) (c : Conn) (id : ℕ) (conversation : Conversation)
    → find (is_between listing_id poster_id) c.db.conversations ≡ some (id, conversation)
    → is_some conversation.closed_at ≡ true
    → is_value conversation.closed_by listing.owner_id ≡ false
    → IsTurnedDown c.db (make_offer tx notify request_id poster_id listing_id listing note c)
unfolding make_offer make_offer_statements
make_offer-closed tx t notify request_id poster_id listing_id listing note c id conversation held
      closed other =
    go (make_offer tx notify request_id poster_id listing_id listing note c) (
      (run-Triple tx t (make_offer_statements request_id poster_id listing_id listing note)
          (λ d s. s) (record { holds = statements })).holds
        c refl)
  where
    go :
        (r : Result Made × Conn)
        → After (λ d. d ≡ c.db) (IsDown c.db) (r.0, r.1.db)
        → IsTurnedDown c.db r
    go (ok m, c') h = h
    go (err e, c') h = h

    down : Result Made × Conn → Type 0
    down r = After (λ d. d ≡ c.db) (IsDown c.db) (r.0, r.1.db)

    statements :
        (c₁ : Conn)
        → c₁.db ≡ c.db
        → down (make_offer_statements request_id poster_id listing_id listing note c₁)
    statements c₁ s =
        let (c₂, same, r) =
          find_conversation listing_id poster_id (id, conversation) c₁
            (ap (λ (x : Db). find (is_between listing_id poster_id) x.conversations) s ∙ held) in
        elim r [
          | inl ran ↦ subst down (sym (when_found-ok _ _ _ c₁ c₂ (id, conversation) ran)) (
              (offer_existing-closed request_id listing_id listing note (id, conversation) c.db
                  closed other).holds
                c₂ (same ∙ s))
          | inr failed ↦ subst down (sym (when_found-database _ _ _ c₁ c₂ failed)) (same ∙ s)
        ]
