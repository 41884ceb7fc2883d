-- ===== src/Chat/Offered.antt =====
-- The statements of internal/db/sqlcgen/offers.sql.go that the handlers of offers run.
use waterloo_star_backend.Common.{
  ℕ, Bool, ◌&&◌, none, some, ◌∷◌, ◌==◌, leb, if◌then◌else◌, is_none, is_some, length,
}
use waterloo_star_backend.Common.Text.{Text}
use waterloo_star_backend.Store.Table.{lookup, update, find}
use waterloo_star_backend.Store.Rows.{Db, RequestOffer, no_rows, database}
use waterloo_star_backend.Store.Conn.{Result, ok, err, M, ◌>>=◌, query, draw}
use waterloo_star_backend.Store.Queries.{found}
use waterloo_star_backend.Store.Sessions.{unless_taken}

unfoldable pub get_offer_sql : ℕ → ℕ → Db → Result RequestOffer × Db
get_offer_sql id now d = found (lookup id d.offers) d

unfoldable pub get_offer : ℕ → M RequestOffer
get_offer id = query (get_offer_sql id)

-- WHERE request_id = $1 AND listing_id = $2
unfoldable pub is_offer_of : ℕ → ℕ → RequestOffer → Bool
is_offer_of request_id listing_id o = o.request_id == request_id && o.listing_id == listing_id

unfoldable pub get_offer_for_listing_sql : ℕ → ℕ → ℕ → Db → Result (ℕ × RequestOffer) × Db
get_offer_for_listing_sql request_id listing_id now d =
    found (find (is_offer_of request_id listing_id) d.offers) d

unfoldable pub get_offer_for_listing : ℕ → ℕ → M (ℕ × RequestOffer)
get_offer_for_listing request_id listing_id =
    query (get_offer_for_listing_sql request_id listing_id)

abbrev pub insert_offer : ℕ → RequestOffer → Db → Result (ℕ × RequestOffer) × Db
insert_offer id o d = (ok (id, o), record d { offers = (id, o) ∷ d.offers })

-- One offer of a listing for a request, with a note of 1000 characters at most; the rows that the
-- keys name are there.
unfoldable pub create_offer_sql : ℕ → ℕ → ℕ → ℕ → Text → ℕ → Db → Result (ℕ × RequestOffer) × Db
create_offer_sql id request_id listing_id owner_id note now d =
    let o : RequestOffer = record {
      request_id = request_id;
      listing_id = listing_id;
      owner_id = owner_id;
      note = note;
      withdrawn_at = none;
      conversation_id = none;
    } in
    if leb (length note) 1000
      && is_some (lookup request_id d.requests)
      && is_some (lookup listing_id d.listings)
      && is_some (lookup owner_id d.users)
    then unless_taken (find (is_offer_of request_id listing_id) d.offers) d
        (unless_taken (lookup id d.offers) d (insert_offer id o d))
    else (err database, d)

unfoldable pub create_offer : ℕ → ℕ → ℕ → Text → M (ℕ × RequestOffer)
create_offer request_id listing_id owner_id note =
    draw >>= λ id. query (create_offer_sql id request_id listing_id owner_id note)

abbrev pub write_offer : ℕ → RequestOffer → Db → Result RequestOffer × Db
write_offer id o d = (ok o, record d { offers = update id o d.offers })

unfoldable pub set_offer_conversation_sql : ℕ → ℕ → ℕ → Db → Result RequestOffer × Db
set_offer_conversation_sql conversation_id id now d = elim (lookup id d.offers) [
  | none ↦ (err no_rows, d)
  | some o ↦
      if is_some (lookup conversation_id d.conversations)
      then write_offer id (record o { conversation_id = some conversation_id }) d
      else (err database, d)
]

unfoldable pub set_offer_conversation : ℕ → ℕ → M RequestOffer
set_offer_conversation conversation_id id = query (set_offer_conversation_sql conversation_id id)

unfoldable pub withdraw_offer_sql : ℕ → ℕ → Db → Result RequestOffer × Db
withdraw_offer_sql id now d = elim (lookup id d.offers) [
  | none ↦ (err no_rows, d)
  | some o ↦
      if is_none o.withdrawn_at
      then write_offer id (record o { withdrawn_at = some now }) d
      else (err no_rows, d)
]

unfoldable pub withdraw_offer : ℕ → M RequestOffer
withdraw_offer id = query (withdraw_offer_sql id)
