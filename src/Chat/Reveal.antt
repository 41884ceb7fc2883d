-- ===== src/Chat/Reveal.antt =====
-- What a conversation shows, and to whom: GetConversation of internal/httpapi/conversations.go.
use waterloo_star_backend.Common.{
  ℕ, ◌≡◌, refl, sym, ◌∙◌, subst, ◌⊎◌, inl, inr, Bool, true, false, Option, none, some, List, [],
  ◌∷◌, arith, is_some, Option-cases, if◌then◌else◌,
}
use waterloo_star_backend.Common.Text.{Text}
use waterloo_star_backend.Store.Table.{lookup}
use waterloo_star_backend.Store.Rows.{database, Db, Post, User, Conversation}
use waterloo_star_backend.Store.Conn.{Conn, Result, ok, err, ◌>>=◌, pure, query, throw}
use waterloo_star_backend.Store.Queries.{found}
use waterloo_star_backend.Store.Hoare.{Triple, After, query-Triple, pure-Triple, >>=-Triple}
use waterloo_star_backend.Handlers.Replies.{Response, ErrorBody, shown, refused, unrouted, attempt}
use waterloo_star_backend.Auth.Accounts.{when_found}
use waterloo_star_backend.Auth.Steps.{>>=-ok, query-ok, query-passes, when_found-ok}
use waterloo_star_backend.Auth.Guarded.{when_found-Triple}
use waterloo_star_backend.Chat.Queries.{
  ConversationRow, is_participant, counterpart_of, row_from, row_of, place_of,
  get_conversation_for_participant, get_conversation_for_participant_sql,
}
use waterloo_star_backend.Chat.Messages.{Viewer, ConversationView, to_conversation}
use waterloo_star_backend.Chat.Conversations.{conversation_for, get_conversation}

-- The address of a place is shown in a conversation of the viewer's: it was shared there, its
-- listing was not taken down, and its owner is not suspended.
abbrev pub IsRevealed : ℕ → ℕ → Option Text → Db → Type 0
IsRevealed user_id id place d =
    (c : Conversation) × (l : Post) × (o : User) × (lookup id d.conversations ≡ some c)
    × (is_participant user_id c ≡ true)
    × (is_some c.address_shared_at ≡ true)
    × (lookup c.listing_id d.listings ≡ some l)
    × (l.removed_at ≡ none)
    × (lookup c.owner_id d.users ≡ some o)
    × (o.suspended_at ≡ none)
    × (place ≡ some l.address_line)

-- An answer that shows a conversation is to a participant, and shows an address only as above.
abbrev pub ShowsSafely : ℕ → ℕ → Response ConversationView → Db → Type 0
ShowsSafely user_id id (shown view) d =
    ((c : Conversation) × (lookup id d.conversations ≡ some c) × (is_participant user_id c ≡ true))
    × ((view.place ≡ none) ⊎ IsRevealed user_id id view.place d)
ShowsSafely user_id id (refused status body) d = status ≡ 404
ShowsSafely user_id id unrouted d = ⊥

abbrev RowSafely : ℕ → ℕ → ConversationRow → Db → Type 0
RowSafely user_id id row d =
    ((c : Conversation) × (lookup id d.conversations ≡ some c) × (is_participant user_id c ≡ true))
    × ((row.place_address_line ≡ none) ⊎ IsRevealed user_id id row.place_address_line d)

place_of-cases :
    (c : Conversation) (l : Post) (o : User)
    → (place_of c l o ≡ none)
      ⊎ ((is_some c.address_shared_at ≡ true)
          × (l.removed_at ≡ none)
          × (o.suspended_at ≡ none)
          × (place_of c l o ≡ some l.address_line))
unfolding place_of
place_of-cases c l o = ground arith

get_conversation_for_participant-Safely :
    (user_id id : ℕ) (d₀ : Db)
    → Triple
        (λ d. d ≡ d₀)
        (λ d. d ≡ d₀)
        (get_conversation_for_participant user_id id)
        (λ row d. (d ≡ d₀) × RowSafely user_id id row d)
unfolding get_conversation_for_participant get_conversation_for_participant_sql
get_conversation_for_participant-Safely user_id id d₀ =
    query-Triple (get_conversation_for_participant_sql user_id id) (λ d s. s)
      λ now d s. go d s (lookup id d.conversations) refl
  where
    After' : Result ConversationRow × Db → Type 0
    After' r = After (λ d. d ≡ d₀) (λ row d. (d ≡ d₀) × RowSafely user_id id row d) r

    from :
        (d : Db) (c : Conversation)
        → d ≡ d₀
        → lookup id d.conversations ≡ some c
        → is_participant user_id c ≡ true
        → (l : Option Post) (o cp : Option User) → lookup c.listing_id d.listings ≡ l
        → lookup c.owner_id d.users ≡ o
        → After' (found (row_from user_id id c d.messages l o cp) d)
    from d c s e mine none o cp el eo = s
    from d c s e mine (some l) none cp el eo = s
    from d c s e mine (some l) (some o) none el eo = s
    from d c s e mine (some l) (some o) (some cp) el eo = (
      s,
      (
        (c, e, mine),
        elim (place_of-cases c l o) [
          | inl hidden ↦ inl hidden
          | inr (shared, stands, active, at) ↦
              inr (c, l, o, e, mine, shared, el, stands, eo, active, at)
        ],
      ),
    )

    go :
        (d : Db)
        → d ≡ d₀
        → (o : Option Conversation) → lookup id d.conversations ≡ o
        → After' (found (row_of user_id id d o) d)
    go d s none e = s
    go d s (some c) e = pick (is_participant user_id c) refl
      where
        row : Option ConversationRow
        row =
            row_from user_id id c d.messages (lookup c.listing_id d.listings)
              (lookup c.owner_id d.users) (lookup (counterpart_of user_id c) d.users)

        pick :
            (b : Bool) → is_participant user_id c ≡ b → After' (found (if b then row else none) d)
        pick true mine = from d c s e mine _ _ _ refl refl
        pick false other = s

-- A refusal is for want of a row: no conversation has the id, or the caller is not in it, or its
-- listing or one of its people is gone.
found-row_of :
    (user_id id now : ℕ) (row : ConversationRow) (d : Db)
    → row_of user_id id d (lookup id d.conversations) ≡ some row
    → get_conversation_for_participant_sql user_id id now d ≡ (ok row, d)
unfolding get_conversation_for_participant_sql
found-row_of user_id id now row d present = rw present refl

failing_read :
    (viewer : Viewer) (id : ℕ) (c : Conn) (rest : List Bool)
    → c.faults ≡ true ∷ rest
    → get_conversation (some viewer) id c ≡ (err database, record c { faults = rest })
unfolding get_conversation conversation_for get_conversation_for_participant when_found attempt
    ◌>>=◌ query throw
failing_read viewer id c rest due = rw due refl

refused-row_of :
    (viewer : Viewer) (id : ℕ) (c c' : Conn) (status : ℕ) (body : ErrorBody)
    → get_conversation (some viewer) id c ≡ (ok (refused status body), c')
    → row_of viewer.user_id id c.db (lookup id c.db.conversations) ≡ none
unfolding get_conversation conversation_for get_conversation_for_participant pure
refused-row_of viewer id c c' status body h =
    elim (Option-cases (row_of viewer.user_id id c.db (lookup id c.db.conversations))) [
      | inl absent ↦ absent
      | inr (row, present) ↦ absurd (go row (found-row_of _ id _ row c.db present) c.faults h)
    ]
  where
    read : ℕ → Db → Result ConversationRow × Db
    read = get_conversation_for_participant_sql viewer.user_id id

    answered :
        (c₁ c₂ : Conn) (row : ConversationRow)
        → query read c₁ ≡ (ok row, c₂)
        → get_conversation (some viewer) id c₁ ≡ (ok (shown (to_conversation row viewer)), c₂)
    answered c₁ c₂ row e = when_found-ok _ _ _ c₁ (>>=-ok _ _ c₁ e refl) refl

    go :
        (row : ConversationRow)
        → read c.now c.db ≡ (ok row, c.db)
        → (faults : List Bool)
        → get_conversation (some viewer) id (record c { faults = faults })
          ≡ (ok (refused status body), c')
        → ⊥
    go row e [] h = let k = sym (answered _ _ row (query-ok read _ refl e)) ∙ h in cc
    go row e (true ∷ rest) h =
        let k = sym (failing_read viewer id (record c { faults = true ∷ rest }) rest refl) ∙ h in cc
    go row e (false ∷ rest) h =
        let k = sym (answered _ _ row (query-passes read _ rest refl e)) ∙ h in cc

-- What the handler leaves and answers: nothing changes, what it shows is safe, and what it refuses
-- has no row for the caller.
abbrev pub IsWarranted : ℕ → ℕ → Response ConversationView → Db → Type 0
IsWarranted user_id id (refused status body) d =
    row_of user_id id d (lookup id d.conversations) ≡ none
IsWarranted user_id id (shown view) d = Unit {0}
IsWarranted user_id id unrouted d = Unit {0}

abbrev pub Reads : ℕ → ℕ → Db → Result (Response ConversationView) × Conn → Type 0
Reads user_id id d₀ (ok r, c) =
    (c.db ≡ d₀) × ShowsSafely user_id id r d₀ × IsWarranted user_id id r d₀
Reads user_id id d₀ (err e, c) = c.db ≡ d₀

-- Reading a conversation changes nothing. To a caller who is logged in, it is shown only if the
-- caller is one of its two participants; any other answer is 404, or an error of the server, and
-- 404 is answered only if the statement has no row for the caller. The address of the place is in
-- it only if it was shared there, the listing was not taken down and the owner is not suspended.
pub get_conversation-Reads :
    (viewer : Viewer) (id : ℕ) (c : Conn)
    → Reads viewer.user_id id c.db (get_conversation (some viewer) id c)
unfolding get_conversation conversation_for to_conversation
get_conversation-Reads viewer id c =
    go (get_conversation (some viewer) id c) refl (safely.holds c refl)
  where
    safely :
        Triple
          (λ d. d ≡ c.db)
          (λ d. d ≡ c.db)
          (get_conversation (some viewer) id)
          (λ r d. (d ≡ c.db) × ShowsSafely viewer.user_id id r d)
    safely =
        when_found-Triple _ _ _
          (>>=-Triple _ _ (get_conversation_for_participant-Safely viewer.user_id id c.db) λ row.
            pure-Triple {Q = λ view d. (d ≡ c.db) × ShowsSafely viewer.user_id id (shown view) d}
              (to_conversation row viewer) λ d h. h)
          (pure-Triple _ λ d s. (s, refl)) λ view. pure-Triple _ λ d h. h

    warranted :
        (r : Response ConversationView) (c' : Conn)
        → get_conversation (some viewer) id c ≡ (ok r, c')
        → IsWarranted viewer.user_id id r c.db
    warranted (shown view) c' e = tt
    warranted (refused status body) c' e = refused-row_of viewer id c c' status body e
    warranted unrouted c' e = tt

    go :
        (r : Result (Response ConversationView) × Conn)
        → get_conversation (some viewer) id c ≡ r
        → After
            (λ d. d ≡ c.db)
            (λ r d. (d ≡ c.db) × ShowsSafely viewer.user_id id r d)
            (r.0, r.1.db)
        → Reads viewer.user_id id c.db r
    go (ok r, c') e (s, h) = (s, subst (ShowsSafely viewer.user_id id r) s h, warranted r c' e)
    go (err x, c') e s = s
