-- ===== src/Auth/Confirmed.antt =====
-- The link that issueVerificationEmail of internal/httpapi/auth.go sends, and VerifyEmail.
use waterloo_star_backend.Common.{
  ℕ, ◌+◌, ◌≡◌, refl, ap, true, false, none, some, List, [], ◌∷◌, ltb, arith,
}
use waterloo_star_backend.Common.Text.{Text, trim_space, is_empty}
use waterloo_star_backend.Store.Table.{Table, lookup, update, update_all}
use waterloo_star_backend.Store.Rows.{Db, User, LinkToken}
use waterloo_star_backend.Store.Conn.{Conn, Mail, ok, pure, clock, send, verification_mail}
use waterloo_star_backend.Store.Sessions.{
  links, set_links, get_live_link, get_live_link_sql, is_live_link, create_link, create_link_sql,
  consume_link, consume_link_sql, consume_at, consume_all_links, consume_all_links_sql, consume_if,
  verification,
}
use waterloo_star_backend.Store.AccountQueries.{mark_user_verified, mark_user_verified_sql}
use waterloo_star_backend.Handlers.Replies.{shown}
use waterloo_star_backend.Auth.Platform.{Platform, hash_token, verification_token_ttl}
use waterloo_star_backend.Auth.Accounts.{issue_verification_email, verify_email}
use waterloo_star_backend.Auth.Calls.{surrounded}
use waterloo_star_backend.Auth.Steps.{>>=-ok, query-ok, when_found-ok, new_opaque_token-ok}

-- Nothing fails, and the source of random values has more to give.
abbrev pub ready : Db → ℕ → ℕ → List ℕ → List Mail → Conn
ready d now bytes rest outbox = record {
  db = d;
  faults = [];
  now = now;
  draws = bytes ∷ rest;
  outbox = outbox;
}

lookup-update_all-none :
    {A : Type 0} (k : ℕ) (f : A → A) (t : Table A)
    → lookup k t ≡ none
    → lookup k (update_all f t) ≡ none
unfolding lookup update_all
lookup-update_all-none k f [] e = refl
lookup-update_all-none k f ((j, a) ∷ t) e = ground (arith, lookup-update_all-none k f t)

module _ (p : Platform) where
  abbrev new_link : ℕ → ℕ → LinkToken
  new_link id now = record {
    user_id = id;
    expires_at = now + verification_token_ttl;
    consumed_at = none;
  }

  -- The database once a link to a token is stored, and the others of the account are spent
  abbrev with_link : Text → ℕ → ℕ → Db → Db
  with_link raw id now d = record d {
    email_verification_tokens =
        (hash_token p raw, new_link id now)
        ∷ update_all (consume_if id now) d.email_verification_tokens;
  }

  create_link-ok :
      (raw : Text) (id now : ℕ) (user : User) (d : Db)
      → lookup id d.users ≡ some user
      → lookup (hash_token p raw) d.email_verification_tokens ≡ none
      → create_link_sql verification
          (hash_token p raw)
          id
          (now + verification_token_ttl)
          now
          (record d {
            email_verification_tokens = update_all (consume_if id now) d.email_verification_tokens;
          })
        ≡ (ok tt, with_link raw id now d)
  unfolding create_link_sql links set_links
  create_link-ok raw id now user d present fresh =
      rw
        (
          present,
          lookup-update_all-none (hash_token p raw) (consume_if id now) d.email_verification_tokens
              fresh,
        )
        refl

  issue_verification_email-with_link :
      (id now bytes : ℕ) (rest : List ℕ) (outbox : List Mail) (user : User) (d : Db)
      → lookup id d.users ≡ some user
      → lookup (hash_token p (p.encode bytes)) d.email_verification_tokens ≡ none
      → issue_verification_email p id user (ready d now bytes rest outbox) ≡ (
        ok tt,
        record {
          db = with_link (p.encode bytes) id now d;
          faults = [];
          now = now;
          draws = rest;
          outbox = verification_mail user.email (p.encode bytes) ∷ outbox;
        },
      )
  unfolding issue_verification_email consume_all_links consume_all_links_sql links set_links
      create_link clock send
  issue_verification_email-with_link id now bytes rest outbox user d present fresh =
      >>=-ok _ _ _ (query-ok _ _ refl refl) (
        >>=-ok _ _ _ (new_opaque_token-ok p bytes rest _ refl) (
          >>=-ok _ _ _ refl (
            >>=-ok _ _ _
              (query-ok _ _ refl (create_link-ok (p.encode bytes) id now user d present fresh))
              refl)))

  -- The database once a token is spent and its account is verified
  abbrev with_verified : Text → ℕ → ℕ → User → Db → Db
  with_verified raw user_id now user d = record d {
    users = update user_id (record user { verified = true; updated_at = now }) d.users;
    email_verification_tokens = consume_at (hash_token p raw) now d.email_verification_tokens;
  }

  get_live_link-ok :
      (token_hash now : ℕ) (token : LinkToken) (d : Db)
      → lookup token_hash d.email_verification_tokens ≡ some token
      → is_live_link now token ≡ true
      → get_live_link_sql verification token_hash now d ≡ (ok token, d)
  unfolding get_live_link_sql links
  get_live_link-ok token_hash now token d held live = rw held (rw live refl)

  mark_user_verified-ok :
      (id now : ℕ) (user : User) (d : Db)
      → lookup id d.users ≡ some user
      → mark_user_verified_sql id now d ≡ (
        ok (record user { verified = true; updated_at = now }),
        record d { users = update id (record user { verified = true; updated_at = now }) d.users },
      )
  unfolding mark_user_verified_sql
  mark_user_verified-ok id now user d present = rw (present, mark_user_verified_sql) refl

  verify_email-with_verified :
      (raw : Text) (token : LinkToken) (user : User) (c : Conn)
      → c.faults ≡ []
      → is_empty (trim_space raw) ≡ false
      → lookup (hash_token p raw) c.db.email_verification_tokens ≡ some token
      → is_live_link c.now token ≡ true
      → lookup token.user_id c.db.users ≡ some user
      → verify_email p (some raw) c ≡ (
        ok (shown (record user { verified = true; updated_at = c.now })),
        record c { db = with_verified raw token.user_id c.now user c.db },
      )
  unfolding verify_email get_live_link links set_links consume_link consume_link_sql
      mark_user_verified pure
  verify_email-with_verified raw token user c calm given held live present = rw given (
      when_found-ok _ _ _ _ (query-ok _ _ calm (get_live_link-ok _ _ token _ held live)) (
        >>=-ok _ _ _ (query-ok _ _ calm refl)
          (>>=-ok _ _ _ (query-ok _ _ calm (mark_user_verified-ok _ _ user _ present)) refl)))

  -- The link that the email has confirms the address: where nothing fails, the account is there and
  -- the new token is new, issuing a link for an account sends one email to its address; and a
  -- request with the raw token of that email, at any time before 24 hours have passed and where
  -- nothing fails, answers with the account, verified. The raw token is not blank.
  pub verify_email-issue_verification_email :
      (id now bytes : ℕ) (rest : List ℕ) (outbox : List Mail) (user : User) (d : Db) (later : ℕ)
      (draws : List ℕ)
      → lookup id d.users ≡ some user
      → lookup (hash_token p (p.encode bytes)) d.email_verification_tokens ≡ none
      → is_empty (trim_space (p.encode bytes)) ≡ false
      → ltb later (now + verification_token_ttl) ≡ true
      → let sent = (issue_verification_email p id user (ready d now bytes rest outbox)).1 in
        let then = surrounded (record { now = later; faults = []; draws = draws }) sent in
        (sent.outbox ≡ verification_mail user.email (p.encode bytes) ∷ outbox)
        × ((verify_email p (some (p.encode bytes)) then).0
            ≡ ok (shown (record user { verified = true; updated_at = later })))
  unfolding is_live_link lookup
  verify_email-issue_verification_email id now bytes rest outbox user d later draws present fresh
        given soon =
      rw (issue_verification_email-with_link id now bytes rest outbox user d present fresh) (
        refl,
        ap (λ r. r.0)
            (verify_email-with_verified (p.encode bytes) (new_link id now) user _ refl given
              (ground arith) (ground arith) present),
      )
