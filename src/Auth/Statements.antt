-- ===== src/Auth/Statements.antt =====
-- The statements of internal/httpapi/auth.go, by the rules of an invariant.
use waterloo_star_backend.Common.{ℕ, ◌≡◌, refl, true, Option, none, some}
use waterloo_star_backend.Common.Text.{Text, text_eq}
use waterloo_star_backend.Store.Table.{lookup, update, find}
use waterloo_star_backend.Store.Rows.{Db, User, database, no_rows}
use waterloo_star_backend.Store.Conn.{Result, ok, err, draw}
use waterloo_star_backend.Store.Queries.{
  found, get_user_by_id, get_user_by_id_sql, revoke_all_refresh_tokens_for_user,
  revoke_all_refresh_tokens_for_user_sql, write_user,
}
use waterloo_star_backend.Store.Sessions.{
  Link, links, create_link, create_link_sql, consume_link, consume_link_sql, consume_all_links,
  consume_all_links_sql, get_live_link, get_live_link_sql, only_if, get_live_refresh_token,
  get_live_refresh_token_sql, create_refresh_token, create_refresh_token_sql, revoke_refresh_token,
  revoke_refresh_token_sql, unless_taken,
}
use waterloo_star_backend.Store.AccountQueries.{
  get_user_by_email, get_user_by_email_sql, count_users_by_email_or_username,
  count_users_by_email_or_username_sql, create_user, create_user_sql, mark_user_verified,
  mark_user_verified_sql, update_user_password, update_user_password_sql, is_storable,
  is_same_account, new_user, insert_user,
}
use waterloo_star_backend.Store.Hoare.{Triple, After, query-Triple}
use waterloo_star_backend.Store.Invariants.{Keeps, query-Keeps, draw-Keeps, >>=-Keeps}
use waterloo_star_backend.Auth.Guarded.{
  Guarded, RowAllowed, found-After, if-After, if_user-After, is_open, unless_taken-After,
}

module _ {I : Db → Type 0} {Allowed : ℕ → Type 0} (g : Guarded I Allowed) where
  pub get_user_by_id-Guarded :
      (id : ℕ) → Triple I I (get_user_by_id id) (λ u d. I d × (is_open u ≡ true → Allowed id))
  unfolding get_user_by_id get_user_by_id_sql
  get_user_by_id-Guarded id =
      query-Triple (get_user_by_id_sql id) (λ d i. i) λ now d i. go d i (lookup id d.users) refl
    where
      go :
          (d : Db)
          → I d
          → (o : Option User) → lookup id d.users ≡ o
          → After I (λ u d. I d × (is_open u ≡ true → Allowed id)) (found o d)
      go d i none e = i
      go d i (some u) e = (i, g.reads_id id u d i e)

  pub get_user_by_email-Guarded :
      (lower : Text → Text) (email : Text)
      → Triple I I (get_user_by_email lower email) (λ row d. I d × RowAllowed Allowed row)
  unfolding get_user_by_email get_user_by_email_sql
  get_user_by_email-Guarded lower email =
      query-Triple (get_user_by_email_sql lower email) (λ d i. i)
        λ now d i. go d i (find (λ u. text_eq (lower u.email) (lower email)) d.users) refl
    where
      go :
          (d : Db)
          → I d
          → (o : Option (ℕ × User)) → find (λ u. text_eq (lower u.email) (lower email)) d.users ≡ o
          → After I (λ row d. I d × RowAllowed Allowed row) (found o d)
      go d i none e = i
      go d i (some (id, u)) e =
          (i, g.reads_email (λ u. text_eq (lower u.email) (lower email)) id u d i e)

  pub get_live_refresh_token-Keeps : (hash : ℕ) → Keeps I (get_live_refresh_token hash)
  unfolding get_live_refresh_token get_live_refresh_token_sql
  get_live_refresh_token-Keeps hash =
      query-Keeps (get_live_refresh_token_sql hash)
        λ now d i. found-After I (only_if _ (lookup hash d.refresh_tokens)) d i

  pub get_live_link-Keeps : (l : Link) (hash : ℕ) → Keeps I (get_live_link l hash)
  unfolding get_live_link get_live_link_sql
  get_live_link-Keeps l hash =
      query-Keeps (get_live_link_sql l hash)
        λ now d i. found-After I (only_if _ (lookup hash (links l d))) d i

  pub mark_user_verified-Keeps : (id : ℕ) → Keeps I (mark_user_verified id)
  unfolding mark_user_verified mark_user_verified_sql
  mark_user_verified-Keeps id =
      query-Keeps (mark_user_verified_sql id) λ now d i. go now d i (lookup id d.users) refl
    where
      written : ℕ → Db → Option User → Result User × Db
      written now d none = (err no_rows, d)
      written now d (some u) = write_user id (record u { verified = true; updated_at = now }) d

      go :
          (now : ℕ) (d : Db)
          → I d
          → (o : Option User) → lookup id d.users ≡ o
          → After I (λ _. I) (written now d o)
      go now d i none e = i
      go now d i (some u) e = g.verifies id now u d i e

  pub update_user_password-Keeps : (id : ℕ) (hash : Text) → Keeps I (update_user_password id hash)
  unfolding update_user_password update_user_password_sql
  update_user_password-Keeps id hash =
      query-Keeps (update_user_password_sql id hash) λ now d i. go now d i (lookup id d.users) refl
    where
      written : ℕ → Db → Option User → Result (Unit {0}) × Db
      written now d none = (ok tt, d)
      written now d (some u) = (
        ok tt,
        record d {
          users = update id (record u { password_hash = hash; updated_at = now }) d.users;
        },
      )

      go :
          (now : ℕ) (d : Db)
          → I d
          → (o : Option User) → lookup id d.users ≡ o
          → After I (λ _. I) (written now d o)
      go now d i none e = i
      go now d i (some u) e = g.rehashes id now u hash d i e

  pub consume_link-Keeps : (l : Link) (hash : ℕ) → Keeps I (consume_link l hash)
  unfolding consume_link consume_link_sql
  consume_link-Keeps l hash =
      query-Keeps (consume_link_sql l hash) λ now d i. g.consumes l hash now d i

  pub consume_all_links-Keeps : (l : Link) (id : ℕ) → Keeps I (consume_all_links l id)
  unfolding consume_all_links consume_all_links_sql
  consume_all_links-Keeps l id =
      query-Keeps (consume_all_links_sql l id) λ now d i. g.consumes_all l id now d i

  pub create_link-Keeps :
      (l : Link) (hash id expires_at : ℕ) → Keeps I (create_link l hash id expires_at)
  unfolding create_link create_link_sql
  create_link-Keeps l hash id expires_at =
      query-Keeps (create_link_sql l hash id expires_at) λ now d i.
        if_user-After I d i _ (lookup id d.users)
          (unless_taken-After I d i _ (lookup hash (links l d)) λ e. g.creates_link l hash _ d i e)

  pub revoke_refresh_token-Keeps : (hash : ℕ) → Keeps I (revoke_refresh_token hash)
  unfolding revoke_refresh_token revoke_refresh_token_sql
  revoke_refresh_token-Keeps hash =
      query-Keeps (revoke_refresh_token_sql hash) λ now d i. g.revokes hash now d i

  pub revoke_all_refresh_tokens_for_user-Keeps :
      (id : ℕ) → Keeps I (revoke_all_refresh_tokens_for_user id)
  unfolding revoke_all_refresh_tokens_for_user revoke_all_refresh_tokens_for_user_sql
  revoke_all_refresh_tokens_for_user-Keeps id =
      query-Keeps (revoke_all_refresh_tokens_for_user_sql id) λ now d i. g.evicts id now d i

  pub create_refresh_token-Keeps :
      (hash id expires_at : ℕ) → Allowed id → Keeps I (create_refresh_token hash id expires_at)
  unfolding create_refresh_token create_refresh_token_sql
  create_refresh_token-Keeps hash id expires_at allowed =
      query-Keeps (create_refresh_token_sql hash id expires_at) λ now d i.
        if_user-After I d i _ (lookup id d.users) (
          unless_taken-After I d i _ (lookup hash d.refresh_tokens)
            λ e. g.starts hash id expires_at d allowed i e)

  pub count_users_by_email_or_username-Keeps :
      (lower : Text → Text) (email username : Text)
      → Keeps I (count_users_by_email_or_username lower email username)
  unfolding count_users_by_email_or_username count_users_by_email_or_username_sql
  count_users_by_email_or_username-Keeps lower email username =
      query-Keeps (count_users_by_email_or_username_sql lower email username) λ now d i. i

  pub create_user-Keeps :
      (lower : Text → Text) (email username hash : Text)
      → Keeps I (create_user lower email username hash)
  unfolding create_user create_user_sql
  create_user-Keeps lower email username hash = >>=-Keeps draw _ draw-Keeps λ id.
      query-Keeps (create_user_sql lower id email username hash) λ now d i.
        let row = new_user email username hash now in
        let inserted = unless_taken (lookup id d.users) d (insert_user id row d) in
        if-After I (is_storable lower email username) _ (err database, d)
          (unless_taken-After I d i inserted (find (is_same_account lower email username) d.users)
            λ _.
              unless_taken-After I d i (insert_user id row d) (lookup id d.users)
                λ e. g.creates_user id row d i e)
          i
