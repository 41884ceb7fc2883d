-- ===== src/Auth/Tests.antt =====
-- Accounts and sessions on a small site, with a toy platform: a hash is its salt and the password,
-- a token is one letter, and its SHA-256 is that letter.
use waterloo_star_backend.Common.{ℕ, ◌+◌, ◌≡◌, refl, Bool, true, false, none, some, List, [], ◌∷◌}
use waterloo_star_backend.Common.Text.{
  Text, trim_space, trim_left, trim_right, is_space, text_eq, ends_with, byte_length,
}
use waterloo_star_backend.Store.Table.{lookup, update, update_all, count, find}
use waterloo_star_backend.Store.AtKey.{is_keyed}
use waterloo_star_backend.Store.Rows.{Db, User, LinkToken}
use waterloo_star_backend.Store.Conn.{
  Conn, ok, ◌>>=◌, pure, query, draw, send, lift, clock, verification_mail,
}
use waterloo_star_backend.Store.Queries.{
  get_user_by_id, get_user_by_id_sql, revoke_if, revoke_all_refresh_tokens_for_user,
  revoke_all_refresh_tokens_for_user_sql,
}
use waterloo_star_backend.Store.Sessions.{
  links, set_links, get_live_refresh_token, get_live_refresh_token_sql, is_live_session,
  create_refresh_token, create_refresh_token_sql, revoke_refresh_token, revoke_refresh_token_sql,
  revoke_at, get_live_link, get_live_link_sql, is_live_link, create_link, create_link_sql,
  consume_link, consume_link_sql, consume_at, consume_all_links, consume_all_links_sql, consume_if,
}
use waterloo_star_backend.Store.AccountQueries.{
  get_user_by_email, get_user_by_email_sql, count_users_by_email_or_username,
  count_users_by_email_or_username_sql, create_user, create_user_sql, is_storable, fits_columns,
  is_same_account, mark_user_verified, mark_user_verified_sql, update_user_password,
  update_user_password_sql, at_uwaterloo, new_user,
}
use waterloo_star_backend.Store.Invariants.{Refuses}
use waterloo_star_backend.Handlers.Replies.{attempt, shown}
use waterloo_star_backend.Admin.Accounts.{live_sessions}
use waterloo_star_backend.Admin.Tests.{
  pool_tx, pool_tx-IsTransactional, spam, conn, after_suspend, suspending_works,
}
use waterloo_star_backend.Auth.Platform.{
  Platform, hash_token, new_opaque_token, mint_access_token, access_token_ttl, refresh_token_ttl,
}
use waterloo_star_backend.Auth.Validate.{
  validate_password, hash_password, trim_dot, is_uwaterloo_domain, split_at, is_username_char,
  all_chars, is_username, email_problems, username_problems, password_problems,
  validate_registration,
}
use waterloo_star_backend.Auth.Accounts.{
  when_found, issue_verification_email, create_account, register_valid, register, verify_email,
}
use waterloo_star_backend.Auth.Login.{
  Session, start_session, login_as, login, refresh_as, refresh_session,
}
use waterloo_star_backend.Auth.Reset.{replace_password, confirm_password_reset}
use waterloo_star_backend.Auth.Calls.{AuthCall, Surroundings, perform_all}
use waterloo_star_backend.Auth.Suspended.{IsEvicted, perform_all-suspend}
use waterloo_star_backend.Auth.Rotation.{expired_session, refresh_session-once}
use waterloo_star_backend.Auth.Links.{dead_verification, dead_reset, verify_email-once}
use waterloo_star_backend.Auth.ResetDone.{
  IsReset, confirm_password_reset-shown, confirm_password_reset-once,
}
use waterloo_star_backend.Auth.Registered.{Joins, register-shown}
use waterloo_star_backend.Auth.LoggedIn.{IsLogin, login-shown}

abbrev first_letter : Text → ℕ
first_letter [] = 0
first_letter (c ∷ t) = c

abbrev is_hash_of : Text → Text → Bool
is_hash_of [] plain = false
is_hash_of (salt ∷ hashed) plain = text_eq hashed plain

abbrev pub toy : Platform
toy = record {
  to_lower = λ t. t;
  sql_lower = λ t. t;
  sha256 = first_letter;
  encode = λ n. n ∷ [];
  generate_from_password = λ salt plain. some (salt ∷ plain);
  compare_hash_and_password = is_hash_of;
  signed_string = λ claims. some (claims.user_id ∷ claims.issued_at ∷ []);
}

-- "aaaaaaaaaa", "bbbbbbbbbb"
abbrev pub password : Text
password = 97 ∷ 97 ∷ 97 ∷ 97 ∷ 97 ∷ 97 ∷ 97 ∷ 97 ∷ 97 ∷ 97 ∷ []

abbrev better_password : Text
better_password = 98 ∷ 98 ∷ 98 ∷ 98 ∷ 98 ∷ 98 ∷ 98 ∷ 98 ∷ 98 ∷ 98 ∷ []

-- "ann@uwaterloo.ca", "bob@uwaterloo.ca"
abbrev pub ann : Text
ann = 97 ∷ 110 ∷ 110 ∷ at_uwaterloo

abbrev bob : Text
bob = 98 ∷ 111 ∷ 98 ∷ at_uwaterloo

abbrev pub ann_account : User
ann_account = new_user ann (97 ∷ 110 ∷ 110 ∷ []) (7 ∷ password) 0

abbrev link : ℕ → LinkToken
link user_id = record { user_id = user_id; expires_at = 1000; consumed_at = none }

-- Ann, with a session, a link of each kind, and nobody else
abbrev pub home : Db
home = record {
  users = (1, ann_account) ∷ [];
  listings = [];
  requests = [];
  refresh_tokens = (50, record { user_id = 1; expires_at = 1000; revoked_at = none }) ∷ [];
  email_verification_tokens = (60, link 1) ∷ [];
  password_reset_tokens = (70, link 1) ∷ [];
  conversations = [];
  messages = [];
  offers = [];
  admin_actions = [];
}

abbrev pub at_home : Conn
at_home = record {
  db = home;
  faults = [];
  now = 500;
  draws = 80 ∷ 81 ∷ 82 ∷ 83 ∷ 84 ∷ [];
  outbox = [];
}

-- A session of Ann, with the tokens 81 and 82
abbrev ann_session : Session
ann_session = record {
  user = ann_account;
  access = 1 ∷ 500 ∷ [];
  access_expires = 500 + access_token_ttl;
  refresh = 81 ∷ [];
  refresh_expires = 500 + refresh_token_ttl;
  csrf = 82 ∷ [];
}

abbrev with_session : Conn
with_session = record at_home {
  db = record home {
    refresh_tokens =
        (81, record { user_id = 1; expires_at = 500 + refresh_token_ttl; revoked_at = none })
        ∷ home.refresh_tokens;
  };
  draws = 83 ∷ 84 ∷ [];
}

logging_in_works :
    login toy (some (ann, password)) at_home ≡ (ok (shown ann_session, false), with_session)
unfolding login when_found attempt ◌>>=◌ pure query get_user_by_email get_user_by_email_sql find
    text_eq trim_space trim_left trim_right is_space login_as start_session mint_access_token clock
    draw lift new_opaque_token hash_token create_refresh_token create_refresh_token_sql lookup
logging_in_works = refl

login-shown_example :
    IsLogin toy (trim_space ann) password home (shown ann_session, false) with_session.db
login-shown_example = login-shown toy ann password at_home logging_in_works

abbrev rotated : Conn
rotated = record with_session {
  db = record home {
    refresh_tokens =
        (81, record { user_id = 1; expires_at = 500 + refresh_token_ttl; revoked_at = none })
        ∷ (50, record { user_id = 1; expires_at = 1000; revoked_at = some 500 })
        ∷ [];
  };
}

refreshing_works : refresh_session toy (50 ∷ []) at_home ≡ (ok (shown ann_session), rotated)
unfolding refresh_session when_found attempt ◌>>=◌ pure query get_live_refresh_token
    get_live_refresh_token_sql is_live_session get_user_by_id get_user_by_id_sql refresh_as
    revoke_refresh_token revoke_refresh_token_sql revoke_at update start_session mint_access_token
    clock draw lift new_opaque_token hash_token create_refresh_token create_refresh_token_sql lookup
refreshing_works = refl

-- What comes later: a login, and the token once more
abbrev later : List (Surroundings × AuthCall)
later =
    (
      record { now = 600; faults = []; draws = 90 ∷ 91 ∷ 92 ∷ [] },
      AuthCall.logging_in (some (ann, password)),
    )
    ∷ (record { now = 700; faults = []; draws = 93 ∷ 94 ∷ 95 ∷ [] }, AuthCall.refreshing (50 ∷ []))
    ∷ []

refresh_session-once_example :
    let c'' = perform_all toy later rotated in
    Refuses (expired_session toy) c''.db (refresh_session toy (50 ∷ []) c'')
unfolding is_keyed lookup
refresh_session-once_example =
    refresh_session-once toy (50 ∷ []) at_home later refl refl refreshing_works

abbrev verified_ann : User
verified_ann = record ann_account { verified = true; updated_at = 500 }

abbrev confirmed : Conn
confirmed = record at_home {
  db = record home {
    users = (1, verified_ann) ∷ [];
    email_verification_tokens = (60, record (link 1) { consumed_at = some 500 }) ∷ [];
  };
}

verifying_works : verify_email toy (some (60 ∷ [])) at_home ≡ (ok (shown verified_ann), confirmed)
unfolding verify_email when_found attempt ◌>>=◌ pure query trim_space trim_left trim_right is_space
    get_live_link get_live_link_sql is_live_link links set_links consume_link consume_link_sql
    consume_at mark_user_verified mark_user_verified_sql hash_token lookup update
verifying_works = refl

verify_email-once_example :
    let c'' = perform_all toy later confirmed in
    Refuses (dead_verification toy) c''.db (verify_email toy (some (60 ∷ [])) c'')
unfolding is_keyed lookup links trim_space trim_left trim_right is_space
verify_email-once_example = verify_email-once toy (60 ∷ []) at_home later refl refl verifying_works

abbrev renewed : Conn
renewed = record at_home {
  db = record home {
    users = (1, record ann_account { password_hash = 80 ∷ better_password; updated_at = 500 }) ∷ [];
    refresh_tokens = (50, record { user_id = 1; expires_at = 1000; revoked_at = some 500 }) ∷ [];
    password_reset_tokens = (70, record (link 1) { consumed_at = some 500 }) ∷ [];
  };
  draws = 81 ∷ 82 ∷ 83 ∷ 84 ∷ [];
}

resetting_works :
    confirm_password_reset toy (some (70 ∷ [], better_password)) at_home ≡ (ok (shown tt), renewed)
unfolding confirm_password_reset when_found attempt ◌>>=◌ pure query trim_space trim_left trim_right
    is_space validate_password byte_length get_live_link get_live_link_sql is_live_link links
    set_links replace_password hash_password draw lift update_user_password update_user_password_sql
    consume_link consume_link_sql consume_at revoke_all_refresh_tokens_for_user
    revoke_all_refresh_tokens_for_user_sql revoke_if update_all hash_token lookup update
resetting_works = refl

confirm_password_reset-shown_example : IsReset toy (70 ∷ []) better_password home renewed.db
unfolding is_keyed lookup links
confirm_password_reset-shown_example =
    confirm_password_reset-shown toy (70 ∷ []) better_password at_home refl resetting_works

confirm_password_reset-once_example :
    let c'' = perform_all toy later renewed in
    Refuses (dead_reset toy) c''.db (confirm_password_reset toy (some (70 ∷ [], password)) c'')
unfolding is_keyed lookup links trim_space trim_left trim_right is_space validate_password
    byte_length
confirm_password_reset-once_example =
    confirm_password_reset-once toy (70 ∷ []) better_password password at_home later refl refl refl
      resetting_works

-- "bob"
abbrev bob_account : User
bob_account = new_user bob (98 ∷ 111 ∷ 98 ∷ []) (80 ∷ password) 500

abbrev joined : Conn
joined = record at_home {
  db = record home {
    users = (81, bob_account) ∷ home.users;
    email_verification_tokens =
        (82, record { user_id = 81; expires_at = 500 + 86_400_000_000_000; consumed_at = none })
        ∷ home.email_verification_tokens;
  };
  draws = 83 ∷ 84 ∷ [];
  outbox = verification_mail bob (82 ∷ []) ∷ [];
}

registering_works :
    register toy (some (bob, 98 ∷ 111 ∷ 98 ∷ [], password)) at_home
    ≡ (ok (shown (81, bob_account)), joined)
unfolding register trim_space trim_left trim_right is_space validate_registration email_problems
    split_at is_uwaterloo_domain trim_dot text_eq ends_with username_problems is_username all_chars
    is_username_char password_problems validate_password byte_length register_valid
    count_users_by_email_or_username count_users_by_email_or_username_sql count create_account
    hash_password draw lift create_user create_user_sql is_storable fits_columns is_same_account
    attempt ◌>>=◌ pure query find lookup issue_verification_email consume_all_links
    consume_all_links_sql consume_if update_all links set_links new_opaque_token hash_token clock
    create_link create_link_sql send
registering_works = refl

register-shown_example :
    Joins toy
      (trim_space bob)
      (trim_space (98 ∷ 111 ∷ 98 ∷ []))
      password
      home
      (81, bob_account)
      joined.db
register-shown_example =
    register-shown toy bob (98 ∷ 111 ∷ 98 ∷ []) password at_home registering_works

perform_all-suspend_example :
    let d = (perform_all toy later after_suspend).db in IsEvicted 3 d × (live_sessions 3 800 d ≡ 0)
unfolding is_keyed lookup
perform_all-suspend_example =
    perform_all-suspend pool_tx pool_tx-IsTransactional toy 1 3 spam (conn []) later 800 refl
      suspending_works
