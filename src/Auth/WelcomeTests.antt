-- ===== src/Auth/WelcomeTests.antt =====
-- The site of Auth/Tests.antt where nothing fails: a login of Ann, and a new link for her.
use waterloo_star_backend.Common.{◌≡◌, refl, some, true, false, [], ◌∷◌}
use waterloo_star_backend.Common.Text.{trim_space, trim_left, trim_right, is_space, text_eq}
use waterloo_star_backend.Store.Table.{lookup, find}
use waterloo_star_backend.Store.Conn.{ok, verification_mail}
use waterloo_star_backend.Handlers.Replies.{shown}
use waterloo_star_backend.Auth.Platform.{hash_token}
use waterloo_star_backend.Auth.Accounts.{issue_verification_email, verify_email}
use waterloo_star_backend.Auth.Login.{login}
use waterloo_star_backend.Auth.Calls.{surrounded}
use waterloo_star_backend.Auth.Confirmed.{ready, verify_email-issue_verification_email}
use waterloo_star_backend.Auth.Welcome.{Drawn, session_of, with_session, login-works}
use waterloo_star_backend.Auth.Tests.{toy, password, ann, ann_account, home, at_home}

abbrev drawn : Drawn toy
drawn = record { token_id = 80; refresh = 81; csrf = 82; rest = 83 ∷ 84 ∷ [] }

-- The address with a space before it
login-works_example : login toy (some (32 ∷ ann, password)) at_home ≡ (
  ok (shown (session_of toy ann_account 500 (1 ∷ 500 ∷ []) drawn), false),
  record at_home { db = with_session toy 1 500 drawn home; draws = 83 ∷ 84 ∷ [] },
)
unfolding find text_eq trim_space trim_left trim_right is_space lookup hash_token
login-works_example =
    login-works toy (32 ∷ ann) password 1 ann_account drawn (1 ∷ 500 ∷ []) at_home refl refl refl
      refl refl refl refl refl

verify_email-issue_verification_email_example :
    let sent = (issue_verification_email toy 1 ann_account (ready home 500 90 [] [])).1 in
    let then = surrounded (record { now = 900; faults = []; draws = [] }) sent in
    (sent.outbox ≡ verification_mail ann (90 ∷ []) ∷ [])
    × ((verify_email toy (some (90 ∷ [])) then).0
        ≡ ok (shown (record ann_account { verified = true; updated_at = 900 })))
unfolding lookup hash_token trim_space trim_left trim_right is_space
verify_email-issue_verification_email_example =
    verify_email-issue_verification_email toy 1 500 90 [] [] ann_account home 900 [] refl refl refl
      refl
