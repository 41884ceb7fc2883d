-- ===== src/Auth/Calls.antt =====
-- Any sequence of requests to the handlers of internal/httpapi/auth.go. The time, the faults and
-- the random values of each are arbitrary, and so is how the requests follow each other.
use waterloo_star_backend.Common.{ℕ, Bool, Option, List, [], ◌∷◌}
use waterloo_star_backend.Common.Text.{Text}
use waterloo_star_backend.Store.Rows.{Db}
use waterloo_star_backend.Store.Conn.{Conn}
use waterloo_star_backend.Store.Invariants.{kept}
use waterloo_star_backend.Auth.Platform.{Platform}
use waterloo_star_backend.Auth.Accounts.{register, verify_email, resend_verification, get_me}
use waterloo_star_backend.Auth.Login.{login, refresh_session, logout}
use waterloo_star_backend.Auth.Reset.{request_password_reset, confirm_password_reset}
use waterloo_star_backend.Auth.Guarded.{Guarded}
use waterloo_star_backend.Auth.Kept.{
  register-Keeps, verify_email-Keeps, resend_verification-Keeps, get_me-Keeps, login-Keeps,
  refresh_session-Keeps, logout-Keeps, request_password_reset-Keeps, confirm_password_reset-Keeps,
}

pub data AuthCall : Type 0 where
  registering : Option (Text × Text × Text) → AuthCall
  verifying_email resending asking_for_reset : Option Text → AuthCall
  logging_in confirming_reset : Option (Text × Text) → AuthCall
  refreshing logging_out : Text → AuthCall
  reading_me : Option ℕ → AuthCall

-- What a call finds around it.
pub record Surroundings : Type 0 where
  pub now : ℕ
  pub faults : List Bool
  pub draws : List ℕ

abbrev pub surrounded : Surroundings → Conn → Conn
surrounded s c = record c { now = s.now; faults = s.faults; draws = s.draws }

module _ (p : Platform) where
  unfoldable pub perform_auth : AuthCall → Conn → Conn
  perform_auth (registering body) c = (register p body c).1
  perform_auth (verifying_email body) c = (verify_email p body c).1
  perform_auth (resending body) c = (resend_verification p body c).1
  perform_auth (asking_for_reset body) c = (request_password_reset p body c).1
  perform_auth (logging_in body) c = (login p body c).1
  perform_auth (confirming_reset body) c = (confirm_password_reset p body c).1
  perform_auth (refreshing raw) c = (refresh_session p raw c).1
  perform_auth (logging_out raw) c = (logout p raw c).1
  perform_auth (reading_me asked) c = (get_me asked c).1

  unfoldable pub perform_all : List (Surroundings × AuthCall) → Conn → Conn
  perform_all [] c = c
  perform_all ((s, call) ∷ rest) c = perform_all rest (perform_auth call (surrounded s c))

  module _ {I : Db → Type 0} {Allowed : ℕ → Type 0} (g : Guarded I Allowed) where
    pub perform_auth-Guarded : (call : AuthCall) (c : Conn) → I c.db → I (perform_auth call c).db
    unfolding perform_auth
    perform_auth-Guarded (registering body) c i =
        kept (register p body) (register-Keeps p g body) c i
    perform_auth-Guarded (verifying_email body) c i =
        kept (verify_email p body) (verify_email-Keeps p g body) c i
    perform_auth-Guarded (resending body) c i =
        kept (resend_verification p body) (resend_verification-Keeps p g body) c i
    perform_auth-Guarded (asking_for_reset body) c i =
        kept (request_password_reset p body) (request_password_reset-Keeps p g body) c i
    perform_auth-Guarded (logging_in body) c i = kept (login p body) (login-Keeps p g body) c i
    perform_auth-Guarded (confirming_reset body) c i =
        kept (confirm_password_reset p body) (confirm_password_reset-Keeps p g body) c i
    perform_auth-Guarded (refreshing raw) c i =
        kept (refresh_session p raw) (refresh_session-Keeps p g raw) c i
    perform_auth-Guarded (logging_out raw) c i = kept (logout p raw) (logout-Keeps p g raw) c i
    perform_auth-Guarded (reading_me asked) c i = kept (get_me asked) (get_me-Keeps p g asked) c i

    pub perform_all-Guarded :
        (calls : List (Surroundings × AuthCall)) (c : Conn) → I c.db → I (perform_all calls c).db
    unfolding perform_all
    perform_all-Guarded [] c i = i
    perform_all-Guarded ((s, call) ∷ rest) c i =
        perform_all-Guarded rest (perform_auth call (surrounded s c))
          (perform_auth-Guarded call (surrounded s c) i)
