-- ===== src/Handlers/Requests.antt =====
-- The eight admin requests that change something.
use waterloo_star_backend.Common.{ℕ, Option}
use waterloo_star_backend.Common.Text.{Text}
use waterloo_star_backend.Store.Rows.{User, Post}
use waterloo_star_backend.Store.Conn.{Conn, M, TxRunner}
use waterloo_star_backend.Handlers.Replies.{Response, Principal}
use waterloo_star_backend.Handlers.AdminAccounts.{
  suspend_admin_user, reinstate_admin_user, verify_admin_user, RoleChangeBody, set_admin_user_role,
}
use waterloo_star_backend.Handlers.AdminPosts.{
  remove_admin_listing, restore_admin_listing, remove_admin_request, restore_admin_request,
}

-- A change request to the admin surface: its parameters, and its body if there is one.
pub data AdminRequest : Type 0 where
  suspend_request reinstate_request verify_request : ℕ → Option Text → AdminRequest
  role_request : ℕ → Option RoleChangeBody → AdminRequest
  remove_listing_request restore_listing_request : ℕ → Option Text → AdminRequest
  remove_request_request restore_request_request : ℕ → Option Text → AdminRequest

-- What a handler shows with 200: an account, or a post with its owner.
abbrev pub Shown : AdminRequest → Type 0
Shown (suspend_request id body) = User
Shown (reinstate_request id body) = User
Shown (verify_request id body) = User
Shown (role_request id body) = User
Shown _ = Post × User

-- The handler that the generated router calls.
unfoldable pub handle : TxRunner → Option Principal → (r : AdminRequest) → M (Response (Shown r))
handle tx asked (suspend_request id body) = suspend_admin_user tx asked id body
handle tx asked (reinstate_request id body) = reinstate_admin_user tx asked id body
handle tx asked (verify_request id body) = verify_admin_user tx asked id body
handle tx asked (role_request id body) = set_admin_user_role tx asked id body
handle tx asked (remove_listing_request id body) = remove_admin_listing tx asked id body
handle tx asked (restore_listing_request id body) = restore_admin_listing tx asked id body
handle tx asked (remove_request_request id body) = remove_admin_request tx asked id body
handle tx asked (restore_request_request id body) = restore_admin_request tx asked id body
