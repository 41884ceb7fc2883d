-- ===== src/Handlers/Tests.antt =====
-- Requests to the admin surface, on the small site of Admin/Tests.antt.
use waterloo_star_backend.Common.{true, false, Option, some, [], ◌∷◌}
use waterloo_star_backend.Common.Text.{Text}
use waterloo_star_backend.Store.Rows.{Role}
use waterloo_star_backend.Store.Conn.{Conn}
use waterloo_star_backend.Handlers.Replies.{Principal}
use waterloo_star_backend.Handlers.Requests.{AdminRequest}
use waterloo_star_backend.Admin.Tests.{conn}

abbrev ann : Option Principal
ann = some (record { user_id = 1; role = Role.admin })

-- "spam spam spam"
abbrev long_reason : Text
long_reason = 115 ∷ 112 ∷ 97 ∷ 109 ∷ 32 ∷ 115 ∷ 112 ∷ 97 ∷ 109 ∷ 32 ∷ 115 ∷ 112 ∷ 97 ∷ 109 ∷ []

-- Ann takes listing 7 down, and the first statement of the read back fails.
abbrev takedown : AdminRequest
takedown = AdminRequest.remove_listing_request 7 (some long_reason)

abbrev shaky : Conn
shaky = conn (false ∷ false ∷ false ∷ true ∷ [])
