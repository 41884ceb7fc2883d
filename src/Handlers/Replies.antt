-- ===== src/Handlers/Replies.antt =====
-- What a handler answers, and the gate of internal/httpapi/admin_guard.go. The text of a message
-- is the list of its pieces.
use Prim.Native.String.{String}
use waterloo_star_backend.Common.{ℕ, Option, none, some, List, [], ◌∷◌, ◌==◌, if◌then◌else◌}
use waterloo_star_backend.Store.Rows.{Role, is_admin}
use waterloo_star_backend.Store.Conn.{Result, ok, M, pure}

pub data Code : Type 0 where
  no_code bad_request validation not_found conflict : Code
  unauthorized forbidden rate_limited : Code

abbrev pub Message : Type 0
Message = List String

-- `gen.Error`: a code, a message, and a message for each field at fault.
pub record ErrorBody : Type 0 where
  pub code : Code
  pub message : Message
  pub details : List (String × Message)

abbrev pub zero_body : ErrorBody
zero_body = record { code = Code.no_code; message = []; details = [] }

abbrev pub error_body : Code → Message → ErrorBody
error_body code message = record { code = code; message = message; details = [] }

abbrev pub field_body : Message → String → Message → ErrorBody
field_body message field problem = record {
  code = Code.validation;
  message = message;
  details = (field, problem) ∷ [];
}

-- A handler's response: the one of an unknown path, a body with 200, or an error with its status.
pub data Response (A : Type 0) : Type 0 where
  unrouted : Response A
  shown : A → Response A
  refused : ℕ → ErrorBody → Response A

pub record Principal : Type 0 where
  pub user_id : ℕ
  pub role : Role

-- `requireAdmin`, of the principal in the access token, if there is one
unfoldable pub require_admin : Option Principal → Option Principal
require_admin none = none
require_admin (some p) = if is_admin p.role then some p else none

-- `principal, ok := requireAdmin(ctx); if !ok { return unrouted{}, nil }`, and the rest
abbrev pub admit : {A : Type 0} → Option Principal → (Principal → M (Response A)) → M (Response A)
admit none rest = pure unrouted
admit (some p) rest = rest p

-- `err := act(…)`: the error as a value
unfoldable pub attempt : {A : Type 0} → M A → M (Result A)
attempt m c = let (r, c') = m c in (ok r, c')

-- The status and the error of an action before they are fitted to a response.
pub record Outcome : Type 0 where
  pub status : ℕ
  pub body : ErrorBody

-- `switch o.status`, of an outcome that is not 200
abbrev pub refusal_of : {A : Type 0} → Outcome → Response A
refusal_of o =
    if o.status == 400
    then refused 400 o.body
    else if o.status == 404
    then refused 404 o.body
    else refused 409 o.body
