-- ===== src/Store/Rows.antt =====
-- The rows of internal/db/sqlcgen/models.go, without the columns that the modelled statements do
-- not touch, and the errors of internal/db. `updated_at` of users, listings and requests is what
-- the trigger set_updated_at of migrations/000001_init.up.sql writes on every UPDATE; the same
-- column of conversations and offers, which no modelled code reads, is left out.
use Prim.Native.String.{String}
use waterloo_star_backend.Common.{ℕ, Bool, true, false, Option, List}
use waterloo_star_backend.Common.Text.{Text}
use waterloo_star_backend.Store.Table.{Table}

-- `users.role`: a CHECK admits three values. `other` is any text that is none of them.
pub data Role : Type 0 where
  user moderator admin : Role
  other : ℕ → Role

abbrev pub is_admin : Role → Bool
is_admin admin = true
is_admin _ = false

pub record User : Type 0 where
  pub email : Text
  pub username : Text
  pub password_hash : Text
  pub role : Role
  pub verified : Bool
  pub suspended_at : Option ℕ
  pub suspended_by : Option ℕ
  pub suspend_reason : Option Text
  pub email_notifications : Bool
  pub updated_at : ℕ

-- A listing or a housing request. A request has no address, and `address_line` is empty there.
pub record Post : Type 0 where
  pub owner_id : ℕ
  pub status : Text
  pub published_at : Option ℕ
  pub removed_at : Option ℕ
  pub removed_by : Option ℕ
  pub removed_reason : Option Text
  pub address_line : Text
  pub updated_at : ℕ

pub record RefreshToken : Type 0 where
  pub user_id : ℕ
  pub expires_at : ℕ
  pub revoked_at : Option ℕ

-- A token of a link in an email: `EmailVerificationToken` and `PasswordResetToken`. The key of
-- its row, like that of a refresh token, is the hash of the token.
pub record LinkToken : Type 0 where
  pub user_id : ℕ
  pub expires_at : ℕ
  pub consumed_at : Option ℕ

pub record Conversation : Type 0 where
  pub listing_id : ℕ
  pub owner_id : ℕ
  pub enquirer_id : ℕ
  pub opened_by : ℕ
  pub closed_at : Option ℕ
  pub closed_by : Option ℕ
  pub owner_read_at : Option ℕ
  pub enquirer_read_at : Option ℕ
  pub address_shared_at : Option ℕ

-- The row's table orders messages by time.
pub record ChatMessage : Type 0 where
  pub conversation_id : ℕ
  pub sender_id : ℕ
  pub body : Text
  pub created_at : ℕ

pub record RequestOffer : Type 0 where
  pub request_id : ℕ
  pub listing_id : ℕ
  pub owner_id : ℕ
  pub note : Text
  pub withdrawn_at : Option ℕ
  pub conversation_id : Option ℕ

pub data ActionName : Type 0 where
  set_role suspend reinstate verify remove_post restore_post : ActionName

pub data Subject : Type 0 where
  subject_user subject_listing subject_request : Subject

-- One entry of `detail map[string]any`: a text, a boolean or a time.
pub data Value : Type 0 where
  text : Text → Value
  word : String → Value
  role_name : Role → Value
  flag : Bool → Value
  time : ℕ → Value

abbrev pub Detail : Type 0
Detail = List (String × Value)

pub record AdminAction : Type 0 where
  pub actor_id : Option ℕ
  pub action : ActionName
  pub subject_type : Subject
  pub subject_id : ℕ
  pub reason : Text
  pub detail : Detail
  pub created_at : ℕ

pub record Db : Type 0 where
  pub users : Table User
  pub listings : Table Post
  pub requests : Table Post
  pub refresh_tokens : Table RefreshToken
  pub email_verification_tokens : Table LinkToken
  pub password_reset_tokens : Table LinkToken
  pub conversations : Table Conversation
  pub messages : Table ChatMessage
  pub offers : Table RequestOffer
  -- newest first
  pub admin_actions : List AdminAction

-- `database` is any error of the driver or the server that the code does not tell apart.
pub data Error : Type 0 where
  no_rows database : Error
  -- a unique constraint; and an error from outside the database: random bytes, bcrypt, signing
  unique_violation outside : Error
  reason_required self_action last_admin role_unchanged : Error
  already_suspended not_suspended already_verified : Error
  already_removed not_removed no_takedown : Error
