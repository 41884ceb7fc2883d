-- ===== src/RateLimit/Policy.antt =====
-- internal/ratelimit/policy.go: every limit of the service, and what the notification caps bound.
use waterloo_star_backend.Common.{ℕ, ◌*◌, ◌≤◌, List, ◌∷◌, arith}
use Prim.Native.String.{String}
use waterloo_star_backend.RateLimit.Bucket.{Rule, second}
use waterloo_star_backend.RateLimit.Exact.{granted, sum, level, granted-le, granted_twice}

abbrev pub minutes : ℕ → ℕ
minutes n = n * (60 * second)

abbrev pub hours : ℕ → ℕ
hours n = n * (3600 * second)

abbrev rule : String → ℕ → ℕ → Rule
rule name burst window = record { name = name; burst = burst; window = window }

abbrev pub login_per_email : Rule
login_per_email = rule "login_per_email" 5 (minutes 15)

abbrev pub login_global : Rule
login_global = rule "login_global" 60 (minutes 1)

abbrev pub register_per_email : Rule
register_per_email = rule "register_per_email" 3 (hours 1)

abbrev pub register_global : Rule
register_global = rule "register_global" 30 (minutes 10)

abbrev pub reset_request_per_email : Rule
reset_request_per_email = rule "reset_request_per_email" 3 (hours 1)

abbrev pub reset_request_global : Rule
reset_request_global = rule "reset_request_global" 30 (hours 1)

abbrev pub resend_per_email : Rule
resend_per_email = rule "resend_per_email" 3 (hours 1)

abbrev pub resend_global : Rule
resend_global = rule "resend_global" 30 (hours 1)

abbrev pub token_per_token : Rule
token_per_token = rule "token_per_token" 10 (hours 1)

abbrev pub token_global : Rule
token_global = rule "token_global" 60 (minutes 10)

abbrev pub write_per_user : Rule
write_per_user = rule "write_per_user" 30 (hours 1)

abbrev pub conversation_start_per_user : Rule
conversation_start_per_user = rule "conversation_start_per_user" 10 (hours 2)

abbrev pub message_per_user : Rule
message_per_user = rule "message_per_user" 60 (minutes 10)

abbrev pub share_address_per_user : Rule
share_address_per_user = rule "share_address_per_user" 20 (hours 1)

abbrev pub preferences_per_user : Rule
preferences_per_user = rule "preferences_per_user" 20 (hours 1)

abbrev pub notify_per_recipient : Rule
notify_per_recipient = rule "notify_per_recipient" 20 (hours 24)

abbrev pub notify_global : Rule
notify_global = rule "notify_global" 30 (hours 24)

-- On exact numbers, in any stretch of waits no longer than 24 hours, the bucket of notify_global,
-- holding at most its burst, grants at most sixty calls of `Allow`.
pub notify_global-daily :
    (t last wait : ℕ) (waits : List ℕ)
    → t ≤ 30 * hours 24
    → sum notify_global waits ≤ hours 24
    → granted notify_global last (level notify_global t last) (wait ∷ waits) ≤ 60
notify_global-daily t last wait waits full short =
    granted_twice notify_global (omega arith) (omega arith) t last wait waits full short

-- On exact numbers, in any stretch of waits no longer than 31 days, the bucket of notify_global,
-- holding at most its burst, grants at most 960 calls of `Allow`.
pub notify_global-monthly :
    (t last wait : ℕ) (waits : List ℕ)
    → t ≤ 30 * hours 24
    → sum notify_global waits ≤ 31 * hours 24
    → granted notify_global last (level notify_global t last) (wait ∷ waits) ≤ 960
notify_global-monthly t last wait waits full short =
    omega (arith, granted-le notify_global (omega arith) (omega arith) t last wait waits full)
