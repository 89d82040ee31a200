-- ===== src/Publish/StepUp.antt =====
-- backend/src/modules/publish/step-up-auth.service.ts: the password that each dangerous action asks.
use content_hub.Base.{ℕ, Bool, false, Option, none, some, String, if◌then◌else◌}
use content_hub.Base.Effects.{M, ok, err, unauthorized}
use content_hub.Publish.Store.{Store, Ports, User, AuditAction, record_audit, audit_row, find_user}

abbrev verified : Option Bool → Bool
verified none = false
verified (some b) = b

-- `passwordMatches`
pub password_matches : Ports → Option User → String → Bool
password_matches ports none password = false
password_matches ports (some user) password = verified (ports.verify user.password_hash password)

-- `assertFreshPassword`
unfoldable pub assert_fresh_password : Ports → ℕ → String → AuditAction → M Store (Unit {0})
unfolding password_matches record_audit find_user
assert_fresh_password ports user_id password failure_action s =
    if password_matches ports (find_user user_id s.users) password
    then (ok tt, s)
    else (err unauthorized, record_audit (audit_row user_id failure_action false none) s)
