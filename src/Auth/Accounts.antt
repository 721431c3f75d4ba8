-- ===== src/Auth/Accounts.antt =====
-- The limiter of apps/api/src/modules/auth/rate-limit.ts as auth.service.ts asks it, and what that file shows of
-- an account. Redis is not modelled: `count` is what its INCR answers, and `none` an outage; clearing a
-- counter writes no row.
use howlow.Prelude.{ℕ, Bool, true, Option, none, some, Text, List, leb, not, is_some}
use howlow.Errors.{rate_limited, not_found}
use howlow.Auth.{Role}
use howlow.Auth.Rows.{UserStatus, UserRow, AuthDb}
use howlow.Auth.Repository.{find_user_by_id, get_user_roles}
use howlow.Auth.Calls.{Call, return, reads, or_raise, raise_if, ◌>>=◌}
use howlow.Auth.Otp.{OtpDispatch, otp_ttl_seconds}

-- `RATE_LIMITS`, the limits of the rules that this file asks.
pub data RateLimitName : Type 0 where
  register_limit otp_send otp_verify login_limit password_reset_limit : RateLimitName

abbrev pub rate_limit : RateLimitName → ℕ
rate_limit register_limit = 5
rate_limit otp_send = 5
rate_limit otp_verify = 10
rate_limit login_limit = 10
rate_limit password_reset_limit = 5

-- `consumeRateLimit(…).allowed`
abbrev pub is_allowed : RateLimitName → Option ℕ → Bool
is_allowed name none = true
is_allowed name (some count) = leb count (rate_limit name)

-- `enforceRateLimit`
abbrev pub enforce_rate_limit : RateLimitName → Option ℕ → Call AuthDb (Unit {0})
enforce_rate_limit name count = raise_if (not (is_allowed name count)) rate_limited

-- `PublicUser`
pub record PublicUser : Type 0 where
  pub id : ℕ
  pub display_name : Text
  pub phone : Option Text
  pub email : Option Text
  pub status : UserStatus
  pub roles : List Role
  pub has_password : Bool
  pub phone_verified : Bool
  pub created_at : ℕ

abbrev pub to_public_user : UserRow → List Role → PublicUser
to_public_user u roles = record {
  id = u.id;
  display_name = u.display_name;
  phone = u.phone;
  email = u.email;
  status = u.status;
  roles = roles;
  has_password = is_some u.password_hash;
  phone_verified = is_some u.phone_verified_at;
  created_at = u.created_at;
}

abbrev pub nothing_sent : OtpDispatch
nothing_sent = record { expires_in_seconds = otp_ttl_seconds; dev_code = none }

-- `getPublicUser`
unfoldable pub get_public_user : ℕ → Call AuthDb PublicUser
get_public_user user_id = do
  u ← or_raise not_found (← reads (find_user_by_id user_id))
  roles ← reads (get_user_roles user_id)
  return (to_public_user u roles)
