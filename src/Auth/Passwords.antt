-- ===== src/Auth/Passwords.antt =====
-- changePassword and the password reset of apps/api/src/modules/auth/auth.service.ts. The hash of a new
-- password, whose salt is drawn afresh, is an argument.
pub mod Guessing
pub mod Reset
use howlow.Prelude.{
  ℕ, ◌+◌, Bool, true, false, Option, none, some, Text, List, [], ◌∷◌, ltb, leb, not, is_some,
  if◌then◌else◌,
}
use howlow.Errors.{
  AppError, rate_limited, not_found, validation_failed, unauthenticated, forbidden, Result, ok, err,
}
use howlow.Shared.{Channel}
use howlow.Auth.{Role, user}
use howlow.Auth.Rows.{
  UserStatus, is_active_status, UserRow, OtpPurpose, login, password_reset, password_changed,
  by_password_reset, AuthEvent, user_registered, login_success, login_failed, password_set,
  password_was_changed, password_reset_requested, password_reset_completed, account_locked, AuthDb,
}
use howlow.Auth.Rows
use howlow.Auth.Repository.{
  find_user_by_phone, find_user_by_id, NewUser, create_pending_user, activate_user,
  set_password_hash, record_failed_login, clear_login_failures, get_user_roles, grant_role,
  record_auth_event,
}
use howlow.Auth.Calls.{
  Call, return, raise, reads, raise_if, or_raise, ◌>>=◌, ◌>>◌, Open, inside, in_transaction,
}
use howlow.Auth.Otp.{OtpDispatch, Sending, otp_ttl_seconds, dispatch_otp, verify_otp}
use howlow.Auth.Sessions.{
  Crypto, SessionSeed, IssuedSession, issue_session, is_active_user, revoke_all_sessions,
}
use howlow.Wallet.Rows.{WalletDb}
use howlow.Wallet.Service.{get_wallet, default_currency}
use howlow.Auth.Accounts.{
  RateLimitName, register_limit, otp_send, otp_verify, login_limit, password_reset_limit,
  enforce_rate_limit, PublicUser, to_public_user, nothing_sent,
}

-- The current password is asked for where there is one. The caller's context names the user.
abbrev pub assert_current_password : Crypto → ℕ → Option Text → Option Text → Call AuthDb (Unit {0})
assert_current_password k user_id none current = return tt
assert_current_password k user_id (some hash) none = raise validation_failed
assert_current_password k user_id (some hash) (some current) =
    if not (k.verify_password hash current)
    then record_auth_event login_failed (some user_id) >> raise unauthenticated
    else return tt

abbrev pub revoke_if_changed : ℕ → UserRow → Call AuthDb (Unit {0})
revoke_if_changed now u =
    if is_some u.password_hash
    then revoke_all_sessions now u.id password_changed >> return tt
    else return tt

unfoldable pub store_password : ℕ → UserRow → Text → Call AuthDb (Unit {0})
store_password now u hash = do
  set_password_hash u.id hash
  record_auth_event (if is_some u.password_hash then password_was_changed else password_set)
      (some u.id)
  revoke_if_changed now u

-- `changePassword`; `hash` is that of the new password.
unfoldable pub change_password : Crypto → ℕ → ℕ → Text → Option Text → Call AuthDb (Unit {0})
unfolding in_transaction
change_password k now user_id hash current = do
  u ← or_raise not_found (← reads (find_user_by_id user_id))
  assert_current_password k user_id u.password_hash current
  in_transaction (inside (store_password now u hash))

-- `requestPasswordReset`
unfoldable pub request_password_reset :
    (Text → Text) → Sending → Option ℕ → Text → Call AuthDb OtpDispatch
request_password_reset sha256 s count phone = do
  enforce_rate_limit password_reset_limit count
  found ← reads (find_user_by_phone phone)
  elim found [
    | none ↦ return nothing_sent
    | some u ↦
        if is_active_status u.status
        then (do
          record_auth_event password_reset_requested (some u.id)
          dispatch_otp sha256 s (some u.id) phone password_reset)
        else return nothing_sent
  ]

-- What follows the verified code in `resetPassword`.
unfoldable pub store_reset : ℕ → Text → Text → Call AuthDb (Unit {0})
store_reset now phone hash = do
  u ← or_raise validation_failed (← reads (find_user_by_phone phone))
  set_password_hash u.id hash
  clear_login_failures u.id
  record_auth_event password_reset_completed (some u.id)
  revoke_all_sessions now u.id by_password_reset
  return tt

-- `resetPassword`; `hash` is that of the new password.
unfoldable pub reset_password :
    (Text → Text) → ℕ → Option ℕ → Text → Text → Text → Call AuthDb (Unit {0})
unfolding in_transaction
reset_password sha256 now count phone code hash = do
  enforce_rate_limit otp_verify count
  in_transaction
      (verify_otp sha256 now phone password_reset code >> inside (store_reset now phone hash))
