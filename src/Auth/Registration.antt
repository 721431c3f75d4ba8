-- ===== src/Auth/Registration.antt =====
-- register and verifyPhone of apps/api/src/modules/auth/auth.service.ts.
pub mod Activation
use howlow.Prelude.{
  ℕ, ◌+◌, Bool, true, false, Option, none, some, Text, List, [], ◌∷◌, ltb, leb, not, is_some,
  if◌then◌else◌,
}
use howlow.Errors.{
  AppError, rate_limited, not_found, validation_failed, unauthenticated, forbidden, Result, ok, err,
}
use howlow.Shared.{Channel}
use howlow.Auth.{Role, user}
use howlow.Auth.Rows.{
  UserStatus, is_active_status, UserRow, OtpPurpose, login, password_reset, password_changed,
  by_password_reset, AuthEvent, user_registered, login_success, login_failed, password_set,
  password_was_changed, password_reset_requested, password_reset_completed, account_locked, AuthDb,
}
use howlow.Auth.Rows
use howlow.Auth.Repository.{
  find_user_by_phone, find_user_by_id, NewUser, create_pending_user, activate_user,
  set_password_hash, record_failed_login, clear_login_failures, get_user_roles, grant_role,
  record_auth_event,
}
use howlow.Auth.Calls.{
  Call, return, raise, reads, raise_if, or_raise, ◌>>=◌, ◌>>◌, Open, inside, in_transaction,
}
use howlow.Auth.Otp.{OtpDispatch, Sending, otp_ttl_seconds, dispatch_otp, verify_otp}
use howlow.Auth.Sessions.{
  Crypto, SessionSeed, IssuedSession, issue_session, is_active_user, revoke_all_sessions,
}
use howlow.Wallet.Rows.{WalletDb}
use howlow.Wallet.Service.{get_wallet, default_currency}
use howlow.Auth.Accounts.{
  RateLimitName, register_limit, otp_send, otp_verify, login_limit, password_reset_limit,
  enforce_rate_limit, PublicUser, to_public_user, nothing_sent,
}

-- The account is made, unless it is there and not verified.
abbrev pub find_or_create : ℕ → ℕ → NewUser → Option UserRow → Call AuthDb UserRow
find_or_create fresh now i (some existing) = return existing
find_or_create fresh now i none = do
  u ← create_pending_user fresh now i
  grant_role u.id user
  record_auth_event user_registered (some u.id)
  return u

unfoldable pub register_within : (Text → Text) → Sending → ℕ → NewUser → Call AuthDb OtpDispatch
register_within sha256 s fresh i = do
  existing ← reads (find_user_by_phone i.phone)
  if is_active_user existing then return nothing_sent else (do
    u ← find_or_create fresh s.now i existing
    dispatch_otp sha256 s (some u.id) i.phone OtpPurpose.phone_verify)

-- `register`
unfoldable pub register : (Text → Text) → Sending → Option ℕ → ℕ → NewUser → Call AuthDb OtpDispatch
unfolding in_transaction
register sha256 s count fresh i = do
  enforce_rate_limit register_limit count
  in_transaction (inside (register_within sha256 s fresh i))

-- The wallet's own rows are part of the transaction.
abbrev pub keep_wallet : {A : Type 0} → AuthDb → Result (A × WalletDb) → Result (Unit {0}) × AuthDb
keep_wallet db (ok (w, t)) = (ok tt, record db { wallet = t })
keep_wallet db (err e) = (err e, db)

unfoldable pub open_wallet : ℕ → ℕ → Call AuthDb (Unit {0})
open_wallet fresh user_id db = keep_wallet db (get_wallet fresh user_id default_currency db.wallet)

-- What follows the verified code in `verifyPhone`.
unfoldable pub activate_and_enter :
    Crypto → SessionSeed → ℕ → Text → Channel → Call AuthDb (PublicUser × IssuedSession)
activate_and_enter k seed fresh_wallet phone channel = do
  u ← or_raise validation_failed (← reads (find_user_by_phone phone))
  activate_user seed.now u.id
  record_auth_event AuthEvent.phone_verified (some u.id)
  open_wallet fresh_wallet u.id
  roles ← reads (get_user_roles u.id)
  refreshed ← or_raise not_found (← reads (find_user_by_id u.id))
  session ← issue_session k seed u.id roles channel
  return (to_public_user refreshed roles, session)

-- `verifyPhone`
unfoldable pub verify_phone :
    Crypto
    → SessionSeed
    → Option ℕ
    → ℕ
    → Text
    → Text
    → Channel
    → Call AuthDb (PublicUser × IssuedSession)
unfolding in_transaction
verify_phone k seed count fresh_wallet phone code channel = do
  enforce_rate_limit otp_verify count
  in_transaction (
      verify_otp k.sha256 seed.now phone OtpPurpose.phone_verify code
      >> inside (activate_and_enter k seed fresh_wallet phone channel))
