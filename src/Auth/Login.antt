-- ===== src/Auth/Login.antt =====
-- The ways in, by a code and by a password (apps/api/src/modules/auth/auth.service.ts). Argon2 is
-- `verify_password`.
pub mod Entry
pub mod Enquiry
pub mod Lockout
use howlow.Prelude.{
  ◌⊎◌, inl, inr, ℕ, ◌+◌, Bool, true, false, Option, none, some, Text, List, [], ◌∷◌, ltb, leb, not,
  is_some, if◌then◌else◌,
}
use howlow.Errors.{
  AppError, rate_limited, not_found, validation_failed, unauthenticated, forbidden, Result, ok, err,
}
use howlow.Shared.{Channel}
use howlow.Auth.{Role, user}
use howlow.Auth.Rows.{
  UserStatus, is_active_status, UserRow, OtpPurpose, login, password_reset, password_changed,
  by_password_reset, AuthEvent, user_registered, login_success, login_failed, password_set,
  password_was_changed, password_reset_requested, password_reset_completed, account_locked, AuthDb,
}
use howlow.Auth.Rows
use howlow.Auth.Repository.{
  find_user_by_phone, find_user_by_id, NewUser, create_pending_user, activate_user,
  set_password_hash, record_failed_login, clear_login_failures, get_user_roles, grant_role,
  record_auth_event,
}
use howlow.Auth.Calls.{
  Call, return, raise, reads, raise_if, or_raise, ◌>>=◌, ◌>>◌, Open, inside, in_transaction,
}
use howlow.Auth.Otp.{OtpDispatch, Sending, otp_ttl_seconds, dispatch_otp, verify_otp}
use howlow.Auth.Sessions.{
  Crypto, SessionSeed, IssuedSession, issue_session, is_active_user, revoke_all_sessions,
}
use howlow.Wallet.Rows.{WalletDb}
use howlow.Wallet.Service.{get_wallet, default_currency}
use howlow.Auth.Accounts.{
  RateLimitName, register_limit, otp_send, otp_verify, login_limit, password_reset_limit,
  enforce_rate_limit, PublicUser, to_public_user, nothing_sent,
}

abbrev pub lock_after_attempts : ℕ
lock_after_attempts = 5

abbrev pub lock_minutes : ℕ
lock_minutes = 15

-- `requestLoginOtp`
unfoldable pub request_login_otp :
    (Text → Text) → Sending → Option ℕ → Text → Call AuthDb OtpDispatch
request_login_otp sha256 s count phone = do
  enforce_rate_limit otp_send count
  found ← reads (find_user_by_phone phone)
  elim found [
    | none ↦ return nothing_sent
    | some u ↦
        if is_active_status u.status
        then dispatch_otp sha256 s (some u.id) phone login
        else return nothing_sent
  ]

abbrev pub is_locked : ℕ → UserRow → Bool
is_locked now u = elim u.locked_until [ none ↦ false | some t ↦ ltb now t ]

-- `assertNotLocked`
abbrev pub assert_not_locked : ℕ → UserRow → Call AuthDb (Unit {0})
assert_not_locked now u = raise_if (is_locked now u) forbidden

-- What both ways of `login` end with.
unfoldable pub enter :
    Crypto → SessionSeed → UserRow → Channel → Call AuthDb (PublicUser × IssuedSession)
enter k seed u channel = do
  clear_login_failures u.id
  roles ← reads (get_user_roles u.id)
  record_auth_event login_success (some u.id)
  session ← issue_session k seed u.id roles channel
  return (to_public_user u roles, session)

abbrev pub assert_active : Option UserRow → Call AuthDb UserRow
assert_active none = raise unauthenticated
assert_active (some u) = if is_active_status u.status then return u else raise unauthenticated

-- `loginWithOtp`
unfoldable pub login_with_otp :
    Crypto
    → SessionSeed
    → Option ℕ
    → Text
    → Text
    → Channel
    → Call AuthDb (PublicUser × IssuedSession)
unfolding in_transaction
login_with_otp k seed count phone code channel = do
  enforce_rate_limit otp_verify count
  in_transaction (do
    u ← inside (reads (find_user_by_phone phone) >>= assert_active)
    inside (assert_not_locked seed.now u)
    verify_otp k.sha256 seed.now phone login code
    inside (enter k seed u channel))

-- A wrong password, outside any transaction.
unfoldable pub refuse_password : {A : Type 0} → ℕ → UserRow → Call AuthDb A
refuse_password now u = do
  attempts ← record_failed_login now u.id lock_after_attempts lock_minutes
  record_auth_event login_failed (some u.id)
  if leb lock_after_attempts attempts
      then record_auth_event account_locked (some u.id) >> raise unauthenticated
      else raise unauthenticated

-- An account that has no password, or none that is in use.
abbrev pub refuse_unknown : {A : Type 0} → Call AuthDb A
refuse_unknown = record_auth_event login_failed none >> raise unauthenticated

abbrev pub login_as :
    Crypto
    → SessionSeed
    → Text
    → Channel
    → UserRow
    → Text
    → Call AuthDb (PublicUser × IssuedSession)
login_as k seed password channel u hash = do
  assert_not_locked seed.now u
  if not (k.verify_password hash password)
      then refuse_password seed.now u
      else in_transaction (inside (enter k seed u channel))

abbrev pub login_known :
    Crypto
    → SessionSeed
    → Text
    → Channel
    → UserRow
    → Option Text
    → Call AuthDb (PublicUser × IssuedSession)
login_known k seed password channel u none = refuse_unknown
login_known k seed password channel u (some hash) =
    if not (is_active_status u.status)
    then refuse_unknown
    else login_as k seed password channel u hash

-- `loginWithPassword`
unfoldable pub login_with_password :
    Crypto
    → SessionSeed
    → Option ℕ
    → Text
    → Text
    → Channel
    → Call AuthDb (PublicUser × IssuedSession)
unfolding in_transaction
login_with_password k seed count phone password channel = do
  enforce_rate_limit login_limit count
  found ← reads (find_user_by_phone phone)
  elim found [
    | none ↦ refuse_unknown
    | some u ↦ login_known k seed password channel u u.password_hash
  ]

pub data LoginRequest : Type 0 where
  otp_request : Text → LoginRequest
  by_otp : Text → Text → LoginRequest
  by_password : Text → Text → LoginRequest

-- The dispatch of `login` on the method.
unfoldable pub login_by :
    Crypto
    → SessionSeed
    → Sending
    → Option ℕ
    → Channel
    → LoginRequest
    → Call AuthDb ((PublicUser × IssuedSession) ⊎ OtpDispatch)
login_by k seed s count channel (otp_request phone) = do
  sending ← request_login_otp k.sha256 s count phone
  return (inr sending)
login_by k seed s count channel (by_otp phone code) = do
  entered ← login_with_otp k seed count phone code channel
  return (inl entered)
login_by k seed s count channel (by_password phone password) = do
  entered ← login_with_password k seed count phone password channel
  return (inl entered)
