-- ===== src/Auth/Rows.antt =====
-- Rows of `users`, `user_roles`, `otp_challenges` and `sessions` (migrations/0002_identity.sql and
-- migrations/0010_auth.sql; the row types of apps/api/src/modules/auth/repository.ts), and the tables
-- of the auth module together. Instants are in milliseconds, by one clock for the server and the
-- database. Columns that nothing of the module reads back are left out: `password_changed_at`,
-- `last_login_at`, `email_verified_at`, the address and the agent of a session.
use howlow.Prelude.{ℕ, Bool, true, false, Option, Text, List}
use howlow.Shared.{Channel}
use howlow.Auth.{Role}
use howlow.Wallet.Rows.{WalletDb}

pub data UserStatus : Type 0 where
  pending active suspended deleted : UserStatus

abbrev pub is_active_status : UserStatus → Bool
is_active_status active = true
is_active_status _ = false

abbrev pub is_deleted : UserStatus → Bool
is_deleted deleted = true
is_deleted _ = false

pub record UserRow : Type 0 where
  pub id : ℕ
  pub phone : Option Text
  pub email : Option Text
  pub display_name : Text
  pub password_hash : Option Text
  pub status : UserStatus
  pub phone_verified_at : Option ℕ
  pub failed_login_attempts : ℕ
  pub locked_until : Option ℕ
  pub created_at : ℕ

pub data OtpPurpose : Type 0 where
  phone_verify login password_reset : OtpPurpose

abbrev pub purpose_eq : OtpPurpose → OtpPurpose → Bool
purpose_eq phone_verify phone_verify = true
purpose_eq login login = true
purpose_eq password_reset password_reset = true
purpose_eq _ _ = false

pub record OtpRow : Type 0 where
  pub id : ℕ
  pub user_id : Option ℕ
  pub destination : Text
  pub purpose : OtpPurpose
  pub code_hash : Text
  pub attempts : ℕ
  pub max_attempts : ℕ
  pub sent_count : ℕ
  pub last_sent_at : ℕ
  pub expires_at : ℕ
  pub consumed_at : Option ℕ

-- The reasons that the module gives for a revocation.
pub data RevokedReason : Type 0 where
  rotated refresh_reuse logout password_changed by_password_reset : RevokedReason

abbrev pub is_refresh_reuse : RevokedReason → Bool
is_refresh_reuse refresh_reuse = true
is_refresh_reuse _ = false

pub record SessionRow : Type 0 where
  pub id : ℕ
  pub user_id : ℕ
  pub family_id : ℕ
  pub refresh_token_hash : Text
  pub channel : Channel
  pub expires_at : ℕ
  pub revoked_at : Option ℕ
  pub revoked_reason : Option RevokedReason
  pub replaced_by_session_id : Option ℕ
  pub reuse_detected_at : Option ℕ

-- `AUTH_EVENTS`, less the three of Telegram.
pub data AuthEvent : Type 0 where
  user_registered phone_verified login_success login_failed password_set password_was_changed :
      AuthEvent
  password_reset_requested password_reset_completed session_created session_revoked : AuthEvent
  refresh_rotated refresh_reuse_detected account_locked : AuthEvent

-- A row of `audit` has the actor's id, where there is one.
pub record AuthDb : Type 0 where
  pub users : List UserRow
  pub roles : List (ℕ × Role)
  pub otps : List OtpRow
  pub sessions : List SessionRow
  pub audit : List (AuthEvent × Option ℕ)
  pub wallet : WalletDb
