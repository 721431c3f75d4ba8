-- ===== src/Auth/Otp.antt =====
-- One-time codes: the constants of apps/api/src/modules/auth/otp.ts, and dispatchOtp and verifyOtp of
-- auth.service.ts. SHA-256 is `sha256`, and a fresh code is an argument.
pub mod Guesses
pub mod Resend
pub mod Accepted
use howlow.Prelude.{
  ℕ, ◌+◌, ◌*◌, Bool, true, false, Option, none, some, Text, List, [], ◌∷◌, ◌++◌, ltb, leb, not,
  text_eq, if◌then◌else◌,
}
use howlow.Errors.{rate_limited, validation_failed}
use howlow.Auth.Rows.{OtpPurpose, OtpRow, AuthDb}
use howlow.Auth.Repository.{
  find_live_otp, OtpInput, upsert_otp_challenge, increment_otp_attempts, consume_otp, exhaust_otp,
}
use howlow.Auth.Calls.{
  Call, return, raise, reads, raise_if, or_raise, ◌>>=◌, ◌>>◌, Open, inside, apart,
}

abbrev pub otp_ttl_seconds : ℕ
otp_ttl_seconds = 300

abbrev pub otp_max_attempts : ℕ
otp_max_attempts = 5

abbrev pub otp_resend_cooldown_seconds : ℕ
otp_resend_cooldown_seconds = 60

abbrev pub otp_max_sends_per_challenge : ℕ
otp_max_sends_per_challenge = 5

-- `hashOtpCode`: the digest of the destination, a colon and the code.
abbrev pub hash_otp_code : (Text → Text) → Text → Text → Text
hash_otp_code sha256 code destination = sha256 (destination ++ b':' ∷ code)

-- `otpExpiresAt`
abbrev pub otp_expires_at : ℕ → ℕ
otp_expires_at now = now + otp_ttl_seconds * 1000

pub record OtpDispatch : Type 0 where
  pub expires_in_seconds : ℕ
  pub dev_code : Option Text

-- What a dispatch takes from outside: the clock, NODE_ENV, a code and a row id.
pub record Sending : Type 0 where
  pub now : ℕ
  pub is_production : Bool
  pub code : Text
  pub fresh : ℕ

-- The two refusals of a resend.
abbrev pub assert_may_resend : ℕ → Option OtpRow → Call AuthDb (Unit {0})
assert_may_resend now none = return tt
assert_may_resend now (some existing) = do
  raise_if (ltb now (existing.last_sent_at + otp_resend_cooldown_seconds * 1000)) rate_limited
  raise_if (leb otp_max_sends_per_challenge existing.sent_count) rate_limited

abbrev pub otp_input : (Text → Text) → Sending → Option ℕ → Text → OtpPurpose → OtpInput
otp_input sha256 s user_id destination purpose = record {
  user_id = user_id;
  destination = destination;
  purpose = purpose;
  code_hash = hash_otp_code sha256 s.code destination;
  max_attempts = otp_max_attempts;
  expires_at = otp_expires_at s.now;
}

-- `dispatchOtp`
unfoldable pub dispatch_otp :
    (Text → Text) → Sending → Option ℕ → Text → OtpPurpose → Call AuthDb OtpDispatch
dispatch_otp sha256 s user_id destination purpose = do
  assert_may_resend s.now (← reads (find_live_otp destination purpose))
  upsert_otp_challenge s.fresh s.now (otp_input sha256 s user_id destination purpose)
  return (record {
    expires_in_seconds = otp_ttl_seconds;
    dev_code = if s.is_production then none else some s.code;
  })

-- A wrong code: counted on another connection, and the challenge burnt with the last attempt.
abbrev pub count_wrong : ℕ → OtpRow → Call Open OtpRow
count_wrong now challenge = do
  attempts ← apart (increment_otp_attempts challenge.id)
  if leb challenge.max_attempts attempts
      then (apart (exhaust_otp now challenge.id) >> raise validation_failed)
      else raise validation_failed

abbrev pub verify_challenge : (Text → Text) → ℕ → Text → Text → OtpRow → Call Open OtpRow
verify_challenge sha256 now code destination challenge =
    if leb challenge.expires_at now
    then (apart (exhaust_otp now challenge.id) >> raise validation_failed)
    else if leb challenge.max_attempts challenge.attempts
    then (apart (exhaust_otp now challenge.id) >> raise validation_failed)
    else if not (text_eq challenge.code_hash (hash_otp_code sha256 code destination))
    then count_wrong now challenge
    else (inside (consume_otp now challenge.id) >> return challenge)

-- `verifyOtp`
unfoldable pub verify_otp : (Text → Text) → ℕ → Text → OtpPurpose → Text → Call Open OtpRow
verify_otp sha256 now destination purpose code = do
  challenge ← or_raise validation_failed (← inside (reads (find_live_otp destination purpose)))
  verify_challenge sha256 now code destination challenge
