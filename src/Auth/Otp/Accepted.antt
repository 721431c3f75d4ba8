-- ===== src/Auth/Otp/Accepted.antt =====
-- The code that was sent is good: what a first dispatch leaves, and what the right code does.
use howlow.Prelude.{
  ℕ, ◌<◌, ◌≡◌, refl, true, false, Option, none, some, Text, ◌∷◌, ◌==◌, leb, text_eq_refl,
  if◌then◌else◌, arith, first_where,
}
use howlow.Errors.{ok}
use howlow.Auth.Rows.{OtpPurpose, OtpRow, phone_verify, login, password_reset, purpose_eq, AuthDb}
use howlow.Auth.Repository.{
  find_live_otp, new_otp, insert_otp, upsert_otp_challenge, set_otps, consumed,
}
use howlow.Auth.Otp.{
  hash_otp_code, Sending, OtpDispatch, otp_input, otp_ttl_seconds, dispatch_otp, verify_otp,
}

abbrev pub with_new_otp : (Text → Text) → Sending → Option ℕ → Text → OtpPurpose → AuthDb → AuthDb
with_new_otp sha256 s user_id d p db = record db {
  otps = new_otp s.fresh s.now (otp_input sha256 s user_id d p) ∷ db.otps;
}

abbrev pub sent : Sending → OtpDispatch
sent s = record {
  expires_in_seconds = otp_ttl_seconds;
  dev_code = if s.is_production then none else some s.code;
}

pub purpose_refl : (p : OtpPurpose) → purpose_eq p p ≡ true
purpose_refl phone_verify = refl
purpose_refl login = refl
purpose_refl password_reset = refl

module _ (sha256 : Text → Text) (d : Text) (p : OtpPurpose) (db : AuthDb) where
  pub dispatch_otp_first :
      (s : Sending) (user_id : Option ℕ)
      → find_live_otp d p db ≡ none
      → first_where (λ (o : OtpRow). o.id == s.fresh) db.otps ≡ none
      → dispatch_otp sha256 s user_id d p db ≡ (ok (sent s), with_new_otp sha256 s user_id d p db)
  unfolding dispatch_otp upsert_otp_challenge insert_otp
  dispatch_otp_first s user_id quiet fresh = rw (quiet, upsert_otp_challenge, quiet, fresh) refl

  pub find_live_otp-sent :
      (s : Sending) (user_id : Option ℕ)
      → find_live_otp d p (with_new_otp sha256 s user_id d p db)
        ≡ some (new_otp s.fresh s.now (otp_input sha256 s user_id d p))
  unfolding first_where
  find_live_otp-sent s user_id = rw (text_eq_refl d, purpose_refl p) refl

  pub verify_otp_right :
      (now : ℕ) (code : Text) (c : OtpRow)
      → find_live_otp d p db ≡ some c
      → now < c.expires_at
      → c.attempts < c.max_attempts
      → c.code_hash ≡ hash_otp_code sha256 code d
      → verify_otp sha256 now d p code (record { committed = db; view = db })
        ≡ (ok c, record { committed = db; view = set_otps (consumed now) c.id db })
  unfolding verify_otp
  verify_otp_right now code c found soon free right =
      let early : leb c.expires_at now ≡ false = ground arith in
      let left : leb c.max_attempts c.attempts ≡ false = ground arith in
      rw (found, early, left, right, text_eq_refl (hash_otp_code sha256 code d)) refl
