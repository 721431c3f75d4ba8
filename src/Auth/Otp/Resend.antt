-- ===== src/Auth/Otp/Resend.antt =====
-- dispatchOtp where a challenge is live.
use howlow.Prelude.{
  ℕ, ◌+◌, ◌*◌, ◌≤◌, ◌<◌, ◌≡◌, ◌∙◌, refl, ◌⊎◌, inl, inr, Option, some, Text, ◌==◌, ==_refl,
  Bool-cases, leb, ltb, first_where-update_where, arith,
}
use howlow.Errors.{ok, err, rate_limited}
use howlow.Auth.Rows.{OtpPurpose, OtpRow, AuthDb}
use howlow.Auth.Repository.{find_live_otp, is_live_otp, resent, set_otps, upsert_otp_challenge}
use howlow.Auth.Otp.{
  Sending, otp_input, otp_resend_cooldown_seconds, otp_max_sends_per_challenge, dispatch_otp,
}
use howlow.Auth.Otp.Accepted.{sent}

-- The challenge with its new code.
abbrev pub replaced : (Text → Text) → Sending → Option ℕ → Text → OtpPurpose → OtpRow → OtpRow
replaced sha256 s user_id d p = resent s.now (otp_input sha256 s user_id d p)

module _ (sha256 : Text → Text) (s : Sending) (user_id : Option ℕ) (d : Text) (p : OtpPurpose)
    (c : OtpRow) (db : AuthDb) (found : find_live_otp d p db ≡ some c) where
  found_replaced :
      find_live_otp d p (set_otps (resent s.now (otp_input sha256 s user_id d p)) c.id db)
      ≡ some (replaced sha256 s user_id d p c)
  found_replaced =
      first_where-update_where (is_live_otp d p) (λ (o : OtpRow). o.id == c.id)
        (resent s.now (otp_input sha256 s user_id d p)) db.otps c (λ b. refl) found
      ∙ rw (==_refl c.id) refl

  -- A second code is sent, in the same challenge, exactly when a minute has passed since the last one and
  -- fewer than five were sent: the attempts begin anew, and the count of codes goes up. In any other
  -- case, also when the challenge has expired, the request is refused and nothing is written.
  dispatch_otp_resend :
      ((c.last_sent_at + otp_resend_cooldown_seconds * 1000 ≤ s.now)
        × (c.sent_count < otp_max_sends_per_challenge)
        × (db' : AuthDb) × (dispatch_otp sha256 s user_id d p db ≡ (ok (sent s), db'))
        × (find_live_otp d p db' ≡ some (replaced sha256 s user_id d p c))
        × ((replaced sha256 s user_id d p c).attempts ≡ 0)
        × ((replaced sha256 s user_id d p c).sent_count ≡ c.sent_count + 1))
      ⊎ (((s.now < c.last_sent_at + otp_resend_cooldown_seconds * 1000)
            ⊎ (otp_max_sends_per_challenge ≤ c.sent_count))
          × (dispatch_otp sha256 s user_id d p db ≡ (err rate_limited, db)))
  unfolding dispatch_otp upsert_otp_challenge
  dispatch_otp_resend =
      elim (Bool-cases (ltb s.now (c.last_sent_at + otp_resend_cooldown_seconds * 1000))) [
        | inl soon ↦ inr (inl (ground arith), rw (found, soon) refl)
        | inr cool ↦ elim (Bool-cases (leb otp_max_sends_per_challenge c.sent_count)) [
          | inl many ↦ inr (inr (ground arith), rw (found, cool, many) refl)
          | inr few ↦ inl (
            ground arith,
            ground arith,
            set_otps (resent s.now (otp_input sha256 s user_id d p)) c.id db,
            rw (found, cool, few, upsert_otp_challenge, found) refl,
            found_replaced,
            refl,
            refl,
          )
        ]
      ]

  pub dispatch_otp_soon :
      s.now < c.last_sent_at + otp_resend_cooldown_seconds * 1000
      → dispatch_otp sha256 s user_id d p db ≡ (err rate_limited, db)
  dispatch_otp_soon soon = elim dispatch_otp_resend [
    | inl done ↦ absurd (omega (arith, done.0))
    | inr refused ↦ refused.1
  ]
