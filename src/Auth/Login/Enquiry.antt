-- ===== src/Auth/Login/Enquiry.antt =====
-- What asking for a login code twice tells of an account.
use howlow.Prelude.{◌+◌, ◌*◌, ◌<◌, ◌≡◌, refl, true, none, some, Text, ◌==◌, first_where}
use howlow.Errors.{ok, err, rate_limited}
use howlow.Auth.Rows.{UserRow, OtpRow, login, is_active_status, AuthDb}
use howlow.Auth.Repository.{find_user_by_phone, find_live_otp, new_otp}
use howlow.Auth.Otp.{Sending, otp_input, otp_resend_cooldown_seconds}
use howlow.Auth.Otp.Accepted.{with_new_otp, sent, dispatch_otp_first, find_live_otp-sent}
use howlow.Auth.Otp.Resend.{dispatch_otp_soon}
use howlow.Auth.Login.{request_login_otp}
use howlow.Auth.Accounts.{nothing_sent}

-- On an active account for whose phone no code is out, a first request for a login code is answered, and
-- a second one within the minute is refused as RATE_LIMITED. For a phone with no account both are
-- answered alike, and nothing is written: the two answers tell the phones apart. The limiter lets all
-- requests pass, and the id of the first challenge is new.
pub request_login_otp-reveals :
    (sha256 : Text → Text) (s later : Sending) (phone stranger : Text) (u : UserRow) (db : AuthDb)
    → find_user_by_phone phone db ≡ some u
    → is_active_status u.status ≡ true
    → find_user_by_phone stranger db ≡ none
    → find_live_otp phone login db ≡ none
    → first_where (λ (o : OtpRow). o.id == s.fresh) db.otps ≡ none
    → later.now < s.now + otp_resend_cooldown_seconds * 1000
    → (mid : AuthDb) × (request_login_otp sha256 s none phone db ≡ (ok (sent s), mid))
      × (request_login_otp sha256 later none phone mid ≡ (err rate_limited, mid))
      × (request_login_otp sha256 s none stranger db ≡ (ok nothing_sent, db))
      × (request_login_otp sha256 later none stranger mid ≡ (ok nothing_sent, mid))
unfolding request_login_otp
request_login_otp-reveals sha256 s later phone stranger u db known active unknown quiet fresh soon =
    let mid = with_new_otp sha256 s (some u.id) phone login db in
    let c = new_otp s.fresh s.now (otp_input sha256 s (some u.id) phone login) in
    let first = dispatch_otp_first sha256 phone login db s (some u.id) quiet fresh in
    let again =
      dispatch_otp_soon sha256 later (some u.id) phone login c mid
        (find_live_otp-sent sha256 phone login db s (some u.id)) soon in
    (
      mid,
      rw (known, request_login_otp, active) first,
      rw (known, request_login_otp, active) again,
      rw (unknown, request_login_otp) refl,
      rw (unknown, request_login_otp) refl,
    )
