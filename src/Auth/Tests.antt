-- ===== src/Auth/Tests.antt =====
-- Runs of the auth module on small tables, with a digest that is the text itself.
use howlow.Prelude.{
  ℕ, ◌≤◌, ◌<◌, ◌≡◌, ◌⊎◌, refl, true, false, none, some, Text, List, [], ◌∷◌, text_eq, first_where,
  update_where, count_where, arith,
}
use howlow.Errors.{Result, ok, err, unauthenticated, validation_failed, rate_limited, forbidden}
use howlow.Shared.{web}
use howlow.Auth.Rows.{
  UserStatus, UserRow, OtpRow, SessionRow, password_reset, refresh_reuse, AuthDb,
}
use howlow.Auth.Repository.{find_user_by_id, find_user_by_phone, activated}
use howlow.Auth.Otp.{Sending, OtpDispatch, verify_otp}
use howlow.Auth.Otp.Accepted.{sent}
use howlow.Auth.Otp.Guesses.{IsValid}
use howlow.Auth.Sessions.{
  Crypto, SessionSeed, IssuedSession, open_in_family, open_of_user, family_revoked, create_session,
  rotate_session, rotate_within, revoke_all_sessions,
}
use howlow.Auth.Sessions.Families.{next, here, presents, Reach-open_in_family}
use howlow.Auth.Sessions.Reuse.{rotate_session-again}
use howlow.Auth.Accounts.{login_limit, is_allowed, PublicUser, nothing_sent}
use howlow.Auth.Registration.{register, verify_phone}
use howlow.Auth.Login.{request_login_otp, login_with_password}
use howlow.Auth.Passwords.{reset_password, store_reset}
use howlow.Auth.Passwords.Guessing.{Guess, guesses, reset_password-exhausted}
use howlow.Auth.Registration.Activation.{register-verify_phone}
use howlow.Auth.Login.Enquiry.{request_login_otp-reveals}
use howlow.Auth.Passwords.Reset.{login_with_password-reset_password}
use howlow.Auth.Login.Lockout.{Login, IsMiss, logins, login_with_password-lockout}

abbrev k : Crypto
k = record {
  sha256 = λ t. t;
  sign_access_token = λ u s c r. [];
  verify_password = λ hash password. text_eq hash password;
}

abbrev phone : Text
phone = b'+' ∷ b'1' ∷ []

abbrev stranger : Text
stranger = b'+' ∷ b'2' ∷ []

abbrev code : Text
code = b'7' ∷ []

abbrev wrong : Text
wrong = b'8' ∷ []

abbrev member : UserStatus → UserRow
member status = record {
  id = 1;
  phone = some phone;
  email = none;
  display_name = [];
  password_hash = some (b'p' ∷ []);
  status = status;
  phone_verified_at = none;
  failed_login_attempts = 0;
  locked_until = none;
  created_at = 0;
}

abbrev challenge : OtpRow
challenge = record {
  id = 4;
  user_id = some 1;
  destination = phone;
  purpose = password_reset;
  code_hash = b'+' ∷ b'1' ∷ b':' ∷ b'7' ∷ [];
  attempts = 3;
  max_attempts = 5;
  sent_count = 1;
  last_sent_at = 0;
  expires_at = 300_000;
  consumed_at = none;
}

abbrev seat : SessionRow
seat = record {
  id = 7;
  user_id = 1;
  family_id = 3;
  refresh_token_hash = b'a' ∷ [];
  channel = web;
  expires_at = 900_000;
  revoked_at = none;
  revoked_reason = none;
  replaced_by_session_id = none;
  reuse_detected_at = none;
}

abbrev tables : UserStatus → List OtpRow → AuthDb
tables status otps = record {
  users = member status ∷ [];
  roles = [];
  otps = otps;
  sessions = seat ∷ [];
  audit = [];
  wallet = record { wallets = []; entries = []; events = [] };
}

abbrev club : AuthDb
club = tables UserStatus.active (challenge ∷ [])

abbrev quiet : UserStatus → AuthDb
quiet status = tables status []

abbrev seed : SessionSeed
seed = record {
  now = 1000;
  refresh_ttl_seconds = 900;
  id = 8;
  fresh_family = 9;
  refresh_token = b'b' ∷ [];
}

abbrev later_seed : SessionSeed
later_seed = record seed { now = 2000; id = 10; refresh_token = b'c' ∷ [] }

abbrev sending : Sending
sending = record { now = 500; is_production = true; code = code; fresh = 5 }

abbrev resending : Sending
resending = record { now = 900; is_production = true; code = code; fresh = 6 }

club-IsValid : IsValid club
unfolding first_where count_where
club-IsValid = record { keyed = (refl, tt); single = λ d p. ground arith }

abbrev guess : ℕ → Text → Guess
guess now c = record { count = some 3; now = now; code = c; hash = b'n' ∷ [] }

abbrev two_guesses : List Guess
two_guesses = guess 600 wrong ∷ guess 700 wrong ∷ []

reset_password-exhausted_example :
    let db' = guesses k.sha256 phone two_guesses club in
    let out = reset_password k.sha256 800 (some 3) phone code (b'n' ∷ []) db' in
    (out.0 ≡ err validation_failed) × (out.1 ≡ record club { otps = out.1.otps })
unfolding first_where text_eq
reset_password-exhausted_example =
    reset_password-exhausted k.sha256 phone challenge two_guesses (guess 800 code) club club-IsValid
      refl ((refl, refl), ((refl, refl), tt)) (omega arith)

abbrev rotation : Result IssuedSession × AuthDb
rotation = rotate_session k seed (b'a' ∷ []) club

abbrev issued_next : IssuedSession
issued_next = record { session_id = 8; family_id = 3; access_token = []; refresh_token = b'b' ∷ [] }

rotation_ok : rotation.0 ≡ ok issued_next
unfolding rotate_session rotate_within first_where text_eq create_session
rotation_ok = refl

-- The new token is rotated in its turn, and then the old one is presented.
abbrev next_rotation : AuthDb
next_rotation =
    (rotate_session k (record seed { id = 11; refresh_token = b'd' ∷ [] }) (b'b' ∷ []) rotation.1).1

rotate_session-again_example :
    let out = rotate_session k later_seed (b'a' ∷ []) next_rotation in
    (out.0 ≡ err unauthenticated)
    × (count_where (open_in_family 3) out.1.sessions ≡ 0)
    × (out.1.sessions
        ≡ update_where
            (open_in_family 3)
            (family_revoked 2000 refresh_reuse)
            next_rotation.sessions)
    × (out.1 ≡ record next_rotation { sessions = out.1.sessions; audit = out.1.audit })
rotate_session-again_example =
    rotate_session-again k seed later_seed (b'a' ∷ []) issued_next club rotation.1 next_rotation
      (λ i. (rotation_ok i, rotation.1)) (next here (presents k _ (b'b' ∷ [])))

one_seat : (f : ℕ) → count_where (open_in_family f) club.sessions ≤ 1
unfolding count_where
one_seat f = ground arith

Reach-open_in_family_example : count_where (open_in_family 3) next_rotation.sessions ≤ 1
Reach-open_in_family_example =
    Reach-open_in_family one_seat
      (next (next here (presents k seed (b'a' ∷ []))) (presents k _ (b'b' ∷ []))) 3

register-verify_phone_example :
    (first : OtpDispatch) × (mid db' : AuthDb) × (v : PublicUser × IssuedSession) × (register
        k.sha256 sending none 2
        (record { phone = phone; display_name = []; email = none })
        (quiet UserStatus.suspended)
      ≡ (ok first, mid))
    × (verify_phone k seed none 20 phone code web mid ≡ (ok v, db'))
    × (v.0.status ≡ UserStatus.active)
    × (find_user_by_id 1 db' ≡ some (activated 1000 (member UserStatus.suspended)))
unfolding first_where text_eq
register-verify_phone_example =
    register-verify_phone k sending seed 2 20
      (record { phone = phone; display_name = []; email = none }) web (member UserStatus.suspended)
      (quiet UserStatus.suspended) (refl, tt) refl refl refl refl refl (omega arith)

request_login_otp-reveals_example :
    (mid : AuthDb) × (request_login_otp k.sha256 sending none phone (quiet UserStatus.active)
      ≡ (ok (sent sending), mid))
    × (request_login_otp k.sha256 resending none phone mid ≡ (err rate_limited, mid))
    × (request_login_otp k.sha256 sending none stranger (quiet UserStatus.active)
        ≡ (ok nothing_sent, quiet UserStatus.active))
    × (request_login_otp k.sha256 resending none stranger mid ≡ (ok nothing_sent, mid))
unfolding first_where text_eq
request_login_otp-reveals_example =
    request_login_otp-reveals k.sha256 sending resending phone stranger (member UserStatus.active)
      (quiet UserStatus.active) refl refl refl refl refl (omega arith)

abbrev reset : Result (Unit {0}) × AuthDb
reset = reset_password k.sha256 600 none phone code (b'n' ∷ []) club

resets : reset.0 ≡ ok tt
unfolding reset_password verify_otp first_where text_eq store_reset revoke_all_sessions
resets = refl

login_with_password-reset_password_example :
    (count_where (open_of_user 1) reset.1.sessions ≡ 0)
    × (((is_allowed login_limit (some 2) ≡ false)
          × (login_with_password k seed (some 2) phone (b'n' ∷ []) web reset.1
              ≡ (err rate_limited, reset.1)))
        ⊎ (((is_allowed login_limit (some 2) ≡ true)
              × (text_eq (b'n' ∷ []) (b'n' ∷ []) ≡ true)
              × (v : PublicUser × IssuedSession) × (t : AuthDb) × (login_with_password k seed
                    (some 2)
                    phone
                    (b'n' ∷ [])
                    web
                    reset.1
                  ≡ (ok v, t)))
            ⊎ ((is_allowed login_limit (some 2) ≡ true)
                × (text_eq (b'n' ∷ []) (b'n' ∷ []) ≡ false)
                × ((login_with_password k seed (some 2) phone (b'n' ∷ []) web reset.1).0
                    ≡ err unauthenticated))))
unfolding first_where text_eq reset_password verify_otp store_reset revoke_all_sessions update_where
login_with_password-reset_password_example =
    login_with_password-reset_password k 600 none phone code (b'n' ∷ []) club reset.1 seed (some 2)
      (b'n' ∷ []) web (member UserStatus.active) (λ i. (resets i, reset.1)) refl refl refl

abbrev attempt : Login
attempt = record { count = some 1; seed = seed; password = wrong; channel = web }

abbrev five : List Login
five = attempt ∷ attempt ∷ attempt ∷ attempt ∷ attempt ∷ []

miss : IsMiss k (b'p' ∷ []) 1000 attempt
unfolding text_eq
miss = (refl, refl, omega arith, omega arith)

login_with_password-lockout_example :
    let db' = logins k phone five club in
    let out = login_with_password k later_seed (some 6) phone (b'p' ∷ []) web db' in
    ((is_allowed login_limit (some 6) ≡ false) × (out ≡ (err rate_limited, db')))
    ⊎ (((is_allowed login_limit (some 6) ≡ true) × (5 ≤ 5) × (out ≡ (err forbidden, db')))
        ⊎ ((5 < 5)
            × (v : UserRow) × (find_user_by_phone phone db' ≡ some v)
            × (v.locked_until ≡ none)
            × (v.failed_login_attempts ≡ 5)))
unfolding first_where text_eq
login_with_password-lockout_example =
    login_with_password-lockout k phone (b'p' ∷ []) 1000 (member UserStatus.active) five
      (record { count = some 6; seed = later_seed; password = b'p' ∷ []; channel = web }) club
      (refl, tt) refl refl refl refl (miss, (miss, (miss, (miss, (miss, tt))))) (omega arith)
      (omega arith)
