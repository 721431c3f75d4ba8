-- ===== src/Auth/Passwords/Guessing.antt =====
-- Guessing the code of a password reset.
use howlow.Prelude.{
  ℕ, suc, ◌+◌, ◌≤◌, ◌≡◌, refl, ap, ◌∙◌, true, false, Option, some, Text, List, [], ◌∷◌, All, length,
  text_eq, Bool-cases, inl, inr, if◌then◌else◌,
}
use howlow.Errors.{err, validation_failed, rate_limited}
use howlow.Auth.Accounts.{is_allowed, otp_verify}
use howlow.Auth.Rows.{password_reset, OtpRow, AuthDb}
use howlow.Auth.Repository.{find_live_otp}
use howlow.Auth.Otp.{hash_otp_code}
use howlow.Auth.Otp.Guesses.{IsValid, Left, Refused, verify_otp_wrong, verify_otp_spent}
use howlow.Auth.Passwords.{reset_password}

-- One request: the limiter's count of it, its time, its code, and the hash of its new password.
pub record Guess : Type 0 where
  pub count : Option ℕ
  pub now : ℕ
  pub code : Text
  pub hash : Text

-- Requests one after another.
unfoldable pub guesses : (Text → Text) → Text → List Guess → AuthDb → AuthDb
guesses sha256 phone [] db = db
guesses sha256 phone (g ∷ gs) db =
    guesses sha256 phone gs (reset_password sha256 g.now g.count phone g.code g.hash db).1

-- The limiter lets the request pass, and its code is wrong.
abbrev pub IsWrong : (Text → Text) → Text → Text → Guess → Type 0
IsWrong sha256 phone digest g =
    (is_allowed otp_verify g.count ≡ true)
    × (text_eq digest (hash_otp_code sha256 g.code phone) ≡ false)

held_back :
    (sha256 : Text → Text) (g : Guess) (phone : Text) (db : AuthDb)
    → is_allowed otp_verify g.count ≡ false
    → reset_password sha256 g.now g.count phone g.code g.hash db ≡ (err rate_limited, db)
unfolding reset_password
held_back sha256 g phone db over = rw over refl

only_trans :
    (x y z : AuthDb)
    → x ≡ record y { otps = x.otps }
    → y ≡ record z { otps = y.otps }
    → x ≡ record z { otps = x.otps }
only_trans x y z p q = p ∙ ap {B = AuthDb} (λ (t : AuthDb). record t { otps = x.otps }) q

module _ (sha256 : Text → Text) (phone digest : Text) where
  wrong_guess :
      (g : Guess) (n : ℕ) (db : AuthDb)
      → IsValid db
      → IsWrong sha256 phone digest g
      → Left phone password_reset digest (suc n) (find_live_otp phone password_reset db)
      → Refused phone password_reset digest n db
          (reset_password sha256 g.now g.count phone g.code g.hash db)
  unfolding reset_password
  wrong_guess g n db v w left =
      rw w.0 (verify_otp_wrong phone password_reset sha256 _ g.now g.code digest n db v w.1 left)

  late_guess :
      (g : Guess) (db : AuthDb)
      → IsValid db
      → is_allowed otp_verify g.count ≡ true
      → Left phone password_reset digest 0 (find_live_otp phone password_reset db)
      → Refused phone password_reset digest 0 db
          (reset_password sha256 g.now g.count phone g.code g.hash db)
  unfolding reset_password
  late_guess g db v within left =
      rw within (verify_otp_spent phone password_reset sha256 _ g.now g.code digest db v left)

  wrong_guesses :
      (gs : List Guess) (db : AuthDb)
      → IsValid db
      → All (IsWrong sha256 phone digest) gs
      → Left phone password_reset digest (length gs) (find_live_otp phone password_reset db)
      → let db' = guesses sha256 phone gs db in
        IsValid db'
        × Left phone password_reset digest 0 (find_live_otp phone password_reset db')
        × (db' ≡ record db { otps = db'.otps })
  unfolding guesses
  wrong_guesses [] db v w left = (v, left, refl)
  wrong_guesses (g ∷ gs) db v w left =
      let r = wrong_guess g (length gs) db v w.0 left in
      let (valid, few, only) = wrong_guesses gs _ r.valid w.1 r.left in
      (valid, few, only_trans _ _ db only r.only)

-- A live challenge of a password reset bears as many wrong codes as it has attempts left, at whatever
-- times, although the transaction of every wrong request is rolled back. After that many requests that
-- the limiter let pass, and with no new code sent since, the next request resets nothing, with the right
-- code neither: it is refused, as invalid if the limiter lets it pass and as rate limited if not, and of
-- all the tables only that of the challenges has changed since before the first guess. Ids are a primary
-- key, and at most one challenge is live for a destination and a purpose.
pub reset_password-exhausted :
    (sha256 : Text → Text) (phone : Text) (c : OtpRow) (gs : List Guess) (g : Guess) (db : AuthDb)
    → IsValid db
    → find_live_otp phone password_reset db ≡ some c
    → All (IsWrong sha256 phone c.code_hash) gs
    → c.max_attempts ≤ c.attempts + length gs
    → let db' = guesses sha256 phone gs db in
      let out = reset_password sha256 g.now g.count phone g.code g.hash db' in
      (out.0 ≡ err (if is_allowed otp_verify g.count then validation_failed else rate_limited))
      × (out.1 ≡ record db { otps = out.1.otps })
reset_password-exhausted sha256 phone c gs g db v found w few =
    let (valid, left, only) =
      wrong_guesses sha256 phone c.code_hash gs db v w (rw found (few, refl)) in
    elim (Bool-cases (is_allowed otp_verify g.count)) [
      | inr over ↦
          let e = held_back sha256 g phone (guesses sha256 phone gs db) over in
          (rw (over, e) refl, rw e only)
      | inl within ↦
          let r = late_guess sha256 phone c.code_hash g _ valid within left in
          (rw within r.refused, only_trans _ _ db r.only only)
    ]
