-- ===== src/Auth/Login/Entry.antt =====
-- How loginWithPassword ends, by what it finds.
use howlow.Prelude.{
  ℕ, ◌≡◌, ap, ◌∙◌, refl, true, false, Option, none, some, Text, ◌∷◌, first_where, arith,
}
use howlow.Errors.{ok, err, unauthenticated, forbidden, rate_limited}
use howlow.Shared.{Channel}
use howlow.Auth.Rows.{UserRow, is_active_status, session_created, login_success, AuthDb}
use howlow.Auth.Repository.{
  find_user_by_phone, unlocked, set_users, get_user_roles, record_failed_login,
}
use howlow.Auth.Calls.{in_transaction}
use howlow.Auth.Sessions.{
  Crypto, SessionSeed, NewSession, new_session, IssuedSession, issued, session_clashes,
  create_session, issue_session,
}
use howlow.Auth.Accounts.{login_limit, is_allowed, PublicUser, to_public_user}
use howlow.Auth.Login.{
  is_locked, login_as, login_known, enter, refuse_password, login_with_password,
}

abbrev pub login_session : Crypto → SessionSeed → ℕ → Channel → NewSession
login_session k seed user_id channel = record {
  user_id = user_id;
  family_id = none;
  refresh_token_hash = k.sha256 seed.refresh_token;
  channel = channel;
}

module _ (k : Crypto) (seed : SessionSeed) (channel : Channel) (u : UserRow) (db : AuthDb) where
  abbrev pub logged_in : PublicUser × IssuedSession
  logged_in =
      let roles = get_user_roles u.id db in
      (
        to_public_user u roles,
        issued k seed roles (new_session seed (login_session k seed u.id channel)),
      )

  abbrev pub after_login : AuthDb
  after_login = record db {
    users = (set_users unlocked u.id db).users;
    sessions = new_session seed (login_session k seed u.id channel) ∷ db.sessions;
    audit = (session_created, some u.id) ∷ (login_success, some u.id) ∷ db.audit;
  }

  enter_lem :
      first_where (session_clashes seed.id (k.sha256 seed.refresh_token)) db.sessions ≡ none
      → enter k seed u channel db ≡ (ok logged_in, after_login)
  unfolding enter issue_session create_session get_user_roles
  enter_lem free = rw free refl

  module _ (count : Option ℕ) (within : is_allowed login_limit count ≡ true)
      (phone password hash : Text) (known : find_user_by_phone phone db ≡ some u)
      (active : is_active_status u.status ≡ true) (own : u.password_hash ≡ some hash) where
    asked :
        login_with_password k seed count phone password channel db
        ≡ login_as k seed password channel u hash db
    unfolding login_with_password
    asked =
        rw (within, known, login_with_password)
          (ap (λ o. login_known k seed password channel u o db) own ∙ rw active refl)

    pub login_with_password_locked :
        is_locked seed.now u ≡ true
        → login_with_password k seed count phone password channel db ≡ (err forbidden, db)
    login_with_password_locked locked = asked ∙ rw locked refl

    pub login_with_password_right :
        is_locked seed.now u ≡ false
        → k.verify_password hash password ≡ true
        → first_where (session_clashes seed.id (k.sha256 seed.refresh_token)) db.sessions ≡ none
        → login_with_password k seed count phone password channel db ≡ (ok logged_in, after_login)
    unfolding in_transaction
    login_with_password_right free right unclashed =
        asked ∙ rw (free, right, enter_lem unclashed) refl

    pub login_with_password_wrong :
        is_locked seed.now u ≡ false
        → k.verify_password hash password ≡ false
        → login_with_password k seed count phone password channel db ≡ refuse_password seed.now u db
    login_with_password_wrong free wrong = asked ∙ rw (free, wrong) refl

-- A login that the limiter holds back writes nothing.
pub held_back :
    (k : Crypto) (seed : SessionSeed) (channel : Channel) (db : AuthDb) (count : Option ℕ)
    (phone password : Text)
    → is_allowed login_limit count ≡ false
    → login_with_password k seed count phone password channel db ≡ (err rate_limited, db)
unfolding login_with_password
held_back k seed channel db count phone password over = rw over refl

pub refuse_password_unauthenticated :
    {A : Type 0} (now : ℕ) (u : UserRow) (db : AuthDb)
    → (refuse_password {A = A} now u db).0 ≡ err unauthenticated
unfolding refuse_password record_failed_login
refuse_password_unauthenticated now u db = ground arith
