-- ===== src/Auth/Login/Lockout.antt =====
-- Guessing a password, and the lock of the account.
use howlow.Prelude.{
  ℕ, suc, ◌+◌, ◌*◌, ◌≤◌, ◌<◌, ◌≡◌, refl, ap, ◌∙◌, ◌⊎◌, inl, inr, true, false, Option, some, Text,
  List, [], ◌∷◌, ◌==◌, ==_refl, leb, All, length, Keyed, Keyed-update_where,
  first_where-update_where, Bool-cases, arith,
}
use howlow.Errors.{Result, ok, err, unauthenticated, forbidden, rate_limited}
use howlow.Shared.{Channel}
use howlow.Auth.Rows.{UserRow, is_active_status, AuthDb}
use howlow.Auth.Repository.{
  find_user_by_phone, has_phone, failed_once, set_users, record_failed_login,
}
use howlow.Auth.Sessions.{Crypto, SessionSeed, IssuedSession}
use howlow.Auth.Accounts.{login_limit, is_allowed, PublicUser}
use howlow.Auth.Login.{
  is_locked, lock_after_attempts, lock_minutes, refuse_password, login_with_password,
}
use howlow.Auth.Login.Entry.{held_back, login_with_password_locked, login_with_password_wrong}
use howlow.Auth.Registration.Activation.{own_row}

abbrev pub failed : ℕ → UserRow → UserRow
failed now = failed_once now lock_after_attempts lock_minutes

-- The user after a wrong password, where ids are a primary key.
module _ (now : ℕ) (phone : Text) (u : UserRow) (db : AuthDb)
    (keyed : Keyed (λ (v : UserRow). v.id) db.users)
    (known : find_user_by_phone phone db ≡ some u) where
  found_failed : find_user_by_phone phone (set_users (failed now) u.id db) ≡ some (failed now u)
  found_failed =
      first_where-update_where (has_phone phone) (λ (v : UserRow). v.id == u.id) (failed now)
        db.users u (λ b. refl) known
      ∙ rw (==_refl u.id) refl

  counted :
      record_failed_login now u.id lock_after_attempts lock_minutes db
      ≡ (ok (u.failed_login_attempts + 1), set_users (failed now) u.id db)
  unfolding record_failed_login
  counted =
      rw
        (
          first_where-update_where (λ (v : UserRow). v.id == u.id) (λ (v : UserRow). v.id == u.id)
              (failed now) db.users u (λ b. refl) (own_row db u keyed _ known),
          ==_refl u.id,
        )
        refl

  refused_lem :
      {A : Type 0}
      → ((refuse_password {A = A} now u db).0 ≡ err unauthenticated)
        × ((refuse_password {A = A} now u db).1.users ≡ (set_users (failed now) u.id db).users)
  unfolding refuse_password
  refused_lem =
      rw counted (elim (Bool-cases (leb lock_after_attempts (u.failed_login_attempts + 1))) [
        | inl last ↦ rw last (refl, refl)
        | inr more ↦ rw more (refl, refl)
      ])

-- A request: what it takes from outside, the limiter's count of it, its password and its channel.
pub record Login : Type 0 where
  pub count : Option ℕ
  pub seed : SessionSeed
  pub password : Text
  pub channel : Channel

-- Requests one after another.
unfoldable pub logins : Crypto → Text → List Login → AuthDb → AuthDb
logins k phone [] db = db
logins k phone (l ∷ ls) db =
    logins k phone ls (login_with_password k l.seed l.count phone l.password l.channel db).1

-- The limiter lets the request pass, its password is wrong, and it comes in 15 minutes from `since`.
abbrev pub IsMiss : Crypto → Text → ℕ → Login → Type 0
IsMiss k hash since l =
    (is_allowed login_limit l.count ≡ true)
    × (k.verify_password hash l.password ≡ false)
    × (since ≤ l.seed.now)
    × (l.seed.now < since + 15 * 60_000)

-- The user is locked for the quarter of an hour, or `n` wrong passwords lock it.
abbrev Near : ℕ → ℕ → UserRow → Type 0
Near since n u =
    ((t : ℕ) × (u.locked_until ≡ some t) × (since + lock_minutes * 60_000 ≤ t))
    ⊎ ((is_locked since u ≡ false) × (1 ≤ n) × (lock_after_attempts ≤ u.failed_login_attempts + n))

is_locked_later :
    (since now : ℕ) (u : UserRow)
    → is_locked since u ≡ false
    → since ≤ now
    → is_locked now u ≡ false
is_locked_later since now u h later = ground arith

is_locked_until :
    (now t : ℕ) (u : UserRow) → u.locked_until ≡ some t → now < t → is_locked now u ≡ true
is_locked_until now t u h later = ground arith

module _ (k : Crypto) (phone hash : Text) (since : ℕ) where
  -- The account as the requests find it.
  record Guarded (n : ℕ) (db : AuthDb) : Type 0 where
    row : UserRow
    keyed : Keyed (λ (v : UserRow). v.id) db.users
    known : find_user_by_phone phone db ≡ some row
    active : is_active_status row.status ≡ true
    own : row.password_hash ≡ some hash
    near : Near since n row

  Near-failed :
      (l : Login) (n : ℕ) (u : UserRow)
      → IsMiss k hash since l
      → is_locked since u ≡ false
      → lock_after_attempts ≤ u.failed_login_attempts + suc n
      → Near since n (failed l.seed.now u)
  Near-failed l n u miss free few =
      elim (Bool-cases (leb lock_after_attempts (u.failed_login_attempts + 1))) [
        | inl last ↦ inl (l.seed.now + lock_minutes * 60_000, rw last refl, omega (arith, miss.2))
        | inr more ↦ inr (rw more free, ground arith, ground arith)
      ]

  -- A request that counts, and one that finds the account locked.
  missed :
      (l : Login) (n : ℕ) (db : AuthDb)
      → IsMiss k hash since l
      → Guarded (suc n) db
      → Guarded n (login_with_password k l.seed l.count phone l.password l.channel db).1
  missed l n db miss g = elim g.near [
    | inl (t, at, late) ↦
        rw
          (login_with_password_locked k l.seed l.channel g.row db l.count miss.0 phone l.password
            hash g.known g.active g.own
            (is_locked_until l.seed.now t g.row at (omega (arith, miss.3))))
          (record {
            row = g.row;
            keyed = g.keyed;
            known = g.known;
            active = g.active;
            own = g.own;
            near = inl (t, at, late);
          })
    | inr (free, _, few) ↦
        let users =
          (refused_lem l.seed.now phone g.row db g.keyed g.known
            {A = PublicUser × IssuedSession}).1 in
        rw
          (login_with_password_wrong k l.seed l.channel g.row db l.count miss.0 phone l.password
            hash g.known g.active g.own (is_locked_later since l.seed.now g.row free miss.2) miss.1)
          (record {
            row = failed l.seed.now g.row;
            keyed =
                rw users (Keyed-update_where _ _ (failed l.seed.now) db.users (λ a. refl) g.keyed);
            known = rw users (found_failed l.seed.now phone g.row db g.keyed g.known);
            active = g.active;
            own = g.own;
            near = Near-failed l n g.row miss free few;
          })
  ]

  misses :
      (ls : List Login) (db : AuthDb)
      → All (IsMiss k hash since) ls
      → Guarded (length ls) db
      → Guarded 0 (logins k phone ls db)
  unfolding logins
  misses [] db miss g = g
  misses (l ∷ ls) db miss g = misses ls _ miss.1 (missed l (length ls) db miss.0 g)

-- The account after wrong passwords that bring its counter to four at most.
early :
    (k : Crypto) (phone hash : Text) (since : ℕ) (ls : List Login) (u : UserRow) (db : AuthDb)
    → Keyed (λ (v : UserRow). v.id) db.users
    → find_user_by_phone phone db ≡ some u
    → is_active_status u.status ≡ true
    → u.password_hash ≡ some hash
    → is_locked since u ≡ false
    → All (IsMiss k hash since) ls
    → u.failed_login_attempts + length ls < 5
    → (v : UserRow) × (find_user_by_phone phone (logins k phone ls db) ≡ some v)
      × (v.locked_until ≡ u.locked_until)
      × (v.failed_login_attempts ≡ u.failed_login_attempts + length ls)
unfolding logins
early k phone hash since [] u db keyed known active own free miss few =
    (u, known, refl, omega arith)
early k phone hash since (l ∷ ls) u db keyed known active own free (miss, more) few =
    let now = l.seed.now in
    let db1 = (login_with_password k l.seed l.count phone l.password l.channel db).1 in
    let users : db1.users ≡ (set_users (failed now) u.id db).users =
      ap (λ (x : Result (PublicUser × IssuedSession) × AuthDb). x.1.users)
        (login_with_password_wrong k l.seed l.channel u db l.count miss.0 phone l.password hash
          known active own (is_locked_later since now u free miss.2) miss.1)
      ∙ (refused_lem now phone u db keyed known {A = PublicUser × IssuedSession}).1 in
    let same : (failed now u).locked_until ≡ u.locked_until = ground arith in
    let (v, there, locked, count) =
      early k phone hash since ls (failed now u) db1
        (rw users (Keyed-update_where _ _ (failed now) db.users (λ a. refl) keyed))
        (rw users (found_failed now phone u db keyed known)) active own (ground arith) more
        (omega arith) in
    (v, there, locked ∙ same, omega (arith, count))

-- An active account with a password that is not locked, after the wrong passwords of some requests, at
-- least one, that follow one another within 15 minutes and that the limiter lets pass. If they bring
-- its counter of failures to five or more, the login by password that comes next, before those 15
-- minutes are over, is refused as forbidden, with the right password too, and writes nothing. If not,
-- the account is locked no more than before, and its counter is higher by the requests. A login that
-- the limiter holds back is refused as such, and writes nothing. Ids are a primary key.
pub login_with_password-lockout :
    (k : Crypto) (phone hash : Text) (since : ℕ) (u : UserRow) (ls : List Login) (l : Login)
    (db : AuthDb)
    → Keyed (λ (v : UserRow). v.id) db.users
    → find_user_by_phone phone db ≡ some u
    → is_active_status u.status ≡ true
    → u.password_hash ≡ some hash
    → is_locked since u ≡ false
    → All (IsMiss k hash since) ls
    → 1 ≤ length ls
    → l.seed.now < since + 15 * 60_000
    → let db' = logins k phone ls db in
      let out = login_with_password k l.seed l.count phone l.password l.channel db' in
      ((is_allowed login_limit l.count ≡ false) × (out ≡ (err rate_limited, db')))
      ⊎ (((is_allowed login_limit l.count ≡ true)
            × (5 ≤ u.failed_login_attempts + length ls)
            × (out ≡ (err forbidden, db')))
          ⊎ ((u.failed_login_attempts + length ls < 5)
              × (v : UserRow) × (find_user_by_phone phone db' ≡ some v)
              × (v.locked_until ≡ u.locked_until)
              × (v.failed_login_attempts ≡ u.failed_login_attempts + length ls)))
login_with_password-lockout k phone hash since u ls l db keyed known active own free miss some_one
      soon =
    elim (Bool-cases (is_allowed login_limit l.count)) [
      | inr over ↦ inl (over, held_back k l.seed l.channel _ l.count phone l.password over)
      | inl within ↦ inr (elim (Bool-cases (leb 5 (u.failed_login_attempts + length ls))) [
        | inr few ↦
            let (v, there, locked, count) =
              early k phone hash since ls u db keyed known active own free miss (ground arith) in
            inr (ground arith, v, there, locked, count)
        | inl many ↦
            let g = misses k phone hash since ls db miss (record {
              row = u;
              keyed = keyed;
              known = known;
              active = active;
              own = own;
              near = inr (free, some_one, ground arith);
            }) in
            elim g.near [
              | inl (t, at, late) ↦ inl (
                within,
                ground arith,
                login_with_password_locked k l.seed l.channel g.row _ l.count within phone
                    l.password hash g.known g.active g.own
                    (is_locked_until l.seed.now t g.row at (omega arith)),
              )
              | inr (_, one, _) ↦ absurd (omega arith)
            ]
      ])
    ]
