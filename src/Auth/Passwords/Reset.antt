-- ===== src/Auth/Passwords/Reset.antt =====
-- What a password reset leaves: the sessions and the password of the user.
use howlow.Prelude.{
  ℕ, ◌≡◌, ◌≢◌, ◌⊎◌, Option, refl, sym, subst, ap, ◌∙◌, inl, inr, true, false, none, some, Text,
  ◌==◌, ==_refl, leb, text_eq, first_where, first_where-update_where, update_where, count_where,
  count_where_cleared, Bool-cases, Option-cases, arith,
}
use howlow.Errors.{Result, Result-cases, ok, err, unauthenticated, rate_limited}
use howlow.Shared.{Channel}
use howlow.Auth.Rows.{
  UserRow, SessionRow, OtpRow, OtpPurpose, password_reset, by_password_reset, is_active_status,
  AuthDb,
}
use howlow.Auth.Repository.{
  find_user_by_phone, has_phone, find_live_otp, set_otps, consumed, increment_otp_attempts,
  unlocked, with_password, set_users,
}
use howlow.Auth.Calls.{Call, Open, in_transaction, inside, ◌>>◌, end_transaction, followed_by}
use howlow.Auth.Otp.{hash_otp_code, verify_otp, count_wrong}
use howlow.Auth.Sessions.{
  Crypto, SessionSeed, IssuedSession, session_clashes, open_of_user, user_revoked,
  revoke_all_sessions,
}
use howlow.Auth.Accounts.{is_allowed, login_limit, otp_verify, PublicUser}
use howlow.Auth.Passwords.{store_reset, reset_password}
use howlow.Auth.Login.{login_with_password}
use howlow.Auth.Login.Entry.{
  logged_in, after_login, login_with_password_right, login_with_password_wrong,
  refuse_password_unauthenticated, held_back,
}

closed_of_user :
    (now id : ℕ) (s : SessionRow) → open_of_user id (user_revoked now by_password_reset s) ≡ false
closed_of_user now id s = ground arith

end_inside :
    {A : Type 0} (x : Result A × AuthDb) (c : Open) (a : A) (db' : AuthDb)
    → end_transaction (x.0, record c { view = x.1 }) ≡ (ok a, db')
    → x ≡ (ok a, db')
end_inside (ok b, t) c a db' h = h
end_inside (err e, t) c a db' h = absurd (cc h)

module _ (sha256 : Text → Text) (now : ℕ) (d : Text) (p : OtpPurpose) (code : Text)
    (db : AuthDb) where
  -- A wrong code never ends in a success.
  wrong_fails :
      {A : Type 0} (rest : OtpRow → Call Open A) (c : OtpRow) (a : A) (db' : AuthDb)
      → end_transaction
          (followed_by (count_wrong now c (record { committed = db; view = db })) rest)
        ≢ (ok a, db')
  wrong_fails rest c a db' h = elim (Result-cases (increment_otp_attempts c.id db).0) [
    | inl (e, failed) ↦ cc (rw failed at h)
    | inr (n, done) ↦ elim (Bool-cases (leb c.max_attempts n)) [
      | inl last ↦ cc (rw (done, last) at h)
      | inr more ↦ cc (rw (done, more) at h)
    ]
  ]

  -- A transaction behind a code that succeeds has run on tables where only the challenges have changed.
  verified :
      {A : Type 0} (rest : Call AuthDb A) (a : A) (db' : AuthDb)
      → in_transaction (verify_otp sha256 now d p code >> inside rest) db ≡ (ok a, db')
      → (c : OtpRow) × (rest (set_otps (consumed now) c.id db) ≡ (ok a, db'))
  unfolding in_transaction verify_otp
  verified rest a db' h = elim (Option-cases (find_live_otp d p db)) [
    | inl gone ↦ absurd (cc (rw gone at h))
    | inr (c, found) ↦ elim (Bool-cases (leb c.expires_at now)) [
      | inl late ↦ absurd (cc (rw (found, late) at h))
      | inr soon ↦ elim (Bool-cases (leb c.max_attempts c.attempts)) [
        | inl full ↦ absurd (cc (rw (found, soon, full) at h))
        | inr free ↦ elim (Bool-cases (text_eq c.code_hash (hash_otp_code sha256 code d))) [
          | inr wrong ↦
              absurd (wrong_fails (λ _. inside rest) c a db' (rw (found, soon, free, wrong) at h))
          | inl right ↦ (
            c,
            end_inside _ (record { committed = db; view = db }) a db'
                (rw (found, soon, free, right) at h),
          )
        ]
      ]
    ]
  ]

module _ (phone hash : Text) (now : ℕ) (db db' : AuthDb) where
  -- What a reset has found and written.
  abbrev IsReset : UserRow → Type 0
  IsReset u =
      (find_user_by_phone phone db ≡ some u)
      × (db'.users ≡ (set_users unlocked u.id (set_users (with_password hash) u.id db)).users)
      × (db'.sessions
          ≡ update_where (open_of_user u.id) (user_revoked now by_password_reset) db.sessions)

  stored :
      (o : AuthDb)
      → o.users ≡ db.users
      → o.sessions ≡ db.sessions
      → store_reset now phone hash o ≡ (ok tt, db')
      → (u : UserRow) × IsReset u
  unfolding store_reset revoke_all_sessions
  stored o users sessions h = elim (Option-cases (find_user_by_phone phone o)) [
    | inl gone ↦ absurd (cc (rw gone at h))
    | inr (u, known) ↦
        let e = ap (λ (x : Result (Unit {0}) × AuthDb). x.1) (rw known at h) in
        (
          u,
          (
            rw (← users) known,
            rw (← users) (sym (ap (λ (x : AuthDb). x.users) e)),
            rw (← sessions) (sym (ap (λ (x : AuthDb). x.sessions) e)),
          ),
        )
  ]

  IsReset-done :
      (sha256 : Text → Text) (count : Option ℕ) (code : Text)
      → reset_password sha256 now count phone code hash db ≡ (ok tt, db')
      → (u : UserRow) × IsReset u
  unfolding reset_password
  IsReset-done sha256 count code h = elim (Bool-cases (is_allowed otp_verify count)) [
    | inr full ↦ absurd (cc (rw full at h))
    | inl within ↦
        let (c, e) =
          verified sha256 now phone password_reset code db (store_reset now phone hash) tt db'
            (rw within at h) in
        stored (set_otps (consumed now) c.id db) refl refl e
  ]

-- The user after a reset, by the phone.
reset_user :
    (phone hash : Text) (db db' : AuthDb) (u : UserRow)
    → find_user_by_phone phone db ≡ some u
    → db'.users ≡ (set_users unlocked u.id (set_users (with_password hash) u.id db)).users
    → find_user_by_phone phone db' ≡ some (unlocked (with_password hash u))
reset_user phone hash db db' u found users = rw users (
    first_where-update_where (has_phone phone) (λ (v : UserRow). v.id == u.id) unlocked
      (set_users (with_password hash) u.id db).users (with_password hash u) (λ b. refl)
      (first_where-update_where (has_phone phone) (λ (v : UserRow). v.id == u.id)
          (with_password hash) db.users u (λ b. refl) found
        ∙ rw (==_refl u.id) refl)
    ∙ rw (==_refl u.id) refl)

-- After a password reset that succeeds no session of the user is left that is not revoked, and if the
-- limiter lets it pass, the next login by password, whether or not failures had locked the account, is
-- made with a password that has the new hash and refused as unauthenticated with any other. A login that
-- the limiter holds back is refused as such and writes nothing, with the new password too: the reset
-- does not clear the limiter's count. The user is active, and the identifiers and the token of the new
-- session are new.
pub login_with_password-reset_password :
    (k : Crypto) (now : ℕ) (count : Option ℕ) (phone code hash : Text) (db db' : AuthDb)
    (seed : SessionSeed) (tries : Option ℕ) (password : Text) (channel : Channel) (u : UserRow)
    → reset_password k.sha256 now count phone code hash db ≡ (ok tt, db')
    → find_user_by_phone phone db ≡ some u
    → is_active_status u.status ≡ true
    → first_where (session_clashes seed.id (k.sha256 seed.refresh_token)) db'.sessions ≡ none
    → (count_where (open_of_user u.id) db'.sessions ≡ 0)
      × (((is_allowed login_limit tries ≡ false)
            × (login_with_password k seed tries phone password channel db'
                ≡ (err rate_limited, db')))
          ⊎ (((is_allowed login_limit tries ≡ true)
                × (k.verify_password hash password ≡ true)
                × (v : PublicUser × IssuedSession) × (t : AuthDb) × (login_with_password k seed
                      tries phone password channel db'
                    ≡ (ok v, t)))
              ⊎ ((is_allowed login_limit tries ≡ true)
                  × (k.verify_password hash password ≡ false)
                  × ((login_with_password k seed tries phone password channel db').0
                      ≡ err unauthenticated))))
login_with_password-reset_password k now count phone code hash db db' seed tries password channel u
      done known active free =
    let (w, (found, users, sessions)) =
      IsReset-done phone hash now db db' k.sha256 count code done in
    let same : w ≡ u = cc (found, known) in
    let now_u : UserRow = unlocked (with_password hash u) in
    let there : find_user_by_phone phone db' ≡ some now_u =
      subst (λ (v : UserRow). find_user_by_phone phone db' ≡ some (unlocked (with_password hash v)))
        same (reset_user phone hash db db' w found users) in
    (
      rw (sessions, same)
          (count_where_cleared (open_of_user u.id) (user_revoked now by_password_reset) db.sessions
            (closed_of_user now u.id)),
      elim (Bool-cases (is_allowed login_limit tries)) [
        | inr over ↦ inl (over, held_back k seed channel db' tries phone password over)
        | inl within ↦ inr (elim (Bool-cases (k.verify_password hash password)) [
          | inl right ↦ inl (
            within,
            right,
            logged_in k seed channel now_u db',
            after_login k seed channel now_u db',
            login_with_password_right k seed channel now_u db' tries within phone password hash
                there active refl refl right free,
          )
          | inr wrong ↦ inr (
            within,
            wrong,
            rw
                (login_with_password_wrong k seed channel now_u db' tries within phone password hash
                  there active refl refl wrong)
                (refuse_password_unauthenticated seed.now now_u db'),
          )
        ])
      ],
    )
