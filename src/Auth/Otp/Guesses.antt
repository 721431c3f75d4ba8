-- ===== src/Auth/Otp/Guesses.antt =====
-- Guessing a one-time code: what a wrong code leaves of a challenge when the caller's transaction is
-- rolled back.
use howlow.Prelude.{
  ℕ, suc, ◌+◌, ◌≤◌, ◌<◌, ◌≡◌, refl, subst, ◌∙◌, inl, inr, true, false, Option, none, some, Text,
  ◌==◌, ==_refl, leb, text_eq, arith, All-first_where, Keyed, Keyed-update_where, Bool-cases,
  Option-cases, first_where, first_where_holds, first_where-update_where, count_where,
  count_where-update_where-le, count_where-update_where-lt, first_where-none,
}
use howlow.Errors.{Result, ok, err, validation_failed}
use howlow.Auth.Rows.{OtpPurpose, OtpRow, AuthDb}
use howlow.Auth.Repository.{
  find_live_otp, is_live_otp, set_otps, tried, burnt, increment_otp_attempts,
}
use howlow.Auth.Calls.{Call, ◌>>=◌, Open, in_transaction}
use howlow.Auth.Otp.{hash_otp_code, verify_otp}

-- The primary key, and the unique index `otp_challenges_live_key`.
pub record IsValid (db : AuthDb) : Type 0 where
  pub keyed : Keyed (λ (o : OtpRow). o.id) db.otps
  pub single :
      (destination : Text) (purpose : OtpPurpose)
      → count_where (is_live_otp destination purpose) db.otps ≤ 1

tried-IsValid : (id : ℕ) (db : AuthDb) → IsValid db → IsValid (set_otps tried id db)
tried-IsValid id db v = record {
  keyed = Keyed-update_where _ _ tried db.otps (λ a. refl) v.keyed;
  single = λ d p. omega (
    arith,
    v.single d p,
    count_where-update_where-le (is_live_otp d p) (λ (o : OtpRow). o.id == id) tried db.otps
        (λ b _ h. h),
  );
}

not_live :
    (d : Text) (p : OtpPurpose) (now : ℕ) (o : OtpRow) → is_live_otp d p (burnt now o) ≡ false
not_live d p now o = ground arith

burnt-IsValid : (now id : ℕ) (db : AuthDb) → IsValid db → IsValid (set_otps (burnt now) id db)
burnt-IsValid now id db v = record {
  keyed = Keyed-update_where _ _ (burnt now) db.otps (λ a. refl) v.keyed;
  single = λ d p. omega (
    arith,
    v.single d p,
    count_where-update_where-le (is_live_otp d p) (λ (o : OtpRow). o.id == id) (burnt now) db.otps
        (λ b _ h. absurd (cc (not_live d p now b, h))),
  );
}

module _ (d : Text) (p : OtpPurpose) where
  find_live_otp-tried :
      (c : OtpRow) (db : AuthDb)
      → find_live_otp d p db ≡ some c
      → find_live_otp d p (set_otps tried c.id db) ≡ some (tried c)
  find_live_otp-tried c db h =
      first_where-update_where (is_live_otp d p) (λ (o : OtpRow). o.id == c.id) tried db.otps c
        (λ b. refl) h
      ∙ rw (==_refl c.id) refl

  find_live_otp-burnt :
      (now : ℕ) (c : OtpRow) (db : AuthDb)
      → IsValid db
      → find_live_otp d p db ≡ some c
      → find_live_otp d p (set_otps (burnt now) c.id db) ≡ none
  find_live_otp-burnt now c db v h = first_where-none _ _ (
      omega (
        arith,
        v.single d p,
        count_where-update_where-lt (is_live_otp d p) (is_live_otp d p)
            (λ (o : OtpRow). o.id == c.id) (burnt now) db.otps c (λ b _. not_live d p now b) h
            (==_refl c.id) (first_where_holds (is_live_otp d p) db.otps c h),
      ))

  increment_lem :
      (c : OtpRow) (db : AuthDb)
      → IsValid db
      → find_live_otp d p db ≡ some c
      → c.attempts < c.max_attempts
      → increment_otp_attempts c.id db ≡ (ok (c.attempts + 1), set_otps tried c.id db)
  unfolding increment_otp_attempts
  increment_lem c db v found h =
      let own : first_where (λ (o : OtpRow). o.id == c.id) db.otps ≡ some c =
        All-first_where _ _ db.otps c v.keyed found in
      let within : leb c.max_attempts c.attempts ≡ false = ground arith in rw (own, within) refl

  -- What the challenge that is live still allows, `n` wrong codes at most; its digest is not changed.
  abbrev pub Left : Text → ℕ → Option OtpRow → Type 0
  Left digest n none = Unit {0}
  Left digest n (some c) = (c.max_attempts ≤ c.attempts + n) × (c.code_hash ≡ digest)

  -- A refusal that counts: `n` wrong codes are left, and only the table of challenges is written.
  pub record Refused {A : Type 0} (digest : Text) (n : ℕ) (db : AuthDb) (out : Result A × AuthDb)
      : Type 0 where
    pub refused : out.0 ≡ err validation_failed
    pub valid : IsValid out.1
    pub left : Left digest n (find_live_otp d p out.1)
    pub only : out.1 ≡ record db { otps = out.1.otps }

  module _ {A : Type 0} (digest : Text) (n : ℕ) (db : AuthDb) (v : IsValid db) where
    unknown : find_live_otp d p db ≡ none → Refused {A = A} digest n db (err validation_failed, db)
    unknown h = record { refused = refl; valid = v; left = rw h tt; only = refl }

    module _ (c : OtpRow) (found : find_live_otp d p db ≡ some c) where
      spent :
          (now : ℕ)
          → Refused {A = A} digest n db (err validation_failed, set_otps (burnt now) c.id db)
      spent now = record {
        refused = refl;
        valid = burnt-IsValid now c.id db v;
        left = rw (find_live_otp-burnt now c db v found) tt;
        only = refl;
      }

      counted :
          c.max_attempts ≤ suc c.attempts + n
          → c.code_hash ≡ digest
          → Refused {A = A} digest n db (err validation_failed, set_otps tried c.id db)
      counted few same = record {
        refused = refl;
        valid = tried-IsValid c.id db v;
        left = rw (find_live_otp-tried c db found) (omega arith, same);
        only = refl;
      }

      last_one :
          (now : ℕ)
          → Refused {A = A} digest n db
              (err validation_failed, set_otps (burnt now) c.id (set_otps tried c.id db))
      last_one now = record {
        refused = refl;
        valid = burnt-IsValid now c.id _ (tried-IsValid c.id db v);
        left =
            rw
              (find_live_otp-burnt now (tried c) _ (tried-IsValid c.id db v)
                (find_live_otp-tried c db found))
              tt;
        only = refl;
      }

      verify_wrong :
          (sha256 : Text → Text) (rest : OtpRow → Call Open A) (now : ℕ) (code : Text)
          → text_eq c.code_hash (hash_otp_code sha256 code d) ≡ false
          → c.max_attempts ≤ suc c.attempts + n
          → c.code_hash ≡ digest
          → Refused {A = A} digest n db
              (in_transaction (verify_otp sha256 now d p code >>= rest) db)
      unfolding in_transaction verify_otp
      verify_wrong sha256 rest now code wrong few same =
          rw found (elim (Bool-cases (leb c.expires_at now)) [
            | inl late ↦ rw late (spent now)
            | inr soon ↦ rw soon (elim (Bool-cases (leb c.max_attempts c.attempts)) [
              | inl full ↦ rw full (spent now)
              | inr free ↦
                  rw (free, wrong, increment_lem c db v found (ground arith))
                    (elim (Bool-cases (leb c.max_attempts (c.attempts + 1))) [
                      | inl last ↦ rw last (last_one now)
                      | inr more ↦ rw more (counted few same)
                    ])
            ])
          ])

  -- One request with a wrong code, whatever its transaction goes on to do.
  pub verify_otp_wrong :
      {A : Type 0} (sha256 : Text → Text) (rest : OtpRow → Call Open A) (now : ℕ) (code : Text)
      (digest : Text) (n : ℕ) (db : AuthDb)
      → IsValid db
      → text_eq digest (hash_otp_code sha256 code d) ≡ false
      → Left digest (suc n) (find_live_otp d p db)
      → Refused digest n db (in_transaction (verify_otp sha256 now d p code >>= rest) db)
  unfolding in_transaction verify_otp
  verify_otp_wrong sha256 rest now code digest n db v wrong left =
      elim (Option-cases (find_live_otp d p db)) [
        | inl gone ↦ rw gone (unknown digest n db v gone)
        | inr (c, found) ↦
            let (few, same) : Left digest (suc n) (some c) =
              subst (Left digest (suc n)) found left in
            verify_wrong digest n db v c found sha256 rest now code (rw same wrong) (omega arith)
              same
      ]

  -- When none is left, no code is good.
  pub verify_otp_spent :
      {A : Type 0} (sha256 : Text → Text) (rest : OtpRow → Call Open A) (now : ℕ) (code : Text)
      (digest : Text) (db : AuthDb)
      → IsValid db
      → Left digest 0 (find_live_otp d p db)
      → Refused digest 0 db (in_transaction (verify_otp sha256 now d p code >>= rest) db)
  unfolding in_transaction verify_otp
  verify_otp_spent sha256 rest now code digest db v left =
      elim (Option-cases (find_live_otp d p db)) [
        | inl gone ↦ rw gone (unknown digest 0 db v gone)
        | inr (c, found) ↦
            let (few, same) : Left digest 0 (some c) = subst (Left digest 0) found left in
            let full : leb c.max_attempts c.attempts ≡ true = ground arith in
            rw found (elim (Bool-cases (leb c.expires_at now)) [
              | inl late ↦ rw late (spent digest 0 db v c found now)
              | inr soon ↦ rw (soon, full) (spent digest 0 db v c found now)
            ])
      ]
