-- ===== src/Auth/Sessions/Rotation.antt =====
-- rotateSession: what a rotation that succeeds has done, and what presenting the old token again does.
use howlow.Prelude.{
  ℕ, ◌≡◌, refl, subst, ◌⊎◌, inl, inr, true, false, none, some, Text, List, ◌∷◌, ◌==◌, leb, is_some,
  Bool-cases, Option-cases, first_where, update_where,
}
use howlow.Errors.{AppError, Result, ok, err, unauthenticated, unique_violation}
use howlow.Auth.Rows.{
  SessionRow, rotated, refresh_reuse, refresh_reuse_detected, refresh_rotated, AuthDb,
}
use howlow.Auth.Repository.{find_user_by_id, get_user_roles}
use howlow.Auth.Calls.{in_transaction}
use howlow.Auth.Sessions.{
  Crypto, SessionSeed, NewSession, IssuedSession, issued, new_session, find_session_by_refresh_hash,
  session_clashes, create_session, revoked, replaced_by, open_in_family, family_revoked,
  handle_reuse, is_active_user, rotate_within, rotate_session,
}

-- The sessions after a rotation of `s`.
abbrev pub rotated_sessions :
    SessionSeed → NewSession → SessionRow → List SessionRow → List SessionRow
rotated_sessions seed i s rows =
    update_where (λ r. r.id == s.id) (replaced_by seed.id)
      (update_where (λ r. r.id == s.id) (revoked seed.now rotated) (new_session seed i ∷ rows))

abbrev pub next_session : Crypto → SessionSeed → SessionRow → NewSession
next_session k seed s = record {
  user_id = s.user_id;
  family_id = some s.family_id;
  refresh_token_hash = k.sha256 seed.refresh_token;
  channel = s.channel;
}

-- What a rotation that succeeds found and did.
pub record Rotated (k : Crypto) (seed : SessionSeed) (token : Text) (db : AuthDb)
    (i : IssuedSession) (db' : AuthDb) : Type 0 where
  pub session : SessionRow
  pub found : find_session_by_refresh_hash (k.sha256 token) db ≡ some session
  pub unrevoked : is_some session.revoked_at ≡ false
  pub unclashed :
      first_where (session_clashes seed.id (k.sha256 seed.refresh_token)) db.sessions ≡ none
  pub issue :
      i
      ≡ issued k seed
          (get_user_roles session.user_id db)
          (new_session seed (next_session k seed session))
  pub written :
      db'.sessions ≡ rotated_sessions seed (next_session k seed session) session db.sessions

-- The tables after a rotation.
abbrev pub after_rotation : Crypto → SessionSeed → SessionRow → AuthDb → AuthDb
after_rotation k seed s db = record db {
  sessions = rotated_sessions seed (next_session k seed s) s db.sessions;
  audit = (refresh_rotated, some s.user_id) ∷ db.audit;
}

-- The tables after a token is seen again.
abbrev pub after_reuse : ℕ → SessionRow → AuthDb → AuthDb
after_reuse now s db = record db {
  sessions =
      update_where (open_in_family s.family_id) (family_revoked now refresh_reuse) db.sessions;
  audit = (refresh_reuse_detected, some s.user_id) ∷ db.audit;
}

module _ (k : Crypto) (seed : SessionSeed) (token : Text) (db : AuthDb) where
  -- The ways a rotation ends: refused with nothing written, seen as a reuse, or made.
  abbrev pub Outcome : Result IssuedSession × AuthDb → Type 0
  Outcome out =
      ((e : AppError) × (out ≡ (err e, db)))
      ⊎ ((s : SessionRow) × (find_session_by_refresh_hash (k.sha256 token) db ≡ some s)
          × (out ≡ (err unauthenticated, after_reuse seed.now s db)))
      ⊎ ((i : IssuedSession) × (db' : AuthDb) × (out ≡ (ok i, db')) × Rotated k seed token db i db')

  module _ (s : SessionRow)
      (found : find_session_by_refresh_hash (k.sha256 token) db ≡ some s) where
    pub rotate_session_reused :
        is_some s.revoked_at ≡ true
        → rotate_session k seed token db ≡ (err unauthenticated, after_reuse seed.now s db)
    unfolding rotate_session rotate_within in_transaction handle_reuse
    rotate_session_reused old = rw (found, old) refl

    rotate_live :
        is_some s.revoked_at ≡ false
        → leb s.expires_at seed.now ≡ false
        → is_active_user (find_user_by_id s.user_id db) ≡ true
        → Outcome (rotate_session k seed token db)
    unfolding rotate_session rotate_within in_transaction create_session handle_reuse
    rotate_live live soon active =
        elim (Option-cases
          (first_where (session_clashes seed.id (k.sha256 seed.refresh_token)) db.sessions)) [
            | inr (c, clash) ↦ inl (unique_violation, rw (found, live, soon, active, clash) refl)
            | inl free ↦ inr (
                inr (
                  issued k seed (get_user_roles s.user_id db)
                      (new_session seed (next_session k seed s)),
                  after_rotation k seed s db,
                  rw (found, live, soon, active, free) refl,
                  record {
                    session = s;
                    found = found;
                    unrevoked = live;
                    unclashed = free;
                    issue = refl;
                    written = refl;
                  },
                ))
          ]

    rotate_known : Outcome (rotate_session k seed token db)
    unfolding rotate_session rotate_within in_transaction create_session handle_reuse
    rotate_known = elim (Bool-cases (is_some s.revoked_at)) [
      | inl old ↦ inr (inl (s, found, rotate_session_reused old))
      | inr live ↦ elim (Bool-cases (leb s.expires_at seed.now)) [
        | inl late ↦ inl (unauthenticated, rw (found, live, late) refl)
        | inr soon ↦ elim (Bool-cases (is_active_user (find_user_by_id s.user_id db))) [
          | inl active ↦ rotate_live live soon active
          | inr idle ↦ inl (unauthenticated, rw (found, live, soon, idle) refl)
        ]
      ]
    ]

  pub rotate_session_cases : Outcome (rotate_session k seed token db)
  unfolding rotate_session rotate_within in_transaction
  rotate_session_cases = elim (Option-cases (find_session_by_refresh_hash (k.sha256 token) db)) [
    | inl gone ↦ inl (unauthenticated, rw gone refl)
    | inr (s, found) ↦ rotate_known s found
  ]

pub rotate_session-Rotated :
    (k : Crypto) (seed : SessionSeed) (token : Text) (db : AuthDb) (i : IssuedSession)
    (db' : AuthDb)
    → rotate_session k seed token db ≡ (ok i, db')
    → Rotated k seed token db i db'
rotate_session-Rotated k seed token db i db' h = elim (rotate_session_cases k seed token db) [
  | inl (e, out) ↦ absurd (cc (h, out))
  | inr (inl (s, found, out)) ↦ absurd (cc (h, out))
  | inr (inr (j, u, out, r)) ↦
      let p : j ≡ i = cc (h, out) in
      let q : u ≡ db' = cc (h, out) in
      subst (λ v. Rotated k seed token db i v) q (subst (λ v. Rotated k seed token db v u) p r)
]
