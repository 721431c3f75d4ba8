-- ===== src/Auth/Sessions/Reuse.antt =====
-- A refresh token that was rotated, presented again after any history.
use howlow.Prelude.{
  ◌≡◌, refl, sym, ap, some, Text, ◌==◌, ==_refl, ◌∷◌, first_where, first_where-update_where,
  update_where, count_where, count_where_cleared, if◌then◌else◌, arith,
}
use howlow.Errors.{ok, err, unauthenticated}
use howlow.Auth.Rows.{SessionRow, rotated, refresh_reuse, AuthDb}
use howlow.Auth.Sessions.{
  Crypto, SessionSeed, IssuedSession, has_hash, new_session, revoked, replaced_by, open_in_family,
  family_revoked, rotate_session,
}
use howlow.Auth.Sessions.Rotation.{
  Rotated, rotate_session-Rotated, rotate_session_reused, next_session,
}
use howlow.Auth.Sessions.Families.{Reach, Reach-IsClosed}
use howlow.Auth.Sessions.Moves.{IsClosed, IsClosed-update, closed_family, found_behind}

-- The row of the old token is closed, right after the rotation.
Rotated-IsClosed :
    (k : Crypto) (seed : SessionSeed) (token : Text) (db : AuthDb) (i : IssuedSession)
    (db' : AuthDb)
    → Rotated k seed token db i db'
    → IsClosed (k.sha256 token) i.family_id db'.sessions
Rotated-IsClosed k seed token db i db' r = rw r.written (
    IsClosed-update hash i.family_id _ (replaced_by seed.id) _ (λ a. (refl, refl, λ t. t))
      (revoked seed.now rotated s, rw (==_refl s.id) at there, ground arith, family))
  where
    hash : Text
    hash = k.sha256 token

    s : SessionRow
    s = r.session

    new : SessionRow
    new = new_session seed (next_session k seed s)

    there :
        first_where
          (has_hash hash)
          (update_where (λ a. a.id == s.id) (revoked seed.now rotated) (new ∷ db.sessions))
        ≡ some (if s.id == s.id then revoked seed.now rotated s else s)
    there =
        first_where-update_where (has_hash hash) (λ (a : SessionRow). a.id == s.id)
          (revoked seed.now rotated) (new ∷ db.sessions) s (λ b. refl)
          (found_behind hash new s db.sessions r.unclashed r.found)

    family : s.family_id ≡ i.family_id
    family = sym (ap (λ (v : IssuedSession). v.family_id) r.issue)

-- When a refresh token was rotated, and is presented again after any history of calls of the session
-- service, whoever presents it is refused, and no session of its family is left that is not revoked, the
-- newest neither, although the transaction of the refused request is rolled back. Sessions of other
-- families and all tables but the sessions and the audit stay as they are.
pub rotate_session-again :
    (k : Crypto) (seed later : SessionSeed) (token : Text) (i : IssuedSession) (db db' now : AuthDb)
    → rotate_session k seed token db ≡ (ok i, db')
    → Reach db' now
    → let out = rotate_session k later token now in
      (out.0 ≡ err unauthenticated)
      × (count_where (open_in_family i.family_id) out.1.sessions ≡ 0)
      × (out.1.sessions
          ≡ update_where
              (open_in_family i.family_id)
              (family_revoked later.now refresh_reuse)
              now.sessions)
      × (out.1 ≡ record now { sessions = out.1.sessions; audit = out.1.audit })
rotate_session-again k seed later token i db db' now h reach =
    let (s, found, closed, same) =
      Reach-IsClosed (k.sha256 token) i.family_id
        (Rotated-IsClosed k seed token db i db' (rotate_session-Rotated k seed token db i db' h))
        reach in
    let e = rotate_session_reused k later token now s found closed in
    rw e (
      refl,
      rw (← same) (
          count_where_cleared (open_in_family s.family_id) (family_revoked later.now refresh_reuse)
            now.sessions (closed_family s.family_id later.now refresh_reuse)),
      rw (← same) refl,
      refl,
    )
