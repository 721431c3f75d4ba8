-- ===== src/Auth/Sessions/Families.antt =====
-- The families of sessions over histories of session.service.ts, by which alone the services write the
-- table of sessions.
use howlow.Prelude.{
  ℕ, ◌≤◌, ◌≡◌, refl, inl, inr, none, Text, List, ◌==◌, Option-cases, first_where, count_where,
}
use howlow.Shared.{Channel}
use howlow.Auth.{Role}
use howlow.Auth.Rows.{SessionRow, RevokedReason, refresh_reuse, logout, AuthDb}
use howlow.Auth.Sessions.{
  Crypto, SessionSeed, session_clashes, find_session_by_refresh_hash, open_in_family,
  create_session, issue_session, rotate_session, revoke_by_refresh_token, revoke_all_sessions,
}
use howlow.Auth.Sessions.Rotation.{rotate_session_cases}
use howlow.Auth.Sessions.Moves.{
  Move, stays, adds, rotates, revokes_family, revokes_user, IsSingle, IsClosed, Move-IsSingle,
  Move-IsClosed,
}

-- One call of session.service.ts, whether it succeeds or fails, or any run that writes no session. The
-- family of a new login is a uuid that no session has.
pub data Step : AuthDb → AuthDb → Type 0 where
  issues :
      {db : AuthDb} (k : Crypto) (seed : SessionSeed) (user_id : ℕ) (roles : List Role)
      (channel : Channel)
      → first_where (λ (s : SessionRow). s.family_id == seed.fresh_family) db.sessions ≡ none
      → Step db (issue_session k seed user_id roles channel db).1
  presents :
      {db : AuthDb} (k : Crypto) (seed : SessionSeed) (token : Text)
      → Step db (rotate_session k seed token db).1
  logs_out :
      {db : AuthDb} (k : Crypto) (now : ℕ) (token : Text)
      → Step db (revoke_by_refresh_token k now token db).1
  revokes_all :
      {db : AuthDb} (now user_id : ℕ) (reason : RevokedReason)
      → Step db (revoke_all_sessions now user_id reason db).1
  elsewhere : {db db' : AuthDb} → db'.sessions ≡ db.sessions → Step db db'

pub data Reach (db : AuthDb) : AuthDb → Type 0 where
  here : Reach db db
  next : {t u : AuthDb} → Reach db t → Step t u → Reach db u

issue-Move :
    (k : Crypto) (seed : SessionSeed) (user_id : ℕ) (roles : List Role) (channel : Channel)
    (db : AuthDb)
    → first_where (λ (s : SessionRow). s.family_id == seed.fresh_family) db.sessions ≡ none
    → Move db.sessions (issue_session k seed user_id roles channel db).1.sessions
unfolding issue_session create_session
issue-Move k seed user_id roles channel db fresh =
    elim (Option-cases
      (first_where (session_clashes seed.id (k.sha256 seed.refresh_token)) db.sessions)) [
        | inr (c, clash) ↦ stays (rw clash refl)
        | inl free ↦
            adds seed
              (record {
                user_id = user_id;
                family_id = none;
                refresh_token_hash = k.sha256 seed.refresh_token;
                channel = channel;
              })
              refl fresh free (rw free refl)
      ]

rotate-Move :
    (k : Crypto) (seed : SessionSeed) (token : Text) (db : AuthDb)
    → Move db.sessions (rotate_session k seed token db).1.sessions
rotate-Move k seed token db = elim (rotate_session_cases k seed token db) [
  | inl (e, out) ↦ stays (rw out refl)
  | inr (inl (s, found, out)) ↦ revokes_family seed.now s.family_id refresh_reuse (rw out refl)
  | inr (inr (i, db', out, r)) ↦
      rotates k seed (k.sha256 token) r.session r.found r.unrevoked r.unclashed (rw out r.written)
]

logout-Move :
    (k : Crypto) (now : ℕ) (token : Text) (db : AuthDb)
    → Move db.sessions (revoke_by_refresh_token k now token db).1.sessions
unfolding revoke_by_refresh_token
logout-Move k now token db =
    elim (Option-cases (find_session_by_refresh_hash (k.sha256 token) db)) [
      | inl gone ↦ stays (rw (gone, revoke_by_refresh_token) refl)
      | inr (s, found) ↦
          revokes_family now s.family_id logout (rw (found, revoke_by_refresh_token) refl)
    ]

revoke-Move :
    (now user_id : ℕ) (reason : RevokedReason) (db : AuthDb)
    → Move db.sessions (revoke_all_sessions now user_id reason db).1.sessions
unfolding revoke_all_sessions
revoke-Move now user_id reason db = revokes_user now user_id reason refl

Step-Move : {db db' : AuthDb} → Step db db' → Move db.sessions db'.sessions
Step-Move (issues k seed user_id roles channel fresh) =
    issue-Move k seed user_id roles channel _ fresh
Step-Move (presents k seed token) = rotate-Move k seed token _
Step-Move (logs_out k now token) = logout-Move k now token _
Step-Move (revokes_all now user_id reason) = revoke-Move now user_id reason _
Step-Move (elsewhere e) = stays e

Reach-IsSingle : {db db' : AuthDb} → IsSingle db.sessions → Reach db db' → IsSingle db'.sessions
Reach-IsSingle h here = h
Reach-IsSingle h (next r st) = Move-IsSingle (Step-Move st) (Reach-IsSingle h r)

-- After any history of calls of the session service, each of them accepted or refused, from tables in
-- which every family has at most one session that is not revoked, every family has at most one.
pub Reach-open_in_family :
    {db db' : AuthDb}
    → IsSingle db.sessions
    → Reach db db'
    → (family_id : ℕ) → count_where (open_in_family family_id) db'.sessions ≤ 1
Reach-open_in_family h r family_id = Reach-IsSingle h r family_id

pub Reach-IsClosed :
    {db db' : AuthDb} (hash : Text) (f : ℕ)
    → IsClosed hash f db.sessions
    → Reach db db'
    → IsClosed hash f db'.sessions
Reach-IsClosed hash f c here = c
Reach-IsClosed hash f c (next r st) =
    Move-IsClosed hash f (Step-Move st) (Reach-IsClosed hash f c r)
