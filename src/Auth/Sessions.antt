-- ===== src/Auth/Sessions.antt =====
-- Sessions: the statements of apps/api/src/modules/auth/repository.ts on them, and session.service.ts.
-- SHA-256 and the signing of access tokens are the record `Crypto`; a fresh refresh token and the
-- identifiers of a new row are arguments.
pub mod Rotation
pub mod Moves
pub mod Families
pub mod Reuse
use howlow.Prelude.{
  ℕ, ◌+◌, ◌*◌, Bool, true, false, Option, none, some, Text, List, [], ◌∷◌, ◌==◌, ◌&&◌, ◌||◌, ltb,
  leb, not, is_some, or_else, text_eq, if◌then◌else◌, first_where, update_where, count_where,
}
use howlow.Errors.{AppError, unique_violation, unauthenticated, reuse_detected, Result, ok, err}
use howlow.Shared.{Channel}
use howlow.Auth.{Role}
use howlow.Auth.Rows.{
  is_active_status, UserRow, RevokedReason, rotated, refresh_reuse, logout, is_refresh_reuse,
  SessionRow, AuthEvent, session_created, session_revoked, refresh_rotated, refresh_reuse_detected,
  AuthDb,
}
use howlow.Auth.Repository.{or_now, find_user_by_id, get_user_roles, record_auth_event}
use howlow.Auth.Calls.{
  Call, return, raise, reads, writes, raise_if, or_raise, ◌>>=◌, ◌>>◌, inside, in_transaction,
}

pub record Crypto : Type 0 where
  pub sha256 : Text → Text
  pub sign_access_token : ℕ → ℕ → Channel → List Role → Text
  pub verify_password : Text → Text → Bool

-- The clock, JWT_REFRESH_TTL_SECONDS, and what a new session takes from outside.
pub record SessionSeed : Type 0 where
  pub now : ℕ
  pub refresh_ttl_seconds : ℕ
  pub id : ℕ
  pub fresh_family : ℕ
  pub refresh_token : Text

pub record NewSession : Type 0 where
  pub user_id : ℕ
  pub family_id : Option ℕ
  pub refresh_token_hash : Text
  pub channel : Channel

abbrev pub new_session : SessionSeed → NewSession → SessionRow
new_session seed i = record {
  id = seed.id;
  user_id = i.user_id;
  family_id = or_else i.family_id seed.fresh_family;
  refresh_token_hash = i.refresh_token_hash;
  channel = i.channel;
  expires_at = seed.now + seed.refresh_ttl_seconds * 1000;
  revoked_at = none;
  revoked_reason = none;
  replaced_by_session_id = none;
  reuse_detected_at = none;
}

abbrev pub has_hash : Text → SessionRow → Bool
has_hash hash s = text_eq s.refresh_token_hash hash

-- `findSessionByRefreshHash`
abbrev pub find_session_by_refresh_hash : Text → AuthDb → Option SessionRow
find_session_by_refresh_hash hash db = first_where (has_hash hash) db.sessions

abbrev pub session_clashes : ℕ → Text → SessionRow → Bool
session_clashes id hash s = s.id == id || has_hash hash s

-- `createSession`, behind the primary key and the unique index on the digests.
unfoldable pub create_session : SessionSeed → NewSession → Call AuthDb SessionRow
create_session seed i = do
  raise_if
      (is_some
        (first_where (session_clashes seed.id i.refresh_token_hash) (← reads (λ db. db.sessions))))
      unique_violation
  writes (λ db. record db { sessions = new_session seed i ∷ db.sessions })
  return (new_session seed i)

abbrev pub set_sessions : (SessionRow → Bool) → (SessionRow → SessionRow) → AuthDb → AuthDb
set_sessions p f db = record db { sessions = update_where p f db.sessions }

abbrev pub revoked : ℕ → RevokedReason → SessionRow → SessionRow
revoked now reason s = record s {
  revoked_at = or_now now s.revoked_at;
  revoked_reason = some reason;
}

-- `revokeSession`
abbrev pub revoke_session : ℕ → ℕ → RevokedReason → Call AuthDb (Unit {0})
revoke_session now id reason = writes (set_sessions (λ s. s.id == id) (revoked now reason))

abbrev pub replaced_by : ℕ → SessionRow → SessionRow
replaced_by next s = record s { replaced_by_session_id = some next }

-- `linkRotatedSession`
abbrev pub link_rotated_session : ℕ → ℕ → Call AuthDb (Unit {0})
link_rotated_session previous next =
    writes (set_sessions (λ s. s.id == previous) (replaced_by next))

abbrev pub is_open : SessionRow → Bool
is_open s = not (is_some s.revoked_at)

abbrev pub open_in_family : ℕ → SessionRow → Bool
open_in_family family_id s = s.family_id == family_id && is_open s

abbrev pub family_revoked : ℕ → RevokedReason → SessionRow → SessionRow
family_revoked now reason s = record s {
  revoked_at = or_now now s.revoked_at;
  revoked_reason = some reason;
  reuse_detected_at = if is_refresh_reuse reason then some now else s.reuse_detected_at;
}

-- `revokeSessionFamily`, and the count of rows that it changes, which only the audit row holds.
abbrev pub revoke_session_family : ℕ → ℕ → RevokedReason → Call AuthDb ℕ
revoke_session_family now family_id reason = do
  count ← reads (λ db. count_where (open_in_family family_id) db.sessions)
  writes (set_sessions (open_in_family family_id) (family_revoked now reason))
  return count

abbrev pub open_of_user : ℕ → SessionRow → Bool
open_of_user user_id s = s.user_id == user_id && is_open s

abbrev pub user_revoked : ℕ → RevokedReason → SessionRow → SessionRow
user_revoked now reason s = record s { revoked_at = some now; revoked_reason = some reason }

-- `revokeAllUserSessions`
abbrev pub revoke_all_user_sessions : ℕ → ℕ → RevokedReason → Call AuthDb ℕ
revoke_all_user_sessions now user_id reason = do
  count ← reads (λ db. count_where (open_of_user user_id) db.sessions)
  writes (set_sessions (open_of_user user_id) (user_revoked now reason))
  return count

-- `isSessionActive`
unfoldable pub is_session_active : ℕ → ℕ → AuthDb → Bool
is_session_active now id db = elim (first_where (λ (s : SessionRow). s.id == id) db.sessions) [
  | none ↦ false
  | some s ↦ is_open s && ltb now s.expires_at
]

pub record IssuedSession : Type 0 where
  pub session_id : ℕ
  pub family_id : ℕ
  pub access_token : Text
  pub refresh_token : Text

abbrev pub issued : Crypto → SessionSeed → List Role → SessionRow → IssuedSession
issued k seed roles s = record {
  session_id = s.id;
  family_id = s.family_id;
  access_token = k.sign_access_token s.user_id s.id s.channel roles;
  refresh_token = seed.refresh_token;
}

-- `issueSession`
unfoldable pub issue_session :
    Crypto → SessionSeed → ℕ → List Role → Channel → Call AuthDb IssuedSession
issue_session k seed user_id roles channel = do
  session ← create_session seed (record {
    user_id = user_id;
    family_id = none;
    refresh_token_hash = k.sha256 seed.refresh_token;
    channel = channel;
  })
  record_auth_event session_created (some user_id)
  return (issued k seed roles session)

abbrev pub is_active_user : Option UserRow → Bool
is_active_user none = false
is_active_user (some u) = is_active_status u.status

-- The refusals of a rotation, in their order. `reuse_detected` is the class ReuseDetected.
abbrev pub assert_may_rotate : ℕ → SessionRow → Call AuthDb (Unit {0})
assert_may_rotate now s = do
  raise_if (is_some s.revoked_at) (reuse_detected s.family_id s.user_id)
  raise_if (leb s.expires_at now) unauthenticated
  raise_if (not (is_active_user (← reads (find_user_by_id s.user_id)))) unauthenticated

-- The body of the transaction of `rotateSession`.
unfoldable pub rotate_within : Crypto → SessionSeed → Text → Call AuthDb IssuedSession
rotate_within k seed presented = do
  session ← or_raise unauthenticated (← reads (find_session_by_refresh_hash (k.sha256 presented)))
  assert_may_rotate seed.now session
  roles ← reads (get_user_roles session.user_id)
  next ← create_session seed (record {
    user_id = session.user_id;
    family_id = some session.family_id;
    refresh_token_hash = k.sha256 seed.refresh_token;
    channel = session.channel;
  })
  revoke_session seed.now session.id rotated
  link_rotated_session session.id next.id
  record_auth_event refresh_rotated (some session.user_id)
  return (issued k seed roles next)

-- `handleReuse`
unfoldable pub handle_reuse : {A : Type 0} → ℕ → ℕ → ℕ → Call AuthDb A
handle_reuse now family_id user_id = do
  revoke_session_family now family_id refresh_reuse
  record_auth_event refresh_reuse_detected (some user_id)
  raise unauthenticated

-- The catch clause, once the transaction is rolled back.
abbrev pub catch_reuse : {A : Type 0} → ℕ → Result A × AuthDb → Result A × AuthDb
catch_reuse now (ok a, db) = (ok a, db)
catch_reuse now (err (reuse_detected family_id user_id), db) = handle_reuse now family_id user_id db
catch_reuse now (err e, db) = (err e, db)

-- `rotateSession`
unfoldable pub rotate_session : Crypto → SessionSeed → Text → Call AuthDb IssuedSession
unfolding in_transaction
rotate_session k seed presented db =
    catch_reuse seed.now (in_transaction (inside (rotate_within k seed presented)) db)

-- `revokeByRefreshToken`
unfoldable pub revoke_by_refresh_token : Crypto → ℕ → Text → Call AuthDb (Unit {0})
revoke_by_refresh_token k now token db = elim (find_session_by_refresh_hash (k.sha256 token) db) [
  | none ↦ (ok tt, db)
  | some s ↦
      (revoke_session_family now s.family_id logout
          >> record_auth_event session_revoked (some s.user_id))
        db
]

-- `revokeAllSessions`
unfoldable pub revoke_all_sessions : ℕ → ℕ → RevokedReason → Call AuthDb ℕ
revoke_all_sessions now user_id reason = do
  count ← revoke_all_user_sessions now user_id reason
  record_auth_event session_revoked (some user_id)
  return count
