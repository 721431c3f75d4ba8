-- ===== src/Auth/Repository.antt =====
-- The statements of apps/api/src/modules/auth/repository.ts on users, roles, challenges and sessions, and
-- recordAuthEvent of audit.ts. An identifier of a new row is an argument, as gen_random_uuid() gives
-- it. What the primary keys and the unique indexes refuse is `unique_violation`; the CHECKs on the shape
-- of a phone, an email and a name are those of the request's schema and are left out.
use howlow.Prelude.{
  ℕ, ◌+◌, ◌*◌, Bool, false, Option, none, some, Text, List, [], ◌∷◌, ◌==◌, ◌&&◌, ◌||◌, leb, not,
  is_some, has_text, text_eq, if◌then◌else◌, first_where, rows_where, update_where,
}
use howlow.Errors.{check_violation, unique_violation}
use howlow.Auth.{
  Role, role_rank, user, seller, support_agent, finance, auction_manager, admin, super_admin,
}
use howlow.Auth.Rows.{
  pending, active, is_deleted, UserRow, OtpPurpose, purpose_eq, OtpRow, AuthEvent, AuthDb,
}
use howlow.Auth.Calls.{Call, return, reads, writes, raise_if, ◌>>=◌, ◌>>◌}

abbrev pub has_phone : Text → UserRow → Bool
has_phone phone u = has_text phone u.phone && not (is_deleted u.status)

-- `findUserByPhone`
abbrev pub find_user_by_phone : Text → AuthDb → Option UserRow
find_user_by_phone phone db = first_where (has_phone phone) db.users

abbrev pub has_user_id : ℕ → UserRow → Bool
has_user_id id u = u.id == id && not (is_deleted u.status)

-- `findUserById`
abbrev pub find_user_by_id : ℕ → AuthDb → Option UserRow
find_user_by_id id db = first_where (has_user_id id) db.users

pub record NewUser : Type 0 where
  pub phone : Text
  pub display_name : Text
  pub email : Option Text

abbrev pub pending_user : ℕ → ℕ → NewUser → UserRow
pending_user fresh now i = record {
  id = fresh;
  phone = some i.phone;
  email = i.email;
  display_name = i.display_name;
  password_hash = none;
  status = pending;
  phone_verified_at = none;
  failed_login_attempts = 0;
  locked_until = none;
  created_at = now;
}

-- What `users_email_active_key`, `users_phone_active_key` and the primary key refuse. A citext compares
-- by its lower case, which the request's schema has made of the email.
abbrev pub clashes : ℕ → NewUser → UserRow → Bool
clashes fresh i u =
    u.id == fresh
    || (not (is_deleted u.status)
        && (has_text i.phone u.phone
            || elim i.email [ none ↦ false | some e ↦ has_text e u.email ]))

-- `createPendingUser`
unfoldable pub create_pending_user : ℕ → ℕ → NewUser → Call AuthDb UserRow
create_pending_user fresh now i = do
  raise_if (is_some (first_where (clashes fresh i) (← reads (λ db. db.users)))) unique_violation
  writes (λ db. record db { users = pending_user fresh now i ∷ db.users })
  return (pending_user fresh now i)

abbrev pub set_users : (UserRow → UserRow) → ℕ → AuthDb → AuthDb
set_users f id db = record db { users = update_where (λ u. u.id == id) f db.users }

-- COALESCE(column, now())
abbrev pub or_now : ℕ → Option ℕ → Option ℕ
or_now now none = some now
or_now now (some t) = some t

abbrev pub activated : ℕ → UserRow → UserRow
activated now u = record u {
  status = active;
  phone_verified_at = or_now now u.phone_verified_at;
  failed_login_attempts = 0;
  locked_until = none;
}

-- `activateUser`
abbrev pub activate_user : ℕ → ℕ → Call AuthDb (Unit {0})
activate_user now id = writes (set_users (activated now) id)

abbrev pub with_password : Text → UserRow → UserRow
with_password hash u = record u { password_hash = some hash }

-- `setPasswordHash`
abbrev pub set_password_hash : ℕ → Text → Call AuthDb (Unit {0})
set_password_hash id hash = writes (set_users (with_password hash) id)

abbrev pub failed_once : ℕ → ℕ → ℕ → UserRow → UserRow
failed_once now lock_after lock_minutes u = record u {
  failed_login_attempts = u.failed_login_attempts + 1;
  locked_until =
      if leb lock_after (u.failed_login_attempts + 1)
      then some (now + lock_minutes * 60_000)
      else u.locked_until;
}

-- `recordFailedLogin`
unfoldable pub record_failed_login : ℕ → ℕ → ℕ → ℕ → Call AuthDb ℕ
record_failed_login now id lock_after lock_minutes = do
  writes (set_users (failed_once now lock_after lock_minutes) id)
  found ← reads (λ db. first_where (λ u. u.id == id) db.users)
  return (elim found [ none ↦ 0 | some u ↦ u.failed_login_attempts ])

abbrev pub unlocked : UserRow → UserRow
unlocked u = record u { failed_login_attempts = 0; locked_until = none }

-- `clearLoginFailures`
abbrev pub clear_login_failures : ℕ → Call AuthDb (Unit {0})
clear_login_failures id = writes (set_users unlocked id)

-- The order of the type `role_name`.
abbrev role_order : List Role
role_order = user ∷ seller ∷ support_agent ∷ finance ∷ auction_manager ∷ admin ∷ super_admin ∷ []

abbrev pub grants : ℕ → Role → ℕ × Role → Bool
grants id role row = row.0 == id && role_rank row.1 == role_rank role

-- `getUserRoles`; the primary key lets a role stand once for a user.
unfoldable pub get_user_roles : ℕ → AuthDb → List Role
get_user_roles id db =
    rows_where (λ role. is_some (first_where (grants id role) db.roles)) role_order

-- `grantRole`
unfoldable pub grant_role : ℕ → Role → Call AuthDb (Unit {0})
grant_role id role = writes (λ db. record db {
  roles =
      if is_some (first_where (grants id role) db.roles) then db.roles else (id, role) ∷ db.roles;
})

-- `recordAuthEvent`
abbrev pub record_auth_event : AuthEvent → Option ℕ → Call AuthDb (Unit {0})
record_auth_event event actor = writes (λ db. record db { audit = (event, actor) ∷ db.audit })

abbrev pub is_live_otp : Text → OtpPurpose → OtpRow → Bool
is_live_otp destination purpose o =
    text_eq o.destination destination
    && (purpose_eq o.purpose purpose && not (is_some o.consumed_at))

-- `findLiveOtp`
abbrev pub find_live_otp : Text → OtpPurpose → AuthDb → Option OtpRow
find_live_otp destination purpose db = first_where (is_live_otp destination purpose) db.otps

pub record OtpInput : Type 0 where
  pub user_id : Option ℕ
  pub destination : Text
  pub purpose : OtpPurpose
  pub code_hash : Text
  pub max_attempts : ℕ
  pub expires_at : ℕ

abbrev pub set_otps : (OtpRow → OtpRow) → ℕ → AuthDb → AuthDb
set_otps f id db = record db { otps = update_where (λ o. o.id == id) f db.otps }

abbrev pub resent : ℕ → OtpInput → OtpRow → OtpRow
resent now i o = record o {
  code_hash = i.code_hash;
  attempts = 0;
  expires_at = i.expires_at;
  sent_count = o.sent_count + 1;
  last_sent_at = now;
  user_id = elim i.user_id [ none ↦ o.user_id | some id ↦ some id ];
}

abbrev pub new_otp : ℕ → ℕ → OtpInput → OtpRow
new_otp fresh now i = record {
  id = fresh;
  user_id = i.user_id;
  destination = i.destination;
  purpose = i.purpose;
  code_hash = i.code_hash;
  attempts = 0;
  max_attempts = i.max_attempts;
  sent_count = 1;
  last_sent_at = now;
  expires_at = i.expires_at;
  consumed_at = none;
}

-- The INSERT of `upsertOtpChallenge`, behind the primary key.
unfoldable pub insert_otp : ℕ → ℕ → OtpInput → Call AuthDb (Unit {0})
insert_otp fresh now i = do
  raise_if (is_some (first_where (λ (o : OtpRow). o.id == fresh) (← reads (λ db. db.otps))))
      unique_violation
  writes (λ db. record db { otps = new_otp fresh now i ∷ db.otps })

-- `upsertOtpChallenge`. Its caller does not read the row that it returns.
unfoldable pub upsert_otp_challenge : ℕ → ℕ → OtpInput → Call AuthDb (Unit {0})
upsert_otp_challenge fresh now i db = elim (find_live_otp i.destination i.purpose db) [
  | some existing ↦ writes (set_otps (resent now i) existing.id) db
  | none ↦ insert_otp fresh now i db
]

abbrev pub tried : OtpRow → OtpRow
tried o = record o { attempts = o.attempts + 1 }

-- `incrementOtpAttempts`, with the CHECK `otp_attempts_within_limit`.
unfoldable pub increment_otp_attempts : ℕ → Call AuthDb ℕ
increment_otp_attempts id = do
  found ← reads (λ db. first_where (λ (o : OtpRow). o.id == id) db.otps)
  raise_if (elim found [ none ↦ false | some o ↦ leb o.max_attempts o.attempts ]) check_violation
  writes (set_otps tried id)
  return (elim found [ none ↦ 0 | some o ↦ o.attempts + 1 ])

abbrev pub consumed : ℕ → OtpRow → OtpRow
consumed now o = record o { consumed_at = some now }

-- `consumeOtp`
abbrev pub consume_otp : ℕ → ℕ → Call AuthDb (Unit {0})
consume_otp now id = writes (set_otps (consumed now) id)

abbrev pub burnt : ℕ → OtpRow → OtpRow
burnt now o = record o { consumed_at = some now; attempts = o.max_attempts }

-- `exhaustOtp`
abbrev pub exhaust_otp : ℕ → ℕ → Call AuthDb (Unit {0})
exhaust_otp now id = writes (set_otps (burnt now) id)
