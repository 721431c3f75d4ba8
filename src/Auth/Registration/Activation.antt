-- ===== src/Auth/Registration/Activation.antt =====
-- Registering an account that is there, and verifying its phone.
use howlow.Prelude.{
  ℕ, ◌<◌, ◌≡◌, ◌∙◌, refl, Bool, false, none, some, Text, ◌∷◌, ◌==◌, ==_refl, Keyed, All-first_where,
  first_where, first_where_stronger, first_where-update_where, Option-cases, inl, inr, arith,
}
use howlow.Errors.{ok}
use howlow.Shared.{Channel, Currency}
use howlow.Wallet.Rows.{WalletRecord, WalletEvent, WalletDb}
use howlow.Auth.Rows.{
  UserRow, OtpPurpose, OtpRow, active, is_active_status, AuthEvent, session_created, AuthDb,
}
use howlow.Auth.Repository.{
  find_user_by_phone, find_user_by_id, find_live_otp, has_user_id, NewUser, activated, set_users,
  get_user_roles, new_otp, set_otps, consumed,
}
use howlow.Auth.Calls.{in_transaction}
use howlow.Auth.Otp.{Sending, OtpDispatch, otp_input, otp_expires_at}
use howlow.Auth.Otp.Accepted.{
  with_new_otp, sent, dispatch_otp_first, find_live_otp-sent, verify_otp_right,
}
use howlow.Auth.Sessions.{
  Crypto, SessionSeed, NewSession, new_session, IssuedSession, issued, session_clashes,
  create_session, issue_session,
}
use howlow.Auth.Accounts.{PublicUser, to_public_user}
use howlow.Auth.Registration.{
  register, register_within, verify_phone, open_wallet, activate_and_enter,
}
use howlow.Wallet.Service.{get_wallet, default_currency}
use howlow.Wallet.Repository.{new_wallet, ensure_wallet, find_wallet_by_user_id}

module _ (db : AuthDb) (u : UserRow) (keyed : Keyed (λ (v : UserRow). v.id) db.users) where
  -- A user whom a query finds is the one with its id.
  pub own_row :
      (p : UserRow → Bool)
      → first_where p db.users ≡ some u
      → first_where (λ (v : UserRow). v.id == u.id) db.users ≡ some u
  own_row p found = All-first_where _ p db.users u keyed found

  find_activated :
      (now : ℕ)
      → first_where (λ (v : UserRow). v.id == u.id) db.users ≡ some u
      → find_user_by_id u.id (set_users (activated now) u.id db) ≡ some (activated now u)
  find_activated now own =
      first_where_stronger (λ (v : UserRow). v.id == u.id) (has_user_id u.id)
        (set_users (activated now) u.id db).users (activated now u) (λ b t. ground arith)
        (first_where-update_where (λ (v : UserRow). v.id == u.id) (λ (v : UserRow). v.id == u.id)
            (activated now) db.users u (λ b. refl) own
          ∙ rw (==_refl u.id) refl)
        (rw (==_refl u.id) refl)

module _ (k : Crypto) (s : Sending) (seed : SessionSeed) (i : NewUser) (u : UserRow)
    (db : AuthDb) where
  register_known :
      (fresh : ℕ)
      → find_user_by_phone i.phone db ≡ some u
      → is_active_status u.status ≡ false
      → find_live_otp i.phone OtpPurpose.phone_verify db ≡ none
      → first_where (λ (o : OtpRow). o.id == s.fresh) db.otps ≡ none
      → register k.sha256 s none fresh i db
        ≡ (ok (sent s), with_new_otp k.sha256 s (some u.id) i.phone OtpPurpose.phone_verify db)
  unfolding register register_within in_transaction
  register_known fresh known idle quiet new =
      rw
        (
          known,
          idle,
          dispatch_otp_first k.sha256 i.phone OtpPurpose.phone_verify db s (some u.id) quiet new,
        )
        refl

get_wallet_opens :
    (fresh user_id : ℕ) (c : Currency) (db : WalletDb)
    → (w : WalletRecord) × (t : WalletDb) × (get_wallet fresh user_id c db ≡ ok (w, t))
unfolding get_wallet ensure_wallet
get_wallet_opens fresh user_id c db = elim (Option-cases (find_wallet_by_user_id user_id c db)) [
  | inl gone ↦ (
    new_wallet fresh user_id c,
    record db {
      wallets = new_wallet fresh user_id c ∷ db.wallets;
      events = (WalletEvent.created, fresh) ∷ db.events;
    },
    rw (gone, get_wallet, ensure_wallet) refl,
  )
  | inr (w, found) ↦ (w, db, rw (found, get_wallet, ensure_wallet) refl)
]

-- Opening a wallet does not fail.
open_wallet_opens :
    (fresh user_id : ℕ) (db : AuthDb)
    → (t : WalletDb) × (open_wallet fresh user_id db ≡ (ok tt, record db { wallet = t }))
unfolding open_wallet
open_wallet_opens fresh user_id db =
    let (w, t, e) = get_wallet_opens fresh user_id default_currency db.wallet in
    (t, rw (e, open_wallet) refl)

abbrev first_login : Crypto → SessionSeed → ℕ → Channel → NewSession
first_login k seed user_id channel = record {
  user_id = user_id;
  family_id = none;
  refresh_token_hash = k.sha256 seed.refresh_token;
  channel = channel;
}

module _ (k : Crypto) (seed : SessionSeed) (channel : Channel) (u : UserRow) (db : AuthDb) where
  abbrev entered : PublicUser × IssuedSession
  entered =
      let roles = get_user_roles u.id db in
      (
        to_public_user (activated seed.now u) roles,
        issued k seed roles (new_session seed (first_login k seed u.id channel)),
      )

  abbrev after_entry : WalletDb → AuthDb
  after_entry t = record db {
    users = (set_users (activated seed.now) u.id db).users;
    sessions = new_session seed (first_login k seed u.id channel) ∷ db.sessions;
    audit = (session_created, some u.id) ∷ (AuthEvent.phone_verified, some u.id) ∷ db.audit;
    wallet = t;
  }

  activate_and_enter_lem :
      (fresh_wallet : ℕ) (phone : Text)
      → Keyed (λ (v : UserRow). v.id) db.users
      → find_user_by_phone phone db ≡ some u
      → first_where (session_clashes seed.id (k.sha256 seed.refresh_token)) db.sessions ≡ none
      → (t : WalletDb) × (activate_and_enter k seed fresh_wallet phone channel db
          ≡ (ok entered, after_entry t))
  unfolding activate_and_enter issue_session create_session get_user_roles
  activate_and_enter_lem fresh_wallet phone keyed known free =
      let again = find_activated db u keyed seed.now (own_row db u keyed _ known) in
      let mid : AuthDb = record db {
        users = (set_users (activated seed.now) u.id db).users;
        audit = (AuthEvent.phone_verified, some u.id) ∷ db.audit;
      } in
      let (t, opened) = open_wallet_opens fresh_wallet u.id mid in
      (t, rw (known, opened, again, free) refl)

-- An account that is there and not active, pending or suspended, is sent a code when it is registered
-- again, and with that code, before it expires, verifyPhone answers with an active user and a session, and
-- the account is active afterwards. No code was out for the phone, the limiter lets both calls pass, new
-- ids and the new token are new, and the ids of users are a primary key.
pub register-verify_phone :
    (k : Crypto) (s : Sending) (seed : SessionSeed) (fresh fresh_wallet : ℕ) (i : NewUser)
    (channel : Channel) (u : UserRow) (db : AuthDb)
    → Keyed (λ (v : UserRow). v.id) db.users
    → find_user_by_phone i.phone db ≡ some u
    → is_active_status u.status ≡ false
    → find_live_otp i.phone OtpPurpose.phone_verify db ≡ none
    → first_where (λ (o : OtpRow). o.id == s.fresh) db.otps ≡ none
    → first_where (session_clashes seed.id (k.sha256 seed.refresh_token)) db.sessions ≡ none
    → seed.now < otp_expires_at s.now
    → (sending : OtpDispatch) × (mid db' : AuthDb) × (v : PublicUser × IssuedSession) × (register
          k.sha256 s none fresh i db
        ≡ (ok sending, mid))
      × (verify_phone k seed none fresh_wallet i.phone s.code channel mid ≡ (ok v, db'))
      × (v.0.status ≡ active)
      × (find_user_by_id u.id db' ≡ some (activated seed.now u))
unfolding verify_phone in_transaction
register-verify_phone k s seed fresh fresh_wallet i channel u db keyed known idle quiet new free
      soon =
    let mid = with_new_otp k.sha256 s (some u.id) i.phone OtpPurpose.phone_verify db in
    let c =
      new_otp s.fresh s.now (otp_input k.sha256 s (some u.id) i.phone OtpPurpose.phone_verify) in
    let verified =
      verify_otp_right k.sha256 i.phone OtpPurpose.phone_verify mid seed.now s.code c
        (find_live_otp-sent k.sha256 i.phone OtpPurpose.phone_verify db s (some u.id)) soon
        (omega arith) refl in
    let spent = set_otps (consumed seed.now) s.fresh mid in
    let (t, e) =
      activate_and_enter_lem k seed channel u spent fresh_wallet i.phone keyed known free in
    (
      sent s,
      mid,
      after_entry k seed channel u spent t,
      entered k seed channel u spent,
      register_known k s seed i u db fresh known idle quiet new,
      rw (verified, e) refl,
      refl,
      find_activated db u keyed seed.now (own_row db u keyed _ known),
    )
