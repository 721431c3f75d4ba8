-- ===== src/Wallet/Service.antt =====
-- apps/api/src/modules/wallet/walletService.ts: the callers of the ledger. What `loadRoles` reads is
-- the argument `roles`, the roles of each user; the uuids of new rows and the clock are arguments too.
pub mod Invariant
pub mod Keyed
use howlow.Prelude.{
  ℕ, ◌+◌, Bool, true, false, Option, none, some, Text, List, [], ◌∷◌, not, or_else, is_some, ◌==◌,
  if◌then◌else◌, leb, ◌&&◌, ◌||◌,
}
use howlow.Prelude.Int.{ℤ}
use howlow.Shared.{Currency, etb, Channel}
use howlow.Auth.{Role, finance, support_agent, admin, has_any_role}
use howlow.Errors.{
  AppError, unauthorized_wallet_operation, wallet_not_found, invalid_amount, Result, ok, err, Tx,
  pure, gets, throw_if, or_throw, ◌>>=◌, ◌>>◌,
}
use howlow.Wallet.Rows.{
  WalletEntryType, deposit, admin_credit, admin_debit, bid_fee_refund, WalletEvent, WalletRecord,
  WalletDb, MovementInput, MovementResult,
}
use howlow.Wallet.Repository.{
  ensure_wallet, find_wallet_by_id, find_wallet_by_user_id, record_wallet_event, set_frozen,
  clear_frozen,
}
use howlow.Wallet.Ledger.{apply_movement}

abbrev pub default_currency : Currency
default_currency = etb

abbrev finance_roles : List Role
finance_roles = finance ∷ admin ∷ []

abbrev audit_roles : List Role
audit_roles = finance ∷ support_agent ∷ admin ∷ []

-- `assertActorRole`
abbrev pub assert_actor_role : List Role → List Role → Tx WalletDb (Unit {0})
assert_actor_role roles allowed =
    throw_if (not (has_any_role roles allowed)) unauthorized_wallet_operation

-- `getWallet`
unfoldable pub get_wallet : ℕ → ℕ → Currency → Tx WalletDb WalletRecord
get_wallet fresh user_id currency db = elim (ensure_wallet fresh user_id currency db) [
  | err e ↦ err e
  | ok (found, t) ↦
      (if found.1
          then record_wallet_event WalletEvent.created found.0.id >> pure found.0
          else pure found.0)
        t
]

-- `MovementRequest`
pub record MovementRequest : Type 0 where
  pub user_id : ℕ
  pub amount_minor : ℤ
  pub currency : Option Currency
  pub reference_type : Option Text
  pub reference_id : Option ℕ
  pub memo : Option Text
  pub idempotency_key : Option Text
  pub actor_user_id : Option ℕ
  pub channel : Channel

abbrev pub input_for : WalletEntryType → MovementRequest → WalletRecord → MovementInput
input_for t r w = record {
  wallet_id = w.id;
  amount_minor = r.amount_minor;
  currency = r.currency;
  type = t;
  reference_type = r.reference_type;
  reference_id = r.reference_id;
  memo = r.memo;
  idempotency_key = r.idempotency_key;
  actor_user_id = r.actor_user_id;
  channel = r.channel;
}

-- `move`, inside the caller's transaction; `credit`, `debit` and `refund` are this function at the
-- entry types that their signatures allow. `fresh` is the wallet's uuid and `entry_id` the entry's.
unfoldable pub move : ℕ → ℕ → WalletEntryType → MovementRequest → Tx WalletDb MovementResult
move fresh entry_id t request = do
  wallet ← get_wallet fresh request.user_id (or_else request.currency default_currency)
  apply_movement entry_id (input_for t request wallet)

-- `AdminAdjustment`
pub record AdminAdjustment : Type 0 where
  pub wallet_id : ℕ
  pub amount_minor : ℤ
  pub currency : Option Currency
  pub reason : Text
  pub reference_type : Option Text
  pub reference_id : Option ℕ
  pub idempotency_key : Option Text
  pub actor_user_id : ℕ
  pub channel : Channel

abbrev pub adjustment_input : WalletEntryType → AdminAdjustment → WalletRecord → MovementInput
adjustment_input t a w = record {
  wallet_id = w.id;
  amount_minor = a.amount_minor;
  currency = a.currency;
  type = t;
  reference_type = a.reference_type;
  reference_id = a.reference_id;
  memo = some a.reason;
  idempotency_key = a.idempotency_key;
  actor_user_id = some a.actor_user_id;
  channel = a.channel;
}

-- The white space and line ends that `trim` takes off (ECMA-262, WhiteSpace and LineTerminator).
abbrev is_space : ℕ → Bool
is_space c =
    (leb 0x9 c && leb c 0xd)
    || c == 0x20
    || c == 0xa0
    || c == 0x1680
    || (leb 0x2000 c && leb c 0x200a)
    || c == 0x2028
    || c == 0x2029
    || c == 0x202f
    || c == 0x205f
    || c == 0x3000
    || c == 0xfeff

-- `reason.trim().length === 0`
is_blank : Text → Bool
is_blank [] = true
is_blank (c ∷ cs) = is_space c && is_blank cs

-- `adminAdjust`, which `adminCredit` and `adminDebit` call with their entry types.
unfoldable pub admin_adjust :
    List Role → ℕ → WalletEntryType → AdminAdjustment → Tx WalletDb MovementResult
unfolding is_blank
admin_adjust roles entry_id t a = do
  assert_actor_role roles finance_roles
  throw_if (is_blank a.reason) invalid_amount
  wallet ← or_throw wallet_not_found (← gets (find_wallet_by_id a.wallet_id))
  apply_movement entry_id (adjustment_input t a wallet)

freeze_if_thawed : ℕ → Text → WalletRecord → Tx WalletDb WalletRecord
freeze_if_thawed now reason wallet = if is_some wallet.frozen_at then pure wallet else (do
  set_frozen wallet.id reason now
  record_wallet_event WalletEvent.frozen wallet.id
  frozen ← gets (find_wallet_by_id wallet.id)
  pure (or_else frozen wallet))

-- `freezeWallet`
unfoldable pub freeze_wallet : List Role → ℕ → ℕ → Text → Tx WalletDb WalletRecord
unfolding freeze_if_thawed
freeze_wallet roles now wallet_id reason = do
  assert_actor_role roles finance_roles
  wallet ← or_throw wallet_not_found (← gets (find_wallet_by_id wallet_id))
  freeze_if_thawed now reason wallet

thaw_if_frozen : WalletRecord → Tx WalletDb WalletRecord
thaw_if_frozen wallet =
    if is_some wallet.frozen_at
    then (do
      clear_frozen wallet.id
      record_wallet_event WalletEvent.unfrozen wallet.id
      thawed ← gets (find_wallet_by_id wallet.id)
      pure (or_else thawed wallet))
    else pure wallet

-- `unfreezeWallet`
unfoldable pub unfreeze_wallet : List Role → ℕ → Tx WalletDb WalletRecord
unfolding thaw_if_frozen
unfreeze_wallet roles wallet_id = do
  assert_actor_role roles finance_roles
  wallet ← or_throw wallet_not_found (← gets (find_wallet_by_id wallet_id))
  thaw_if_frozen wallet

-- `resolveWalletForAdmin`
unfoldable pub resolve_wallet_for_admin : List Role → ℕ → Currency → Tx WalletDb WalletRecord
resolve_wallet_for_admin roles public_id currency = do
  assert_actor_role roles audit_roles
  by_wallet_id ← gets (find_wallet_by_id public_id)
  by_user_id ← gets (find_wallet_by_user_id public_id currency)
  or_throw wallet_not_found (elim by_wallet_id [ some w ↦ some w | none ↦ by_user_id ])
