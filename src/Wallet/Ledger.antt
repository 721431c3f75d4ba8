-- ===== src/Wallet/Ledger.antt =====
-- apps/api/src/modules/wallet/ledger.ts: `applyMovement`, the only function that changes a balance.
pub mod Effect
pub mod Preserves
pub mod Retry
use howlow.Prelude.{
  ℕ, ◌+◌, Bool, true, false, Option, none, some, Text, ◌==◌, ◌&&◌, ◌||◌, not, is_some, text_eq,
  if◌then◌else◌,
}
use howlow.Prelude.Int.{ℤ, pos, negsuc, ◌+ℤ◌, ◌*ℤ◌, pos_part, neg_part, ltb_ℤ, ℤ_eq}
use howlow.Shared.{Currency, currency_eq}
use howlow.Errors.{
  AppError, wallet_not_found, wallet_frozen, invalid_amount, insufficient_funds,
  idempotency_conflict, currency_mismatch, Result, ok, err, Tx, pure, throw, throw_if, or_throw,
  gets, ◌>>=◌, ◌>>◌,
}
use howlow.Wallet.Rows.{
  WalletEntryType, hold, hold_release, admin_credit, admin_debit, bid_fee_refund, payment_refund,
  is_credit, wallet_entry_direction, entry_type_code, WalletRecord, WalletEntryRecord,
  MovementInput, MovementResult, WalletEvent, WalletDb,
}
use howlow.Wallet.Repository.{
  find_wallet_by_id, find_entry_by_idempotency_key, update_wallet_balance, insert_entry,
  record_wallet_event,
}

-- `assertPositiveMagnitude`
abbrev pub assert_positive_magnitude : ℤ → Tx WalletDb (Unit {0})
assert_positive_magnitude amount = throw_if (not (ltb_ℤ (pos 0) amount)) invalid_amount

abbrev pub is_hold : WalletEntryType → Bool
is_hold hold = true
is_hold hold_release = true
is_hold _ = false

-- `assertMovableType`
abbrev pub assert_movable_type : WalletEntryType → Tx WalletDb (Unit {0})
assert_movable_type t = throw_if (is_hold t) invalid_amount

-- `assertSameMovement`
abbrev pub same_movement : WalletEntryRecord → WalletEntryType → Currency → ℤ → Bool
same_movement stored t currency signed =
    entry_type_code stored.type == entry_type_code t
    && (currency_eq stored.currency currency && ℤ_eq stored.amount_minor signed)

abbrev pub differs : Option Currency → Currency → Bool
differs none currency = false
differs (some c) currency = not (currency_eq c currency)

-- `walletEventFor`
abbrev pub wallet_event_for : WalletEntryType → WalletEvent
wallet_event_for admin_credit = WalletEvent.admin_credited
wallet_event_for admin_debit = WalletEvent.admin_debited
wallet_event_for bid_fee_refund = WalletEvent.refunded
wallet_event_for payment_refund = WalletEvent.refunded
wallet_event_for t = if is_credit t then WalletEvent.credited else WalletEvent.debited

-- The entry under the request's idempotency key, where the request has one.
abbrev pub existing_entry : MovementInput → WalletDb → Option WalletEntryRecord
existing_entry input db = elim input.idempotency_key [
  | none ↦ none
  | some key ↦ find_entry_by_idempotency_key input.wallet_id key db
]

-- The answer to a request that was booked before.
unfoldable pub replay :
    MovementInput → WalletRecord → ℤ → WalletEntryRecord → Tx WalletDb MovementResult
replay input wallet signed existing = do
  throw_if (not (same_movement existing input.type wallet.currency signed)) idempotency_conflict
  pure (record {
    wallet_id = wallet.id;
    entry_id = existing.id;
    amount_minor = existing.amount_minor;
    balance_after_minor = existing.balance_after_minor;
    currency = existing.currency;
    replayed = true;
  })

abbrev pub new_entry : ℕ → MovementInput → WalletRecord → ℤ → WalletEntryRecord
new_entry entry_id input wallet signed = record {
  id = entry_id;
  wallet_id = wallet.id;
  user_id = wallet.user_id;
  seq = wallet.version + 1;
  type = input.type;
  currency = wallet.currency;
  amount_minor = signed;
  balance_after_minor = wallet.available_minor +ℤ signed;
  reference_type = input.reference_type;
  reference_id = input.reference_id;
  memo = input.memo;
  idempotency_key = input.idempotency_key;
  created_by = input.actor_user_id;
  channel = input.channel;
}

-- The freeze, the balance check, and the three writes.
unfoldable pub book : ℕ → MovementInput → WalletRecord → ℤ → Tx WalletDb MovementResult
book entry_id input wallet signed = do
  throw_if (not (is_credit input.type) && is_some wallet.frozen_at) wallet_frozen
  let balance_after = wallet.available_minor +ℤ signed
  throw_if (ltb_ℤ balance_after (pos 0)) insufficient_funds
  update_wallet_balance wallet.id balance_after
  entry ← insert_entry (new_entry entry_id input wallet signed)
  record_wallet_event (wallet_event_for input.type) wallet.id
  pure (record {
    wallet_id = wallet.id;
    entry_id = entry.id;
    amount_minor = signed;
    balance_after_minor = balance_after;
    currency = wallet.currency;
    replayed = false;
  })

unfoldable pub replay_or_book :
    ℕ → MovementInput → WalletRecord → ℤ → Option WalletEntryRecord → Tx WalletDb MovementResult
replay_or_book entry_id input wallet signed (some existing) = replay input wallet signed existing
replay_or_book entry_id input wallet signed none = book entry_id input wallet signed

-- `applyMovement`. `entry_id` is the new row's gen_random_uuid(), where a row is inserted.
unfoldable pub apply_movement : ℕ → MovementInput → Tx WalletDb MovementResult
apply_movement entry_id input = do
  assert_movable_type input.type
  assert_positive_magnitude input.amount_minor
  wallet ← or_throw wallet_not_found (← gets (find_wallet_by_id input.wallet_id))
  throw_if (differs input.currency wallet.currency) currency_mismatch
  let signed = wallet_entry_direction input.type *ℤ input.amount_minor
  replay_or_book entry_id input wallet signed (← gets (existing_entry input))

-- `lockWallet`
abbrev pub lock_wallet : ℕ → Tx WalletDb WalletRecord
lock_wallet wallet_id = do or_throw wallet_not_found (← gets (find_wallet_by_id wallet_id))
