-- ===== src/Wallet/Rows.antt =====
-- Rows of `wallets` and `wallet_entries` (apps/api/src/modules/wallet/types.ts), the entry types of
-- packages/shared/src/schemas/wallet.ts, and the tables together with the audit rows that are written
-- about wallets. `updated_at` and `created_at`, which nothing reads back, are left out.
use howlow.Prelude.{ℕ, Bool, true, false, Option, Text, List}
use howlow.Prelude.Int.{ℤ, pos, negsuc, ◌+ℤ◌}
use howlow.Shared.{Currency, Channel}

pub data WalletEntryType : Type 0 where
  deposit bid_fee_refund payment_refund admin_credit prize_payout : WalletEntryType
  withdrawal bid_fee auction_payment admin_debit seller_payout : WalletEntryType
  hold hold_release : WalletEntryType

pub WalletEntryType-discrete : Discrete WalletEntryType
WalletEntryType-discrete = hlevel

-- `WALLET_CREDIT_TYPES.includes(type)`
abbrev pub is_credit : WalletEntryType → Bool
is_credit deposit = true
is_credit bid_fee_refund = true
is_credit payment_refund = true
is_credit admin_credit = true
is_credit prize_payout = true
is_credit _ = false

-- `walletEntryDirection`: 1 or -1.
abbrev pub wallet_entry_direction : WalletEntryType → ℤ
wallet_entry_direction t = elim (is_credit t) [ true ↦ pos 1 | false ↦ negsuc 0 ]

-- `a.type === b.type`
abbrev pub entry_type_code : WalletEntryType → ℕ
entry_type_code deposit = 0
entry_type_code bid_fee_refund = 1
entry_type_code payment_refund = 2
entry_type_code admin_credit = 3
entry_type_code prize_payout = 4
entry_type_code withdrawal = 5
entry_type_code bid_fee = 6
entry_type_code auction_payment = 7
entry_type_code admin_debit = 8
entry_type_code seller_payout = 9
entry_type_code hold = 10
entry_type_code hold_release = 11

pub record WalletRecord : Type 0 where
  pub id : ℕ
  pub user_id : ℕ
  pub currency : Currency
  pub available_minor : ℤ
  pub reserved_minor : ℤ
  pub version : ℕ
  pub frozen_at : Option ℕ
  pub frozen_reason : Option Text

-- `toWallet` adds this field to the columns.
abbrev pub total_minor : WalletRecord → ℤ
total_minor w = w.available_minor +ℤ w.reserved_minor

pub record WalletEntryRecord : Type 0 where
  pub id : ℕ
  pub wallet_id : ℕ
  pub user_id : ℕ
  pub seq : ℕ
  pub type : WalletEntryType
  pub currency : Currency
  pub amount_minor : ℤ
  pub balance_after_minor : ℤ
  pub reference_type : Option Text
  pub reference_id : Option ℕ
  pub memo : Option Text
  pub idempotency_key : Option Text
  pub created_by : Option ℕ
  pub channel : Channel

pub record MovementInput : Type 0 where
  pub wallet_id : ℕ
  pub amount_minor : ℤ
  pub currency : Option Currency
  pub type : WalletEntryType
  pub reference_type : Option Text
  pub reference_id : Option ℕ
  pub memo : Option Text
  pub idempotency_key : Option Text
  pub actor_user_id : Option ℕ
  pub channel : Channel

pub record MovementResult : Type 0 where
  pub wallet_id : ℕ
  pub entry_id : ℕ
  pub amount_minor : ℤ
  pub balance_after_minor : ℤ
  pub currency : Currency
  pub replayed : Bool

-- `WALLET_EVENTS`
pub data WalletEvent : Type 0 where
  created credited debited refunded admin_credited admin_debited : WalletEvent
  frozen unfrozen reconciliation_failed : WalletEvent

-- The tables. The newest row of `entries` and of `events` stands first.
pub record WalletDb : Type 0 where
  pub wallets : List WalletRecord
  pub entries : List WalletEntryRecord
  pub events : List (WalletEvent × ℕ)
