-- ===== src/Wallet/Repository.antt =====
-- The statements of apps/api/src/modules/wallet/walletRepository.ts, over the tables as lists.
use howlow.Prelude.{
  ℕ, ◌+◌, Bool, true, false, Option, none, some, Text, List, [], ◌∷◌, ◌==◌, ◌&&◌, ◌||◌, leb, not,
  has_text, is_some, rows_where, first_where, update_where,
}
use howlow.Prelude.Int.{ℤ, pos, ◌+ℤ◌, pos_part}
use howlow.Shared.{Currency, currency_eq}
use howlow.Errors.{out_of_range, check_violation, ok, pure, Tx, modify, throw_if, ◌>>◌}
use howlow.Wallet.Rows.{WalletRecord, WalletEntryRecord, WalletEvent, WalletDb}

-- One more than the largest BIGINT.
abbrev pub bigint_limit : ℕ
bigint_limit = 9_223_372_036_854_775_808

abbrev pub belongs_to : ℕ → Currency → WalletRecord → Bool
belongs_to user_id currency w = w.user_id == user_id && currency_eq w.currency currency

-- `findWalletById`, and `lockWalletById`: the row lock has no effect on one transaction by itself.
abbrev pub find_wallet_by_id : ℕ → WalletDb → Option WalletRecord
find_wallet_by_id id db = first_where (λ w. w.id == id) db.wallets

abbrev pub find_wallet_by_user_id : ℕ → Currency → WalletDb → Option WalletRecord
find_wallet_by_user_id user_id currency db = first_where (belongs_to user_id currency) db.wallets

abbrev pub new_wallet : ℕ → ℕ → Currency → WalletRecord
new_wallet id user_id currency = record {
  id = id;
  user_id = user_id;
  currency = currency;
  available_minor = pos 0;
  reserved_minor = pos 0;
  version = 0;
  frozen_at = none;
  frozen_reason = none;
}

-- `ensureWallet`: the wallet, and whether the insert made it. `fresh` is the row's gen_random_uuid().
unfoldable pub ensure_wallet : ℕ → ℕ → Currency → Tx WalletDb (WalletRecord × Bool)
ensure_wallet fresh user_id currency db = elim (find_wallet_by_user_id user_id currency db) [
  | some w ↦ ok ((w, false), db)
  | none ↦ ok (
    (new_wallet fresh user_id currency, true),
    record db { wallets = new_wallet fresh user_id currency ∷ db.wallets },
  )
]

abbrev pub with_balance : ℤ → WalletRecord → WalletRecord
with_balance available w = record w { available_minor = available; version = w.version + 1 }

-- `updateWalletBalance`. The column is a BIGINT.
unfoldable pub update_wallet_balance : ℕ → ℤ → Tx WalletDb (Unit {0})
update_wallet_balance id available = do
  throw_if (leb bigint_limit (pos_part available)) out_of_range
  modify (λ db. record db {
    wallets = update_where (λ w. w.id == id) (with_balance available) db.wallets;
  })

abbrev pub has_key : ℕ → Text → WalletEntryRecord → Bool
has_key wallet_id key e = e.wallet_id == wallet_id && has_text key e.idempotency_key

-- `findEntryByIdempotencyKey`
abbrev pub find_entry_by_idempotency_key : ℕ → Text → WalletDb → Option WalletEntryRecord
find_entry_by_idempotency_key wallet_id key db = first_where (has_key wallet_id key) db.entries

-- The CHECK `wallet_entries_reference_complete`: (reference_type IS NULL) = (reference_id IS NULL).
abbrev pub reference_complete : Option Text → Option ℕ → Bool
reference_complete none none = true
reference_complete none (some id) = false
reference_complete (some t) none = false
reference_complete (some t) (some id) = true

-- `length(btrim(memo)) > 0`: some character is not a space.
pub has_non_space : Text → Bool
has_non_space [] = false
has_non_space (c ∷ cs) = not (c == 0x20) || has_non_space cs

-- The CHECK `wallet_entries_memo_not_blank`.
abbrev pub memo_not_blank : Option Text → Bool
memo_not_blank none = true
memo_not_blank (some memo) = has_non_space memo

-- `insertEntry`, with the two CHECKs of the table that the columns of a request can fail.
unfoldable pub insert_entry : WalletEntryRecord → Tx WalletDb WalletEntryRecord
unfolding has_non_space
insert_entry e = do
  throw_if (not (reference_complete e.reference_type e.reference_id)) check_violation
  throw_if (not (memo_not_blank e.memo)) check_violation
  modify (λ db. record db { entries = e ∷ db.entries })
  pure e

-- `recordWalletEvent`
abbrev pub record_wallet_event : WalletEvent → ℕ → Tx WalletDb (Unit {0})
record_wallet_event event wallet_id =
    modify (λ db. record db { events = (event, wallet_id) ∷ db.events })

abbrev pub freeze_row : ℕ → Text → WalletRecord → WalletRecord
freeze_row now reason w = record w { frozen_at = some now; frozen_reason = some reason }

-- `setFrozen`
unfoldable pub set_frozen : ℕ → Text → ℕ → Tx WalletDb (Unit {0})
set_frozen id reason now = modify (λ db. record db {
  wallets =
      update_where (λ w. w.id == id && not (is_some w.frozen_at)) (freeze_row now reason)
        db.wallets;
})

abbrev pub thaw_row : WalletRecord → WalletRecord
thaw_row w = record w { frozen_at = none; frozen_reason = none }

-- `clearFrozen`
unfoldable pub clear_frozen : ℕ → Tx WalletDb (Unit {0})
clear_frozen id =
    modify (λ db. record db { wallets = update_where (λ w. w.id == id) thaw_row db.wallets })

-- `FROM wallet_entries WHERE wallet_id = $1`
abbrev pub entries_of : ℕ → List WalletEntryRecord → List WalletEntryRecord
entries_of wallet_id = rows_where (λ e. e.wallet_id == wallet_id)

-- `SUM(amount_minor)`
unfoldable pub sum_amounts : List WalletEntryRecord → ℤ
sum_amounts [] = pos 0
sum_amounts (e ∷ es) = e.amount_minor +ℤ sum_amounts es
