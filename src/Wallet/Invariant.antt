-- ===== src/Wallet/Invariant.antt =====
-- What holds of the wallets' rows between two transactions, and that every movement keeps it.
use howlow.Prelude.{
  ◌+◌, ◌≡◌, ◌≢◌, Bool, true, Option, none, some, Text, List, [], ◌∷◌, ◌&&◌, not, All, length,
  has_text,
}
use howlow.Prelude.Int.{pos, ◌+ℤ◌, ◌≤ℤ◌}
use howlow.Wallet.Rows.{WalletRecord, WalletEntryRecord, WalletDb}
use howlow.Wallet.Repository.{entries_of, sum_amounts, find_wallet_by_id}

abbrev pub key_free : Option Text → List WalletEntryRecord → Bool
key_free none es = true
key_free (some k) [] = true
key_free (some k) (e ∷ es) = not (has_text k e.idempotency_key) && key_free (some k) es

-- One wallet's ledger, newest entry first: the sequence numbers run down to 1 without a gap, each entry
-- has the sum of the amounts up to it as its balance, no balance is below zero, and no idempotency key
-- stands on two entries.
abbrev pub Chain : List WalletEntryRecord → Type 0
Chain [] = Unit {0}
Chain (e ∷ es) =
    (e.seq ≡ length es + 1)
    × (e.balance_after_minor ≡ e.amount_minor +ℤ sum_amounts es)
    × (pos 0 ≤ℤ e.balance_after_minor)
    × (key_free e.idempotency_key es ≡ true)
    × Chain es

-- A wallet's row against its ledger.
pub record IsBacked (entries : List WalletEntryRecord) (w : WalletRecord) : Type 0 where
  pub chain : Chain (entries_of w.id entries)
  pub counted : w.version ≡ length (entries_of w.id entries)
  pub summed : w.available_minor ≡ sum_amounts (entries_of w.id entries)
  pub nonnegative : pos 0 ≤ℤ w.available_minor
  pub unreserved : w.reserved_minor ≡ pos 0

-- Every wallet is backed, and every entry belongs to a wallet that is there.
pub record IsValid (db : WalletDb) : Type 0 where
  pub backed : All (IsBacked db.entries) db.wallets
  pub owned : All (λ e. find_wallet_by_id e.wallet_id db ≢ none) db.entries
