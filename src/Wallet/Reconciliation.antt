-- ===== src/Wallet/Reconciliation.antt =====
-- apps/api/src/modules/wallet/reconciliation.ts, with the three audits of walletRepository.ts that it
-- asks for.
pub mod Consistent
pub mod Sweep
use howlow.Prelude.{
  ℕ, ◌+◌, ◌-◌, Bool, List, [], ◌∷◌, ◌==◌, ◌&&◌, leb, ltb, not, length, rows_where, count_where,
  if◌then◌else◌,
}
use howlow.Prelude.Int.{ℤ_eq, ℤ_eq_refl, ℤ, pos, ◌+ℤ◌, ◌-ℤ◌}
use howlow.Errors.{wallet_not_found, Result, ok, err, Tx, pure, gets, or_throw, ◌>>=◌, ◌>>◌}
use howlow.Wallet.Rows.{WalletRecord, WalletEntryRecord, WalletEvent, WalletDb, total_minor}
use howlow.Wallet.Repository.{find_wallet_by_id, entries_of, sum_amounts, record_wallet_event}

-- `SUM(amount_minor) OVER (ORDER BY seq)` at the row with the number `seq`. Sequence numbers are unique
-- in a wallet, so the frame of rows up to this one is the rows with no greater number.
running_at : ℕ → List WalletEntryRecord → ℤ
unfolding sum_amounts rows_where
running_at seq es = sum_amounts (rows_where (λ e. leb e.seq seq) es)

-- `countRunningBalanceBreaks`
count_running_balance_breaks : List WalletEntryRecord → ℕ
unfolding running_at count_where
count_running_balance_breaks es =
    count_where (λ e. not (ℤ_eq e.balance_after_minor (running_at e.seq es))) es

-- `MAX(seq)`, or 0 where there is no row.
max_seq : List WalletEntryRecord → ℕ
max_seq [] = 0
max_seq (e ∷ es) = let m = max_seq es in if leb m e.seq then e.seq else m

-- `countSequenceGaps`: MAX(seq) - COUNT(*), a signed difference.
count_sequence_gaps : List WalletEntryRecord → ℤ
unfolding max_seq
count_sequence_gaps es = pos (max_seq es) -ℤ pos (length es)

pub record ReconciliationReport : Type 0 where
  pub consistent : Bool
  pub cached_total_minor : ℤ
  pub ledger_total_minor : ℤ
  pub drift_minor : ℤ
  pub entry_count : ℕ
  pub running_balance_breaks : ℕ
  pub sequence_gaps : ℤ

unfoldable pub report_on : WalletRecord → List WalletEntryRecord → ReconciliationReport
unfolding count_running_balance_breaks count_sequence_gaps sum_amounts
report_on w es = record {
  consistent = ℤ_eq drift (pos 0) && (breaks == 0 && ℤ_eq gaps (pos 0));
  cached_total_minor = total_minor w;
  ledger_total_minor = sum_amounts es;
  drift_minor = drift;
  entry_count = length es;
  running_balance_breaks = breaks;
  sequence_gaps = gaps;
}
  where
    drift : ℤ
    drift = sum_amounts es -ℤ total_minor w

    breaks : ℕ
    breaks = count_running_balance_breaks es

    gaps : ℤ
    gaps = count_sequence_gaps es

-- `reconcileWallet`
unfoldable pub reconcile_wallet : ℕ → Tx WalletDb ReconciliationReport
reconcile_wallet wallet_id = do
  wallet ← or_throw wallet_not_found (← gets (find_wallet_by_id wallet_id))
  es ← gets (λ db. entries_of wallet_id db.entries)
  let report = report_on wallet es
  if report.consistent
      then pure report
      else record_wallet_event WalletEvent.reconciliation_failed wallet_id >> pure report
