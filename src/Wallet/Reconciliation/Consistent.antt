-- ===== src/Wallet/Reconciliation/Consistent.antt =====
-- The audit of a wallet whose row and ledger agree finds nothing.
use howlow.Prelude.{
  ℕ, ◌≤◌, ◌<◌, ◌≡◌, refl, sym, subst, ◌∙◌, ap, true, some, List, [], ◌∷◌, ◌==◌, arith, not, length,
  count_where, All-first_where, first_where_holds, ==_iff,
}
use howlow.Prelude.Int.{ℤ_eq, ℤ_eq_refl, pos, ◌-ℤ◌, int_laws, pos_part, neg_part}
use howlow.Errors.{ok}
use howlow.Wallet.Rows.{WalletRecord, WalletEntryRecord, WalletDb, total_minor}
use howlow.Wallet.Repository.{find_wallet_by_id, entries_of, sum_amounts}
use howlow.Wallet.Invariant.{IsValid, IsBacked, Chain}
use howlow.Wallet.Service.Invariant.{Reach, Reach-IsValid, no_rows}
use howlow.Wallet.Reconciliation.{
  running_at, count_running_balance_breaks, max_seq, count_sequence_gaps, report_on,
  reconcile_wallet, ReconciliationReport,
}

max_seq-Chain : (es : List WalletEntryRecord) → Chain es → max_seq es ≡ length es
unfolding max_seq
max_seq-Chain [] c = refl
max_seq-Chain (e ∷ es) c = ground (arith, max_seq-Chain es c.4, c.0)

running_all :
    (s : ℕ) (es : List WalletEntryRecord)
    → Chain es
    → length es ≤ s
    → running_at s es ≡ sum_amounts es
unfolding running_at sum_amounts
running_all s [] c h = refl
running_all s (e ∷ es) c h = ground (arith, running_all s es c.4, c.0)

running_later :
    (s : ℕ) (e : WalletEntryRecord) (es : List WalletEntryRecord)
    → s < e.seq
    → running_at s (e ∷ es) ≡ running_at s es
unfolding running_at
running_later s e es h = ground arith

no_breaks :
    (full sub : List WalletEntryRecord)
    → ((s : ℕ) → s ≤ length sub → running_at s full ≡ running_at s sub)
    → Chain sub
    → count_where (λ e. not (ℤ_eq e.balance_after_minor (running_at e.seq full))) sub ≡ 0
unfolding count_where
no_breaks full [] same c = refl
no_breaks full (e ∷ es) same c = ground (
  arith,
  head,
  ℤ_eq_refl e.balance_after_minor,
  no_breaks full es (λ s h. same s (omega arith) ∙ running_later s e es (omega (arith, c.0))) c.4,
)
  where
    summed : sum_amounts (e ∷ es) ≡ e.balance_after_minor
    summed = unfold sum_amounts in sym c.1

    head : running_at e.seq full ≡ e.balance_after_minor
    head =
        same e.seq (omega (arith, c.0)) ∙ running_all e.seq (e ∷ es) c (omega (arith, c.0)) ∙ summed

report-consistent :
    (w : WalletRecord) (entries : List WalletEntryRecord)
    → IsBacked entries w
    → (report_on w (entries_of w.id entries)).consistent ≡ true
unfolding report_on
report-consistent w entries b = rw (no_drift, unbroken, no_gaps)
  where
    es : List WalletEntryRecord
    es = entries_of w.id entries

    no_drift : sum_amounts es -ℤ total_minor w ≡ pos 0
    no_drift = omega (
      int_laws,
      ap pos_part b.summed,
      ap neg_part b.summed,
      ap pos_part b.unreserved,
      ap neg_part b.unreserved,
    )

    unbroken : count_running_balance_breaks es ≡ 0
    unbroken = unfold count_running_balance_breaks in no_breaks es es (λ s h. refl) b.chain

    no_gaps : count_sequence_gaps es ≡ pos 0
    no_gaps = unfold count_sequence_gaps in rw (max_seq-Chain es b.chain) (omega int_laws)

-- A wallet whose tables are valid reconciles: the report is consistent, and nothing is written.
pub reconcile_wallet-IsValid :
    (db : WalletDb) (w : WalletRecord) (id : ℕ)
    → IsValid db
    → find_wallet_by_id id db ≡ some w
    → (report : ReconciliationReport) × (reconcile_wallet id db ≡ ok (report, db))
      × (report.consistent ≡ true)
      × (report.ledger_total_minor ≡ w.available_minor)
unfolding reconcile_wallet
reconcile_wallet-IsValid db w id v found =
    let backed = All-first_where (IsBacked db.entries) _ db.wallets w v.backed found in
    let named : w.id ≡ id =
      (==_iff _ _).0 (first_where_holds (λ (u : WalletRecord). u.id == id) db.wallets w found) in
    let fine =
      subst (λ i. (report_on w (entries_of i db.entries)).consistent ≡ true) named
        (report-consistent w db.entries backed) in
    (report_on w (entries_of id db.entries), ground (arith, found, fine), fine, total named backed)
  where
    total :
        w.id ≡ id
        → IsBacked db.entries w
        → (report_on w (entries_of id db.entries)).ledger_total_minor ≡ w.available_minor
    total named b =
        unfold report_on in
        rw b.summed (ap (λ i. sum_amounts (entries_of i db.entries)) (sym named))

-- In any history of the service every wallet reconciles.
pub Reach-reconciles :
    {db : WalletDb} (w : WalletRecord) (id : ℕ)
    → Reach no_rows db
    → find_wallet_by_id id db ≡ some w
    → (report : ReconciliationReport) × (reconcile_wallet id db ≡ ok (report, db))
      × (report.consistent ≡ true)
      × (report.ledger_total_minor ≡ w.available_minor)
Reach-reconciles w id r found = reconcile_wallet-IsValid _ w id (Reach-IsValid r) found
