-- ===== src/Wallet/Reconciliation/Sweep.antt =====
-- reconcileAllWallets of apps/api/src/modules/wallet/reconciliation.ts, and the statement listWalletIds of
-- walletRepository.ts that it pages by. The rounds of `for (;;)` are counted by fuel, and `none` is a loop
-- that has not ended. The times and the log lines of the result are left out.
mod Keyset
pub mod Complete
use howlow.Prelude.{
  ℕ, zero, suc, ◌+◌, Bool, true, false, Option, none, some, List, [], ◌∷◌, ◌++◌, map, ltb, leb, not,
  length, rows_where, if◌then◌else◌,
}
use howlow.Errors.{ok, Tx, pure, gets, ◌>>=◌}
use howlow.Wallet.Rows.{WalletRecord, WalletDb}
use howlow.Wallet.Reconciliation.{ReconciliationReport, reconcile_wallet}

unfoldable pub insert_id : ℕ → List ℕ → List ℕ
insert_id id [] = id ∷ []
insert_id id (x ∷ xs) = let rest = insert_id id xs in if leb id x then id ∷ x ∷ xs else x ∷ rest

-- ORDER BY id
unfoldable pub sort_ids : List ℕ → List ℕ
unfolding insert_id
sort_ids [] = []
sort_ids (id ∷ ids) = insert_id id (sort_ids ids)

abbrev pub ids_of : WalletDb → List ℕ
ids_of db = map (λ (w : WalletRecord). w.id) db.wallets

-- `$2::uuid IS NULL OR id > $2::uuid`
abbrev pub is_after : Option ℕ → ℕ → Bool
is_after none id = true
is_after (some a) id = ltb a id

-- LIMIT $1
unfoldable pub take : ℕ → List ℕ → List ℕ
take zero ids = []
take (suc n) [] = []
take (suc n) (id ∷ ids) = id ∷ take n ids

-- `listWalletIds`
unfoldable pub list_wallet_ids : ℕ → Option ℕ → WalletDb → List ℕ
list_wallet_ids limit after db = take limit (rows_where (is_after after) (sort_ids (ids_of db)))

pub record SweepResult : Type 0 where
  pub wallets_checked : ℕ
  pub inconsistent : List ReconciliationReport

abbrev pub count_report : SweepResult → ReconciliationReport → SweepResult
count_report s report = record {
  wallets_checked = s.wallets_checked + 1;
  inconsistent = if not report.consistent then s.inconsistent ++ report ∷ [] else s.inconsistent;
}

-- The loop over the ids of a page.
unfoldable pub check_each : List ℕ → SweepResult → Tx WalletDb SweepResult
check_each [] s = pure s
check_each (id ∷ ids) s = do report ← reconcile_wallet id; check_each ids (count_report s report)

-- `ids[ids.length - 1]`
unfoldable pub last_id : List ℕ → Option ℕ
last_id [] = none
last_id (id ∷ []) = some id
last_id (id ∷ next ∷ ids) = last_id (next ∷ ids)

abbrev pub is_empty : List ℕ → Bool
is_empty [] = true
is_empty (id ∷ ids) = false

unfoldable pub sweep_pages : ℕ → ℕ → Option ℕ → SweepResult → Tx WalletDb (Option SweepResult)
sweep_pages zero batch_size after s = pure none
sweep_pages (suc fuel) batch_size after s = do
  ids ← gets (list_wallet_ids batch_size after)
  let rest = sweep_pages fuel batch_size (last_id ids)
  if is_empty ids
      then pure (some s)
      else (do t ← check_each ids s; if ltb (length ids) batch_size then pure (some t) else rest t)

abbrev pub nothing_checked : SweepResult
nothing_checked = record { wallets_checked = 0; inconsistent = [] }

-- `reconcileAllWallets`
unfoldable pub reconcile_all_wallets : ℕ → ℕ → Tx WalletDb (Option SweepResult)
reconcile_all_wallets fuel batch_size = sweep_pages fuel batch_size none nothing_checked
