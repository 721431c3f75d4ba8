-- ===== src/Wallet/Tests.antt =====
-- The wallet service on small histories.
use howlow.Prelude.{
  ℕ, ◌≡◌, refl, List, [], ◌∷◌, none, some, arith, true, rows_where, first_where, update_where,
}
use howlow.Prelude.Int.{ℤ, pos, ◌+ℤ◌, ◌-ℤ◌, ◌*ℤ◌}
use howlow.Shared.{etb, web}
use howlow.Errors.{ok, err, wallet_frozen, insufficient_funds}
use howlow.Wallet.Rows.{deposit, bid_fee, WalletRecord, MovementInput, WalletDb, WalletEvent}
use howlow.Wallet.Repository.{
  update_wallet_balance, insert_entry, find_wallet_by_id, ensure_wallet, sum_amounts,
}
use howlow.Wallet.Invariant.{IsValid}
use howlow.Wallet.Ledger.{apply_movement, replay_or_book, book, new_entry}
use howlow.Wallet.Ledger.Effect.{booked, booked_result}
use howlow.Wallet.Ledger.Preserves.{apply_movement-IsValid}
use howlow.Wallet.Ledger.Retry.{apply_movement_accepts, apply_movement-retry}
use howlow.Wallet.Service.{MovementRequest, move, get_wallet}
use howlow.Wallet.Service.Invariant.{Reach, here, next, moved, Reach-IsValid, no_rows}
use howlow.Wallet.Reconciliation.{report_on, reconcile_wallet, ReconciliationReport}
use howlow.Wallet.Reconciliation.Consistent.{Reach-reconciles}
use howlow.Wallet.Reconciliation.Sweep.{sort_ids, reconcile_all_wallets}
use howlow.Wallet.Reconciliation.Sweep.Complete.{reconcile_all_wallets_lem}

abbrev request : ℤ → ℕ → MovementRequest
request amount key = record {
  user_id = 21;
  amount_minor = amount;
  currency = none;
  reference_type = none;
  reference_id = none;
  memo = none;
  idempotency_key = some (key ∷ []);
  actor_user_id = none;
  channel = web;
}

abbrev opening : MovementInput
opening = record {
  wallet_id = 1;
  amount_minor = pos 500;
  currency = none;
  type = deposit;
  reference_type = none;
  reference_id = none;
  memo = none;
  idempotency_key = some (7 ∷ []);
  actor_user_id = none;
  channel = web;
}

abbrev wallet : WalletRecord
wallet = record {
  id = 1;
  user_id = 21;
  currency = etb;
  available_minor = pos 0;
  reserved_minor = pos 0;
  version = 0;
  frozen_at = none;
  frozen_reason = none;
}

abbrev one_wallet : WalletDb
one_wallet = record { wallets = wallet ∷ []; entries = []; events = [] }

one_wallet-IsValid : IsValid one_wallet
unfolding rows_where sum_amounts
one_wallet-IsValid = record {
  backed = (
    record {
      chain = tt;
      counted = refl;
      summed = refl;
      nonnegative = omega arith;
      unreserved = refl;
    },
    tt,
  );
  owned = tt;
}

abbrev funded : WalletDb
funded = booked 100 opening wallet one_wallet

opening_booked :
    apply_movement 100 opening one_wallet ≡ ok (booked_result 100 opening wallet, funded)
unfolding apply_movement replay_or_book book update_wallet_balance insert_entry first_where
    update_where ◌+ℤ◌ ◌*ℤ◌
opening_booked = refl

apply_movement-IsValid_example : IsValid funded
apply_movement-IsValid_example =
    apply_movement-IsValid 100 opening one_wallet funded (booked_result 100 opening wallet)
      one_wallet-IsValid opening_booked

apply_movement-retry_example :
    apply_movement 101 opening funded
    ≡ ok (record (booked_result 100 opening wallet) { replayed = true }, funded)
apply_movement-retry_example =
    apply_movement-retry 100 101 opening one_wallet funded (booked_result 100 opening wallet)
      (7 ∷ []) refl opening_booked

apply_movement_accepts_example :
    (after : WalletDb) × (apply_movement 100 opening one_wallet
      ≡ ok (booked_result 100 opening wallet, after))
    × (find_wallet_by_id 1 after ≡ some (record wallet { available_minor = pos 500; version = 1 }))
    × (find_wallet_by_id 2 after ≡ find_wallet_by_id 2 one_wallet)
    × (after.entries ≡ new_entry 100 opening wallet (pos 500) ∷ [])
unfolding first_where ◌+ℤ◌ ◌*ℤ◌
apply_movement_accepts_example =
    apply_movement_accepts 100 2 opening one_wallet wallet refl (omega arith) refl (omega arith)
      refl refl (λ e. refl) (omega arith) (omega arith) refl refl

-- A first deposit opens the wallet and books the entry.
abbrev deposited : WalletDb
deposited =
    booked 100 opening wallet
      (record { wallets = wallet ∷ []; entries = []; events = (WalletEvent.created, 1) ∷ [] })

first_deposit :
    move 1 100 deposit (request (pos 500) 7) no_rows
    ≡ ok (booked_result 100 opening wallet, deposited)
unfolding move get_wallet ensure_wallet apply_movement replay_or_book book update_wallet_balance
    insert_entry first_where update_where ◌+ℤ◌ ◌*ℤ◌
first_deposit = refl

deposited_reached : Reach no_rows deposited
unfolding first_where
deposited_reached = next here (
    moved 1 100 deposit (request (pos 500) 7) (booked_result 100 opening wallet) refl first_deposit)

Reach-IsValid_example : IsValid deposited
Reach-IsValid_example = Reach-IsValid deposited_reached

abbrev rich : WalletRecord
rich = record wallet { available_minor = pos 500; version = 1 }

Reach-reconciles_example :
    (report : ReconciliationReport) × (reconcile_wallet 1 deposited ≡ ok (report, deposited))
    × (report.consistent ≡ true)
    × (report.ledger_total_minor ≡ pos 500)
unfolding first_where update_where ◌+ℤ◌ ◌*ℤ◌
Reach-reconciles_example = Reach-reconciles rich 1 deposited_reached refl

-- A wallet whose row has lost its balance, beside one that agrees with its empty ledger.
abbrev drifted : WalletDb
drifted = record deposited { wallets = wallet ∷ record wallet { id = 2; user_id = 22 } ∷ [] }

reconcile_all_wallets_lem_example :
    (later : List (WalletEvent × ℕ)) × (reconcile_all_wallets 3 1 drifted
      ≡ ok (
        some (record {
          wallets_checked = 2;
          inconsistent = report_on wallet deposited.entries ∷ [];
        }),
        record drifted { events = later },
      ))
unfolding first_where rows_where update_where report_on sort_ids ◌+ℤ◌ ◌*ℤ◌ ◌-ℤ◌
reconcile_all_wallets_lem_example =
    reconcile_all_wallets_lem drifted 0 (((λ z. omega (arith, z)), tt), (tt, tt))

-- A debit that the balance does not cover, and a debit on a frozen wallet.
overdraft :
    apply_movement 102
      (record opening { type = bid_fee; amount_minor = pos 501; idempotency_key = none })
      funded
    ≡ err insufficient_funds
unfolding apply_movement replay_or_book book update_wallet_balance insert_entry first_where
    update_where ◌+ℤ◌ ◌*ℤ◌
overdraft = refl

frozen_debit :
    apply_movement 102
      (record opening { type = bid_fee })
      (record one_wallet { wallets = record rich { frozen_at = some 5 } ∷ [] })
    ≡ err wallet_frozen
unfolding apply_movement replay_or_book book update_wallet_balance insert_entry first_where
    update_where ◌+ℤ◌ ◌*ℤ◌
frozen_debit = refl
