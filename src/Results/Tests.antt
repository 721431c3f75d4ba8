-- ===== src/Results/Tests.antt =====
-- The lamp from the end of its bidding to the published result, and after.
use howlow.Prelude.{
  ◌+◌, ◌≡◌, ◌⊎◌, inl, refl, true, false, none, some, [], ◌∷◌, arith, first_where, update_where,
  rows_where, text_eq, count_where,
}
use howlow.Prelude.Int.{pos, ◌+ℤ◌, ◌*ℤ◌}
use howlow.Shared.{etb, usd, system}
use howlow.Errors.{ok}
use howlow.Wallet.Rows.{MovementResult, WalletDb}
use howlow.Wallet.Repository.{ensure_wallet, update_wallet_balance, insert_entry}
use howlow.Wallet.Ledger.{apply_movement, replay_or_book, book}
use howlow.Wallet.Service.{get_wallet, move}
use howlow.Catalog.Inventory.{sum_held}
use howlow.Catalog.Inventory.Invariant
use howlow.Auctions.Transitions.{closing, calculating, completed}
use howlow.Auctions.Rows.{AuctionRecord, find_auction, apply_transition}
use howlow.Auctions.Lifecycle.{
  begin_transition, continue_with, complete, complete_begun, transition, settle,
}
use howlow.Orders.{create_winner_order, insert_auction_order, insert_or_find, audit_created}
use howlow.Results.Lub.{calculate_lub_v1, count_frozen_bids}
use howlow.Results.Checksum.{checksum_frozen_bids}
use howlow.Results.Rows.{ResultDb, find_result}
use howlow.Results.Repository.{
  ParticipantFees, list_fee_payers, sort_by_user, insert_result, outcome_fits, counts_fit,
  winner_fits,
}
use howlow.Results.Close.{
  Decision, decide, load_closable, settle_decision, apply_consequences, owe_order, audit_decision,
  complete_open,
}
use howlow.Results.Close.Checks.{Positive}
use howlow.Results.Close.Again.{decide-again}
use howlow.Results.Close.Verdict.{IsPulled, IsWon, IsUnsold, decide_cases}
use howlow.Results.Refunds.{
  RefundSeeds, refund_payer, refund_idempotency_key, refund_participation_fees, refund_each,
}
use howlow.Results.Trust.History.{here, next, refunds, decides}
use howlow.Results.Trust.Stands.{Later-verify_result}
use howlow.Auctions.Lifecycle.Orderly.{IsOrderly}
use howlow.Results.Refunds.Wallets.{refund_payer-etb}
use howlow.Results.Verify.{verify_result, report_on}
use howlow.Results.Verify.Published.{verify_result-decide}
use howlow.Results.Workflow.{CloseOutcome, close_auction}
use howlow.Results.Workflow.Progress.{IsUndecided}
use howlow.Results.Workflow.Liveness.{close_auction-decides}
use howlow.Results.Lamp.{lamp, counted, pg, seeds, later, no_decision, value, decided}

decided_runs : (decide pg seeds 10 (counted calculating) ≡ ok decided) × (decided.0.inserted ≡ true)
unfolding decide load_closable insert_result outcome_fits counts_fit winner_fits settle_decision
    apply_consequences owe_order audit_decision complete_open create_winner_order
    insert_auction_order insert_or_find audit_created complete begin_transition continue_with
    complete_begun transition settle apply_transition first_where update_where rows_where
    count_where calculate_lub_v1 count_frozen_bids checksum_frozen_bids
decided_runs = (refl, refl)

stock-IsValid : Invariant.IsValid (counted calculating).tables.auctions.inventory
unfolding sum_held first_where
stock-IsValid = record {
  keyed = (refl, tt);
  distinct = (refl, λ e. refl, tt);
  counted = (record { cached = refl; stocked = omega arith }, tt);
}

decide-again_example :
    (b : AuctionRecord) × (find_auction 10 decided.1.tables.auctions.auctions ≡ some b)
    × (decide pg later 10 decided.1
        ≡ ok (
          record {
            auction = b;
            result = decided.0.result;
            order = decided.0.order;
            inserted = false;
          },
          decided.1,
        ))
decide-again_example =
    decide-again pg seeds later 10 (counted calculating) decided.1 decided.0 stock-IsValid
      decided_runs.0

decide_cases_example :
    IsPulled decided.0 decided.1
    ⊎ (IsWon decided.0 (counted calculating).tables.bids decided.1
        ⊎ IsUnsold decided.0 (counted calculating).tables.bids decided.1)
decide_cases_example =
    decide_cases pg seeds 10 (counted calculating) decided.1 decided.0 stock-IsValid decided_runs.0
      decided_runs.1

verify_result-decide_example :
    (verify_result pg 10 decided.1 ≡ ok (report_on pg decided.0.result decided.1.tables.bids))
    × ((report_on pg decided.0.result decided.1.tables.bids).is_ok ≡ true)
verify_result-decide_example =
    verify_result-decide pg seeds 10 (counted calculating) decided.1 decided.0 stock-IsValid
      decided_runs.0 decided_runs.1

bids-Positive : Positive (counted closing).tables.bids
bids-Positive = (refl, (refl, (refl, tt)))

closing-IsUndecided : IsUndecided (lamp closing) (counted closing)
unfolding sum_held first_where
closing-IsUndecided = record {
  found = refl;
  hours = refl;
  stock = record {
    keyed = (refl, tt);
    distinct = (refl, λ e. refl, tt);
    counted = (record { cached = refl; stocked = omega arith }, tt);
  };
  product = λ r e gone. ground (arith, e, gone);
  positive = bids-Positive;
  undecided = refl;
}

abbrev pass : RefundSeeds
pass = record {
  wallet_id = λ user. 700 + user;
  entry_id = λ user. 800 + user;
  memo = 82 ∷ [];
  channel = system;
  actor_user_id = none;
}

close_auction-decides_example :
    (o : CloseOutcome) × (after : ResultDb) × (close_auction pg seeds pass 10 (counted closing)
      ≡ (ok o, after))
    × (o.decided ≡ true)
    × (find_result 10 after.results ≡ some o.result)
    × ((b : AuctionRecord) × (find_auction 10 after.tables.auctions.auctions ≡ some b)
        × (b.status ≡ completed))
close_auction-decides_example =
    close_auction-decides pg seeds pass (lamp closing) (counted closing) closing-IsUndecided
      (inl refl)

calculating-IsOrderly : IsOrderly (counted calculating).tables.auctions
unfolding first_where
calculating-IsOrderly = record {
  keyed = (refl, tt);
  resumable = (λ z. cc, tt);
  inventory = stock-IsValid;
}

-- A pass of refunds, and the decision once more.
abbrev paid : ResultDb
paid = (refund_participation_fees pg pass 10 decided.1).1

abbrev decided_again : Decision × ResultDb
decided_again = value no_decision (decide pg later 10 paid)

paid_runs : (decide pg later 10 paid ≡ ok decided_again) × (decided_again.0.inserted ≡ false)
unfolding decide load_closable insert_result outcome_fits counts_fit winner_fits settle_decision
    apply_consequences owe_order audit_decision complete_open create_winner_order
    insert_auction_order insert_or_find audit_created complete begin_transition continue_with
    complete_begun transition settle apply_transition first_where update_where rows_where
    count_where calculate_lub_v1 count_frozen_bids checksum_frozen_bids refund_participation_fees
    list_fee_payers refund_each sort_by_user
paid_runs = (refl, refl)

Later-verify_result_example :
    (verify_result pg 10 decided_again.1
      ≡ ok (report_on pg decided.0.result decided_again.1.tables.bids))
    × ((report_on pg decided.0.result decided_again.1.tables.bids).is_ok ≡ true)
    × (find_result 10 decided_again.1.results ≡ some decided.0.result)
Later-verify_result_example =
    Later-verify_result pg seeds 10 (counted calculating) decided.1 decided_again.1 decided.0
      calculating-IsOrderly decided_runs.0 decided_runs.1
      (next (next here (refunds pg pass 10 refl)) (decides pg later 10 decided_again.0 paid_runs.0))

abbrev payer : ParticipantFees
payer = record { user_id = 21; bid_count = 1; total_fees_minor = 50 }

abbrev no_movement : MovementResult
no_movement = record {
  wallet_id = 0;
  entry_id = 0;
  amount_minor = pos 0;
  balance_after_minor = pos 0;
  currency = usd;
  replayed = false;
}

abbrev wallets : WalletDb
wallets = (counted calculating).tables.wallet

abbrev refunded : MovementResult × WalletDb
refunded = value (no_movement, wallets) (refund_payer pg pass 10 payer wallets)

-- The user has a wallet in dollars, as the auction is; the fee comes back to a wallet in birr.
refunded_runs : refund_payer pg pass 10 payer wallets ≡ ok refunded
unfolding move get_wallet ensure_wallet apply_movement replay_or_book book update_wallet_balance
    insert_entry first_where update_where ◌+ℤ◌ ◌*ℤ◌ text_eq refund_idempotency_key
refunded_runs = refl

refund_payer-etb_example : refunded.0.currency ≡ etb
unfolding first_where
refund_payer-etb_example =
    refund_payer-etb pg pass 10 payer wallets refunded.1 refunded.0 (refl, tt) refunded_runs
