-- ===== src/Bidding/Service/Tests.antt =====
-- Two bids on a live auction, for a fee, and the same request sent again in another order.
use howlow.Prelude.{
  length, ℕ, ◌+◌, ◌*◌, ◌≤◌, ◌<◌, ◌≡◌, refl, true, none, some, Text, List, [], ◌∷◌, map, is_some,
  All, first_where, update_where, rows_where, text_eq,
}
use howlow.Prelude.Int.{pos, ◌+ℤ◌, ◌*ℤ◌}
use howlow.Shared.{etb, web, telegram}
use howlow.Errors.{Result, ok, err}
use howlow.Wallet.Rows.{WalletRecord}
use howlow.Wallet.Repository.{ensure_wallet, update_wallet_balance, insert_entry}
use howlow.Wallet.Ledger.{apply_movement, replay_or_book, book}
use howlow.Wallet.Service.{get_wallet, move}
use howlow.Catalog.Inventory.{new_reservation, find_held_reservation}
use howlow.Auctions.Transitions.{live, status_eq}
use howlow.Auctions.Rows.{AuctionRecord, find_auction}
use howlow.Bidding.Validation.{assert_amounts_allowed, assert_amount_allowed, has}
use howlow.Bidding.Tables.{
  BidTables, amounts_of, sort_amounts, insert_amount, insert_rows, insert_bids, has_id,
  attach_wallet_entry, lock_or_create_participant, add_participant_bids, add_bid_counters, new_bid,
  conflicts_with,
}
use howlow.Bidding.Service.{
  Bidder, SubmitBidsInput, SubmitBidsOutcome, BidDb, batch_input, assert_accepting_bids,
  assert_deliverable, insert_batch, charge_fee, book_batch, place_for, accept_bids, place_bids,
}
use howlow.Bidding.Service.Charge.{unlinked, on_top, IsCharged}
use howlow.Bidding.Service.Batch.{bids_before, accept_bids-whole}

abbrev lamp : AuctionRecord
lamp = record {
  id = 10;
  product_id = 1;
  seller_id = 5;
  currency = etb;
  min_bid_minor = 100;
  max_bid_minor = 1000;
  bid_increment_minor = 5;
  max_bids_per_user = 3;
  bid_fee_minor = 50;
  winner_payment_hours = 48;
  status = live;
  quantity = 1;
  starts_at = 1000;
  ends_at = 2000;
  created_by = some 5;
  submitted_at = some 100;
  approved_by = some 7;
  approved_at = some 200;
  rejected_at = none;
  rejection_reason = none;
  opened_at = some 1000;
  closing_at = none;
  closed_at = none;
  suspended_at = none;
  suspended_by = none;
  suspend_reason = none;
  suspended_from = none;
  cancelled_at = none;
  cancel_reason = none;
  total_bids = 0;
  total_participants = 0;
}

abbrev wallet : WalletRecord
wallet = record {
  id = 1;
  user_id = 9;
  currency = etb;
  available_minor = pos 500;
  reserved_minor = pos 0;
  version = 0;
  frozen_at = none;
  frozen_reason = none;
}

abbrev tables : BidTables
tables = record {
  wallet = record { wallets = wallet ∷ []; entries = []; events = [] };
  auctions = record {
    auctions = lamp ∷ [];
    inventory = record {
      products = record { id = 1; stock_quantity = 2; reserved_quantity = 1 } ∷ [];
      reservations = new_reservation 77 1 10 1 ∷ [];
      audit = [];
    };
    audit = [];
  };
  bids = [];
  participants = [];
  audit = [];
}

abbrev empty_keys : BidDb
empty_keys = record { keys = []; tables = tables }

abbrev submission : SubmitBidsInput
submission = record {
  user_id = 9;
  amounts_minor = (49 ∷ 49 ∷ 48 ∷ []) ∷ (49 ∷ 48 ∷ 53 ∷ []) ∷ [];
  idempotency_key = 65 ∷ [];
  channel = web;
  request_id = none;
  now = 1500;
  clock = 1501;
  key_id = 300;
  wallet_id = 301;
  entry_id = 302;
  participant_id = 303;
  new_bid_id = λ amount. 1000 + amount;
}

abbrev retried : SubmitBidsInput
retried = record submission {
  amounts_minor = (49 ∷ 48 ∷ 53 ∷ []) ∷ (49 ∷ 49 ∷ 48 ∷ []) ∷ [];
  channel = telegram;
  now = 2500;
  clock = 2501;
  key_id = 400;
  entry_id = 402;
}

abbrev amounts : List ℕ
amounts = 110 ∷ 105 ∷ []

-- Any two functions will do for the hash and for the text of a count.
abbrev hash : ℕ → ℕ → List ℕ → Text
hash auction_id user_id xs = auction_id ∷ user_id ∷ xs

abbrev show : ℕ → Text
show n = (48 + n) ∷ []

abbrev no_outcome : SubmitBidsOutcome
no_outcome = record {
  auction_id = 0;
  bids = [];
  total_fee_minor = 0;
  currency = etb;
  bid_count = 0;
  bids_remaining = 0;
  wallet_balance_minor = pos 0;
  replayed = true;
  submitted_at = 0;
  auction_totals = (0, 0);
}

abbrev value : {A : Type 0} → A → Result A → A
value otherwise (ok x) = x
value otherwise (err e) = otherwise

abbrev accepted : SubmitBidsOutcome × BidTables
accepted = value (no_outcome, tables) (accept_bids show lamp submission amounts tables)

abbrev first : SubmitBidsOutcome × BidDb
first = value (no_outcome, empty_keys) (place_bids hash show lamp submission amounts empty_keys)

accepted_runs : accept_bids show lamp submission amounts tables ≡ ok accepted
unfolding accept_bids assert_accepting_bids assert_amounts_allowed assert_amount_allowed
    assert_deliverable place_for lock_or_create_participant book_batch insert_batch insert_bids
    insert_rows charge_fee add_participant_bids add_bid_counters attach_wallet_entry has_id move
    get_wallet ensure_wallet apply_movement replay_or_book book update_wallet_balance insert_entry
    first_where update_where rows_where amounts_of has sort_amounts insert_amount ◌+ℤ◌ ◌*ℤ◌ text_eq
accepted_runs = refl

accept_bids-whole_example :
    (a : AuctionRecord) × (find_auction 10 tables.auctions.auctions ≡ some a)
    × (status_eq a.status live ≡ true)
    × (a.starts_at ≤ 1501)
    × (1501 < a.ends_at)
    × (is_some (find_held_reservation a.id tables.auctions.inventory) ≡ true)
    × (bids_before a.id 9 tables + length amounts ≤ a.max_bids_per_user)
    × (accepted.0.bids ≡ map (new_bid (batch_input a submission)) amounts)
    × All (λ x. first_where (conflicts_with a.id 9 (65 ∷ []) x) tables.bids ≡ none) amounts
    × (map unlinked accepted.1.bids ≡ on_top (map (new_bid (batch_input a submission)) amounts) [])
    × (accepted.0.total_fee_minor ≡ a.bid_fee_minor * length amounts)
    × IsCharged a submission
        (a.bid_fee_minor * length amounts)
        tables.wallet
        accepted.1.wallet
        accepted.0.wallet_balance_minor
accept_bids-whole_example =
    accept_bids-whole show lamp submission amounts tables accepted.1 accepted.0 accepted_runs

abbrev bidder : Bidder
bidder = record { is_active = true; phone_verified = true }

-- Between the two, another service has written to the tables.
abbrev meanwhile : BidDb
meanwhile = record first.1 { tables = record first.1.tables { audit = [] } }
