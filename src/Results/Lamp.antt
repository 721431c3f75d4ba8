-- ===== src/Results/Lamp.antt =====
-- A lamp that three users bid on, as rows of the tables.
use howlow.Prelude.{ℕ, ◌+◌, false, none, some, [], ◌∷◌}
use howlow.Prelude.Int.{pos}
use howlow.Shared.{usd, web}
use howlow.Errors.{Result, ok, err}
use howlow.Wallet.Rows.{WalletRecord}
use howlow.Catalog.Inventory.{new_reservation}
use howlow.Auctions.Transitions.{AuctionStatus, calculating, completed}
use howlow.Auctions.Rows.{AuctionRecord}
use howlow.Bidding.Rows.{BidRecord, valid}
use howlow.Results.Checksum.{Postgres}
use howlow.Results.Rows.{ResultDb, winner}
use howlow.Results.Close.{Seeds, Decision, decide}

abbrev pub lamp : AuctionStatus → AuctionRecord
lamp status = record {
  id = 10;
  product_id = 1;
  seller_id = 5;
  currency = usd;
  min_bid_minor = 100;
  max_bid_minor = 1000;
  bid_increment_minor = 5;
  max_bids_per_user = 3;
  bid_fee_minor = 50;
  winner_payment_hours = 48;
  status = status;
  quantity = 1;
  starts_at = 1000;
  ends_at = 2000;
  created_by = some 5;
  submitted_at = some 100;
  approved_by = some 7;
  approved_at = some 200;
  rejected_at = none;
  rejection_reason = none;
  opened_at = some 1000;
  closing_at = some 2000;
  closed_at = none;
  suspended_at = none;
  suspended_by = none;
  suspend_reason = none;
  suspended_from = none;
  cancelled_at = none;
  cancel_reason = none;
  total_bids = 3;
  total_participants = 3;
}

abbrev pub bid_at : ℕ → ℕ → ℕ → BidRecord
bid_at id user amount = record {
  id = id;
  auction_id = 10;
  user_id = user;
  amount_minor = amount;
  fee_minor = 50;
  status = valid;
  channel = web;
  idempotency_key = none;
  wallet_entry_id = none;
  request_id = none;
  created_at = 1500;
  voided_at = none;
}

abbrev pub wallet : WalletRecord
wallet = record {
  id = 1;
  user_id = 21;
  currency = usd;
  available_minor = pos 500;
  reserved_minor = pos 0;
  version = 0;
  frozen_at = none;
  frozen_reason = none;
}

abbrev pub counted : AuctionStatus → ResultDb
counted status = record {
  tables = record {
    wallet = record { wallets = wallet ∷ []; entries = []; events = [] };
    auctions = record {
      auctions = lamp status ∷ [];
      inventory = record {
        products = record { id = 1; stock_quantity = 2; reserved_quantity = 1 } ∷ [];
        reservations = new_reservation 77 1 10 1 ∷ [];
        audit = [];
      };
      audit = [];
    };
    bids = bid_at 1 21 100 ∷ bid_at 2 22 100 ∷ bid_at 3 23 200 ∷ [];
    participants = [];
    audit = [];
  };
  results = [];
  orders = record { orders = []; audit = [] };
  audit = [];
}

-- Any functions will do for the texts and for the digest.
abbrev pub pg : Postgres
pg = record {
  uuid_text = λ id. (48 + id) ∷ [];
  bigint_text = λ n. n ∷ [];
  sha256_hex = λ t. 35 ∷ t;
}

abbrev pub seeds : Seeds
seeds = record {
  result = record { id = 500; computed_at = 2100 };
  order = record { id = 600; order_number = 1; clock = 2100 };
  now = 2100;
  reasons = λ outcome. [];
}

abbrev pub later : Seeds
later = record seeds { result = record { id = 501; computed_at = 9000 }; now = 9000 }

abbrev pub no_decision : Decision × ResultDb
no_decision = (
  record {
    auction = lamp completed;
    result = record {
      id = 0;
      auction_id = 0;
      outcome = winner;
      winning_bid_id = none;
      winner_user_id = none;
      winning_amount_minor = none;
      total_bids = 0;
      total_valid_bids = 0;
      unique_amount_count = 0;
      participant_count = 0;
      frozen_bid_checksum = [];
      computed_at = 0;
    };
    order = none;
    inserted = false;
  },
  counted completed,
)

abbrev pub value {ℓ} : {A : Type ℓ} → A → Result A → A
value d (ok a) = a
value d (err e) = d

abbrev pub decided : Decision × ResultDb
decided = value no_decision (decide pg seeds 10 (counted calculating))
