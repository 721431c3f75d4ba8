-- ===== src/Results/Rows.antt =====
-- Rows of `auction_results` (apps/api/src/modules/results/types.ts), and the tables that deciding an
-- auction reads and writes.
use howlow.Prelude.{ℕ, Option, Text, List, ◌==◌, first_where}
use howlow.Errors.{ok, err, Tx}
use howlow.Wallet.Rows.{WalletDb}
use howlow.Auctions.Rows.{AuctionDb}
use howlow.Bidding.Tables.{BidTables}
use howlow.Orders.{OrderDb}

-- `AUCTION_OUTCOMES`
pub data AuctionOutcome : Type 0 where
  winner no_unique_bid no_bids cancelled : AuctionOutcome

-- `ResultRecord`. `algorithm_version` is LUB_V1 in every row: the column defaults to it, and a CHECK
-- refuses anything else.
pub record ResultRecord : Type 0 where
  pub id : ℕ
  pub auction_id : ℕ
  pub outcome : AuctionOutcome
  pub winning_bid_id : Option ℕ
  pub winner_user_id : Option ℕ
  pub winning_amount_minor : Option ℕ
  pub total_bids : ℕ
  pub total_valid_bids : ℕ
  pub unique_amount_count : ℕ
  pub participant_count : ℕ
  pub frozen_bid_checksum : Text
  pub computed_at : ℕ

pub data ResultAudit : Type 0 where
  result_calculated winner_created no_unique_bid_found no_bids_found cancelled_result_recorded :
      ResultAudit
  participation_fees_refunded : ResultAudit

-- A row of `audit` names the auction.
pub record ResultDb : Type 0 where
  pub tables : BidTables
  pub results : List ResultRecord
  pub orders : OrderDb
  pub audit : List (ResultAudit × ℕ)

-- A run on the tables of another module, in the same transaction.
abbrev pub on_auctions : {A : Type 0} → Tx AuctionDb A → Tx ResultDb A
on_auctions m db = elim (m db.tables.auctions) [
  | ok (a, t) ↦ ok (a, record db { tables = record (db.tables) { auctions = t } })
  | err e ↦ err e
]

abbrev pub on_wallets : {A : Type 0} → Tx WalletDb A → Tx ResultDb A
on_wallets m db = elim (m db.tables.wallet) [
  | ok (a, t) ↦ ok (a, record db { tables = record (db.tables) { wallet = t } })
  | err e ↦ err e
]

abbrev pub on_orders : {A : Type 0} → Tx OrderDb A → Tx ResultDb A
on_orders m db = elim (m db.orders) [ ok (a, t) ↦ ok (a, record db { orders = t }) | err e ↦ err e ]

-- `findResult` and `lockResult`
abbrev pub find_result : ℕ → List ResultRecord → Option ResultRecord
find_result auction_id = first_where (λ r. r.auction_id == auction_id)
