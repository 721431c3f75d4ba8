-- ===== src/Results/Workflow.antt =====
-- `closeAuction` of apps/api/src/modules/results/resultService.ts, with the events that it publishes:
-- two transactions, then the money. Each part that commits stays where a later one raises.
pub mod Progress
pub mod Deciding
pub mod Liveness
use howlow.Prelude.{
  ℕ, Bool, true, false, Option, none, some, List, [], ◌∷◌, ◌++◌, ◌==◌, not, ltb, length,
  if◌then◌else◌,
}
use howlow.Shared.{Currency}
use howlow.Errors.{AppError, result_not_found, Result, ok, err, Tx, pure, ◌>>=◌, ◌>>◌}
use howlow.Auctions.Transitions.{AuctionStatus, closing, completed, status_eq}
use howlow.Auctions.Rows.{AuctionRecord}
use howlow.Auctions.Lifecycle.{begin_calculating}
use howlow.Bidding.Tables.{ParticipantRecord}
use howlow.Orders.{OrderRecord}
use howlow.Results.Checksum.{Postgres}
use howlow.Results.Rows.{
  AuctionOutcome, winner, no_unique_bid, no_bids, cancelled, ResultRecord, ResultDb, on_auctions,
  find_result,
}
use howlow.Results.Repository.{ParticipantFees, list_fee_payers}
use howlow.Results.Close.{Seeds, Decision, load_closable, decide}
use howlow.Results.Refunds.{RefundSeeds, settle_money}

-- `CloseOutcome`
pub record CloseOutcome : Type 0 where
  pub auction_id : ℕ
  pub outcome : AuctionOutcome
  pub currency : Currency
  pub winning_amount_minor : Option ℕ
  pub winner_user_id : Option ℕ
  pub order_id : Option ℕ
  pub decided : Bool
  pub result : ResultRecord

abbrev order_id_of : Option OrderRecord → Option ℕ
order_id_of none = none
order_id_of (some o) = some o.id

-- `describe`
abbrev pub describe : ResultRecord → AuctionRecord → Option OrderRecord → Bool → CloseOutcome
describe r a order decided = record {
  auction_id = r.auction_id;
  outcome = r.outcome;
  currency = a.currency;
  winning_amount_minor = r.winning_amount_minor;
  winner_user_id = r.winner_user_id;
  order_id = order_id_of order;
  decided = decided;
  result = r;
}

unfoldable pub start_counting : ℕ → AuctionRecord → Tx ResultDb (AuctionRecord × Bool)
start_counting now a =
    if status_eq a.status closing
    then (do on_auctions (begin_calculating a.id now); pure (a, true))
    else pure (a, not (status_eq a.status completed))

-- The first transaction: the auction, and whether there is something to decide.
unfoldable pub prepare : ℕ → ℕ → Tx ResultDb (AuctionRecord × Bool)
prepare now auction_id = do start_counting now (← load_closable auction_id)

-- The second transaction, and the money.
unfoldable pub decide_and_settle :
    Postgres → Seeds → RefundSeeds → ℕ → ResultDb → Result CloseOutcome × ResultDb
decide_and_settle pg seeds refunds auction_id db = elim (decide pg seeds auction_id db) [
  | err e ↦ (err e, db)
  | ok (d, after) ↦
      (ok (describe d.result d.auction d.order d.inserted), settle_money pg refunds d.result after)
]

-- What is reported of an auction that was decided before.
unfoldable pub report_decided :
    Postgres → RefundSeeds → ℕ → AuctionRecord → ResultDb → Result CloseOutcome × ResultDb
report_decided pg refunds auction_id a db = elim (find_result auction_id db.results) [
  | none ↦ (err result_not_found, db)
  | some r ↦ (ok (describe r a none false), settle_money pg refunds r db)
]

-- `closeAuction`
unfoldable pub close_auction :
    Postgres → Seeds → RefundSeeds → ℕ → ResultDb → Result CloseOutcome × ResultDb
close_auction pg seeds refunds auction_id db = elim (prepare seeds.now auction_id db) [
  | err e ↦ (err e, db)
  | ok ((a, true), after) ↦ decide_and_settle pg seeds refunds auction_id after
  | ok ((a, false), after) ↦ report_decided pg refunds auction_id a after
]

-- The events of a decision; the addressed ones name a user.
pub data ResultEvent : Type 0 where
  auction_result_ready auction_no_unique_bid auction_no_bids : ResultEvent
  auction_won auction_not_won : ℕ → ResultEvent

abbrev pub not_won_fanout_limit : ℕ
not_won_fanout_limit = 1000

unfoldable pub losers_of : ℕ → List ParticipantFees → List ParticipantFees
losers_of user_id [] = []
losers_of user_id (p ∷ ps) =
    let rest = losers_of user_id ps in if p.user_id == user_id then rest else p ∷ rest

unfoldable pub not_won : List ParticipantFees → List ResultEvent
not_won [] = []
not_won (p ∷ ps) = auction_not_won p.user_id ∷ not_won ps

abbrev fan_out : List ParticipantFees → List ResultEvent
fan_out losers = if ltb not_won_fanout_limit (length losers) then [] else not_won losers

abbrev winner_events : Option ℕ → ℕ → List ParticipantRecord → List ResultEvent
winner_events none auction_id participants = []
winner_events (some user_id) auction_id participants =
    auction_won user_id ∷ fan_out (losers_of user_id (list_fee_payers auction_id participants))

-- `resultEvents`
unfoldable pub result_events : Decision → List ParticipantRecord → List ResultEvent
result_events d participants = elim d.result.outcome [
  | winner ↦ auction_result_ready ∷ winner_events d.result.winner_user_id d.auction.id participants
  | no_unique_bid ↦ auction_result_ready ∷ auction_no_unique_bid ∷ []
  | no_bids ↦ auction_result_ready ∷ auction_no_bids ∷ []
  | cancelled ↦ auction_result_ready ∷ []
]
