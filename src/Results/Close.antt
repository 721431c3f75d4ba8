-- ===== src/Results/Close.antt =====
-- apps/api/src/modules/results/resultService.ts: deciding an auction. The uuids, the clock and the
-- order's number are the argument `seeds`; the texts that are recorded with a release are `reasons`.
pub mod Effect
pub mod Consequence
pub mod Decided
pub mod Again
pub mod Verdict
pub mod Checks
use howlow.Prelude.{
  ℕ, Bool, true, false, Option, none, some, Text, List, ◌∷◌, not, if◌then◌else◌, ◌==◌,
}
use howlow.Errors.{
  AppError, result_not_found, auction_not_closed, Result, ok, err, Tx, pure, throw, throw_if,
  or_throw, gets, modify, ◌>>=◌, ◌>>◌,
}
use howlow.Shared.{Currency}
use howlow.Catalog.Inventory.{release_unit}
use howlow.Auctions.Transitions.{AuctionStatus, closing, calculating, completed, status_eq}
use howlow.Auctions.Transitions
use howlow.Auctions.Rows.{AuctionRecord, AuctionDb, find_auction, on_inventory}
use howlow.Auctions.Lifecycle.{begin_calculating, complete}
use howlow.Bidding.Rows.{BidRecord}
use howlow.Orders.{OrderRecord, OrderSeed, InsertAuctionOrderInput, create_winner_order}
use howlow.Results.Lub.{LubWinner, FrozenStatistics, count_frozen_bids, calculate_lub_v1}
use howlow.Results.Checksum.{Postgres, checksum_frozen_bids}
use howlow.Results.Rows.{
  AuctionOutcome, winner, no_unique_bid, no_bids, cancelled, ResultRecord, ResultAudit, ResultDb,
  on_auctions, on_orders, find_result,
}
use howlow.Results.Repository.{InsertResultInput, ResultSeed, insert_result}

-- `CLOSABLE_STATUSES.includes(status)`
abbrev pub is_closable : AuctionStatus → Bool
is_closable closing = true
is_closable calculating = true
is_closable completed = true
is_closable Transitions.cancelled = true
is_closable _ = false

-- `loadClosable`
unfoldable pub load_closable : ℕ → Tx ResultDb AuctionRecord
load_closable auction_id = do
  auction ←
      or_throw result_not_found (← gets (λ db. find_auction auction_id db.tables.auctions.auctions))
  throw_if (not (is_closable auction.status)) auction_not_closed
  pure auction

-- What a decision draws from the database and from the source's texts.
pub record Seeds : Type 0 where
  pub result : ResultSeed
  pub order : OrderSeed
  pub now : ℕ
  pub reasons : AuctionOutcome → Text

pub record Decision : Type 0 where
  pub auction : AuctionRecord
  pub result : ResultRecord
  pub order : Option OrderRecord
  pub inserted : Bool

-- `decideOutcome`
abbrev pub decide_outcome : AuctionStatus → FrozenStatistics → Bool → AuctionOutcome
decide_outcome status statistics won =
    if status_eq status Transitions.cancelled
    then cancelled
    else if won
    then winner
    else if statistics.total_valid_bids == 0
    then no_bids
    else no_unique_bid

-- `winner !== null` and `winner?.field ?? null`
abbrev pub has_winner : Option LubWinner → Bool
has_winner none = false
has_winner (some w) = true

abbrev pub field_of : (LubWinner → ℕ) → Option LubWinner → Option ℕ
field_of f none = none
field_of f (some w) = some (f w)

-- The winner that `decide` counts: none is counted in a cancelled auction.
abbrev pub counted_winner : AuctionRecord → List BidRecord → Option LubWinner
counted_winner a bids =
    if status_eq a.status Transitions.cancelled then none else calculate_lub_v1 a.id bids

-- What `decide` passes to `insertResult`.
abbrev pub result_input : Postgres → AuctionRecord → List BidRecord → InsertResultInput
result_input pg a bids = record {
  auction_id = a.id;
  outcome =
      decide_outcome a.status (count_frozen_bids a.id bids) (has_winner (counted_winner a bids));
  winning_bid_id = field_of (λ w. w.bid_id) (counted_winner a bids);
  winner_user_id = field_of (λ w. w.user_id) (counted_winner a bids);
  winning_amount_minor = field_of (λ w. w.amount_minor) (counted_winner a bids);
  total_bids = (count_frozen_bids a.id bids).total_bids;
  total_valid_bids = (count_frozen_bids a.id bids).total_valid_bids;
  unique_amount_count = (count_frozen_bids a.id bids).unique_amount_count;
  participant_count = (count_frozen_bids a.id bids).participant_count;
  frozen_bid_checksum = checksum_frozen_bids pg a.id bids;
}

abbrev pub order_input : AuctionRecord → ℕ → ℕ → InsertAuctionOrderInput
order_input a user_id amount = record {
  auction_id = a.id;
  user_id = user_id;
  seller_id = a.seller_id;
  product_id = a.product_id;
  currency = a.currency;
  amount_minor = amount;
  payment_window_hours = a.winner_payment_hours;
}

-- The order that a stored winner is owed.
unfoldable pub owe_order :
    Seeds → AuctionRecord → Option ℕ → Option ℕ → Tx ResultDb (Option OrderRecord)
owe_order seeds a (some user_id) (some amount) = do
  created ← on_orders (create_winner_order seeds.order (order_input a user_id amount))
  pure (some created.0)
owe_order seeds a _ _ = throw result_not_found

abbrev pub is_winner : AuctionOutcome → Bool
is_winner winner = true
is_winner _ = false

-- `applyConsequences`
unfoldable pub apply_consequences :
    Seeds → AuctionRecord → ResultRecord → Tx ResultDb (Option OrderRecord)
apply_consequences seeds a result =
    if is_winner result.outcome
    then owe_order seeds a result.winner_user_id result.winning_amount_minor
    else (do
      on_auctions (on_inventory (release_unit a.id (seeds.reasons result.outcome) seeds.now))
      pure none)

-- `outcomeAction`
abbrev pub outcome_action : AuctionOutcome → ResultAudit
outcome_action winner = ResultAudit.winner_created
outcome_action no_unique_bid = ResultAudit.no_unique_bid_found
outcome_action no_bids = ResultAudit.no_bids_found
outcome_action cancelled = ResultAudit.cancelled_result_recorded

abbrev pub write_audit : ResultAudit → ℕ → Tx ResultDb (Unit {0})
write_audit action id = modify (λ db. record db { audit = (action, id) ∷ db.audit })

-- `auditDecision`
unfoldable pub audit_decision : AuctionRecord → ResultRecord → Bool → Tx ResultDb (Unit {0})
audit_decision a result false = pure tt
audit_decision a result true = do
  write_audit ResultAudit.result_calculated a.id
  write_audit (outcome_action result.outcome) a.id

-- The last statement of `decide`.
unfoldable pub complete_open : AuctionRecord → Tx ResultDb (Unit {0})
complete_open a =
    if status_eq a.status Transitions.cancelled
    then pure tt
    else (do on_auctions (complete a.id); pure tt)

-- What follows the insert of the row.
unfoldable pub settle_decision : Seeds → AuctionRecord → ResultRecord × Bool → Tx ResultDb Decision
settle_decision seeds a row = do
  order ← apply_consequences seeds a row.0
  audit_decision a row.0 row.1
  complete_open a
  pure (record { auction = a; result = row.0; order = order; inserted = row.1 })

-- `decide`
unfoldable pub decide : Postgres → Seeds → ℕ → Tx ResultDb Decision
decide pg seeds auction_id = do
  auction ← load_closable auction_id
  bids ← gets (λ db. db.tables.bids)
  row ← insert_result seeds.result (result_input pg auction bids)
  settle_decision seeds auction row
