-- ===== src/Results/Refunds/Frame.antt =====
-- What paying back leaves as it was.
use howlow.Prelude.{ℕ, zero, suc, ◌≡◌, refl, List}
use howlow.Errors.{ok, err, Result}
use howlow.Wallet.Rows.{WalletDb}
use howlow.Results.Checksum.{Postgres}
use howlow.Results.Rows.{winner, no_unique_bid, no_bids, cancelled, ResultRecord, ResultDb}
use howlow.Results.Repository.{ParticipantFees, list_fee_payers}
use howlow.Results.Refunds.{
  Tally, RefundSeeds, finish_pass, audit_pass, refund_each, no_tally, refund_participation_fees,
  settle_money,
}

-- Paying back writes the wallets' tables and an audit row, and nothing else.
pub record PaysOnly (db after : ResultDb) : Type 0 where
  pub auctions : after.tables.auctions ≡ db.tables.auctions
  pub bids : after.tables.bids ≡ db.tables.bids
  pub participants : after.tables.participants ≡ db.tables.participants
  pub results : after.results ≡ db.results
  pub orders : after.orders ≡ db.orders

pays_nothing : (db : ResultDb) → PaysOnly db db
pays_nothing db = record {
  auctions = refl;
  bids = refl;
  participants = refl;
  results = refl;
  orders = refl;
}

finish_pass-PaysOnly :
    (id : ℕ) (payers : List ParticipantFees) (db : ResultDb) (r : Result Tally) (w : WalletDb)
    → PaysOnly db (finish_pass id payers db (r, w)).1
finish_pass-PaysOnly id payers db (err e) w = record {
  auctions = refl;
  bids = refl;
  participants = refl;
  results = refl;
  orders = refl;
}
finish_pass-PaysOnly id payers db (ok t) w = by_count t.refunded
  where
    by_count :
        (n : ℕ)
        → PaysOnly db (
            audit_pass id
              (record t { refunded = n })
              (record db { tables = record (db.tables) { wallet = w } }))
    by_count zero = record {
      auctions = refl;
      bids = refl;
      participants = refl;
      results = refl;
      orders = refl;
    }
    by_count (suc n) = record {
      auctions = refl;
      bids = refl;
      participants = refl;
      results = refl;
      orders = refl;
    }

pub refund_participation_fees-PaysOnly :
    (pg : Postgres) (seeds : RefundSeeds) (id : ℕ) (db : ResultDb)
    → PaysOnly db (refund_participation_fees pg seeds id db).1
unfolding refund_participation_fees
refund_participation_fees-PaysOnly pg seeds id db =
    let run =
      refund_each pg seeds id (list_fee_payers id db.tables.participants) no_tally
        db.tables.wallet in
    finish_pass-PaysOnly id (list_fee_payers id db.tables.participants) db run.0 run.1

pub settle_money-PaysOnly :
    (pg : Postgres) (seeds : RefundSeeds) (r : ResultRecord) (db : ResultDb)
    → PaysOnly db (settle_money pg seeds r db)
unfolding settle_money
settle_money-PaysOnly pg seeds r db =
    elim r.outcome
      as (λ o. PaysOnly db (elim o [
        | winner ↦ db
        | no_bids ↦ db
        | _ ↦ (refund_participation_fees pg seeds r.auction_id db).1
      ])) [
        | winner ↦ pays_nothing db
        | no_bids ↦ pays_nothing db
        | no_unique_bid ↦ refund_participation_fees-PaysOnly pg seeds r.auction_id db
        | cancelled ↦ refund_participation_fees-PaysOnly pg seeds r.auction_id db
      ]
