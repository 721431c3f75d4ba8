-- ===== src/Results/Trust/History.antt =====
-- Runs of the services, one after the other, on all their tables.
use howlow.Prelude.{ℕ, ◌≡◌, Text, List}
use howlow.Errors.{ok}
use howlow.Wallet.Rows.{WalletDb}
use howlow.Wallet.Service.Invariant
use howlow.Auctions.Rows.{AuctionRecord, AuctionDb}
use howlow.Auctions.Lifecycle.History
use howlow.Auctions.Lifecycle.History.{Step-Outcome}
use howlow.Bidding.Idempotency.{KeyRow}
use howlow.Bidding.Service.{SubmitBidsInput, SubmitBidsOutcome, BidDb, place_bids}
use howlow.Results.Checksum.{Postgres}
use howlow.Results.Rows.{ResultDb}
use howlow.Results.Refunds.{RefundSeeds, refund_participation_fees}
use howlow.Results.Close.{Seeds, Decision, decide}

-- A run that commits: of the lifecycle, of the wallet, a submission of bids, a decision of any auction,
-- or a pass of refunds.
pub data Event (db after : ResultDb) : Type 0 where
  manages :
      (t : AuctionDb)
      → History.Step db.tables.auctions t
      → after ≡ record db { tables = record (db.tables) { auctions = t } }
      → Event db after
  banks :
      (w : WalletDb)
      → Invariant.Step db.tables.wallet w
      → after ≡ record db { tables = record (db.tables) { wallet = w } }
      → Event db after
  submits :
      (hash : ℕ → ℕ → List ℕ → Text) (show : ℕ → Text) (auction : AuctionRecord)
      (i : SubmitBidsInput) (amounts : List ℕ) (keys : List KeyRow) (r : SubmitBidsOutcome)
      (next : BidDb)
      → place_bids hash show auction i amounts (record { keys = keys; tables = db.tables })
        ≡ ok (r, next)
      → after ≡ record db { tables = next.tables }
      → Event db after
  decides :
      (pg : Postgres) (seeds : Seeds) (id : ℕ) (d : Decision)
      → decide pg seeds id db ≡ ok (d, after)
      → Event db after
  refunds :
      (pg : Postgres) (seeds : RefundSeeds) (id : ℕ)
      → after ≡ (refund_participation_fees pg seeds id db).1
      → Event db after

pub data Later (start : ResultDb) : ResultDb → Type 0 where
  here : Later start start
  next : {db after : ResultDb} → Later start db → Event db after → Later start after
