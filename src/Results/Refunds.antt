-- ===== src/Results/Refunds.antt =====
-- apps/api/src/modules/results/refunds.ts, and the part of closeAuction that pays back. Each refund is
-- a transaction of its own: what the earlier ones have written stays where a later one raises. The
-- uuids of new rows and the memo are the argument `seeds`.
pub mod Frame
pub mod Wallets
pub mod Again
use howlow.Prelude.{
  ℕ, zero, suc, ◌+◌, ◌*◌, Bool, true, false, Option, none, some, Text, List, [], ◌∷◌, ◌++◌,
  if◌then◌else◌, length,
}
use howlow.Prelude.Int.{ℤ, pos}
use howlow.Shared.{Channel, Currency}
use howlow.Errors.{AppError, Result, ok, err, Tx}
use howlow.Wallet.Rows.{WalletDb, bid_fee_refund, MovementResult}
use howlow.Wallet.Service.{MovementRequest, move}
use howlow.Results.Checksum.{Postgres}
use howlow.Results.Rows.{
  AuctionOutcome, winner, no_unique_bid, no_bids, cancelled, ResultRecord, ResultAudit, ResultDb,
  on_wallets,
}
use howlow.Results.Repository.{
  ParticipantFees, list_fee_payers, auction_reference, find_auctions_with_unpaid_refunds,
}

-- What a pass draws: a wallet's uuid and an entry's for each user, and the caller's context.
pub record RefundSeeds : Type 0 where
  pub wallet_id : ℕ → ℕ
  pub entry_id : ℕ → ℕ
  pub memo : Text
  pub channel : Channel
  pub actor_user_id : Option ℕ

-- The text 'auction-refund:'.
abbrev refund_prefix : Text
refund_prefix =
    97 ∷ 117 ∷ 99 ∷ 116 ∷ 105 ∷ 111 ∷ 110 ∷ 45 ∷ 114 ∷ 101 ∷ 102 ∷ 117 ∷ 110 ∷ 100 ∷ 58 ∷ []

-- `refundIdempotencyKey`
unfoldable pub refund_idempotency_key : Postgres → ℕ → ℕ → Text
refund_idempotency_key pg auction_id user_id =
    refund_prefix ++ (pg.uuid_text auction_id ++ (58 ∷ pg.uuid_text user_id))

-- The argument of `refund('bid_fee_refund', …)`, which names no currency.
abbrev pub refund_request : Postgres → RefundSeeds → ℕ → ParticipantFees → MovementRequest
refund_request pg seeds auction_id payer = record {
  user_id = payer.user_id;
  amount_minor = pos payer.total_fees_minor;
  currency = none;
  reference_type = some auction_reference;
  reference_id = some auction_id;
  memo = some seeds.memo;
  idempotency_key = some (refund_idempotency_key pg auction_id payer.user_id);
  actor_user_id = seeds.actor_user_id;
  channel = seeds.channel;
}

-- `refund('bid_fee_refund', …)` for one payer.
abbrev pub refund_payer : Postgres → RefundSeeds → ℕ → ParticipantFees → Tx WalletDb MovementResult
refund_payer pg seeds auction_id payer =
    move (seeds.wallet_id payer.user_id) (seeds.entry_id payer.user_id) bid_fee_refund
      (refund_request pg seeds auction_id payer)

-- The loop's counters.
pub record Tally : Type 0 where
  pub refunded : ℕ
  pub already_refunded : ℕ
  pub total_refunded_minor : ℕ

abbrev pub no_tally : Tally
no_tally = record { refunded = 0; already_refunded = 0; total_refunded_minor = 0 }

abbrev pub count_movement : ParticipantFees → MovementResult → Tally → Tally
count_movement payer m t =
    if m.replayed then record t { already_refunded = t.already_refunded + 1 } else record t {
      refunded = t.refunded + 1;
      total_refunded_minor = t.total_refunded_minor + payer.total_fees_minor;
    }

-- The loop over the payers: the counters or the error it stopped at, and the wallets' tables.
unfoldable pub refund_each :
    Postgres → RefundSeeds → ℕ → List ParticipantFees → Tally → WalletDb → Result Tally × WalletDb
refund_each pg seeds auction_id [] t db = (ok t, db)
refund_each pg seeds auction_id (payer ∷ payers) t db =
    elim (refund_payer pg seeds auction_id payer db) [
      | err e ↦ (err e, db)
      | ok (m, after) ↦ refund_each pg seeds auction_id payers (count_movement payer m t) after
    ]

-- `RefundOutcome`
pub record RefundOutcome : Type 0 where
  pub auction_id : ℕ
  pub eligible : ℕ
  pub tally : Tally

abbrev with_wallet : WalletDb → ResultDb → ResultDb
with_wallet w db = record db { tables = record (db.tables) { wallet = w } }

abbrev audit_pass : ℕ → Tally → ResultDb → ResultDb
audit_pass auction_id t db = elim t.refunded [
  | zero ↦ db
  | suc n ↦ record db { audit = (ResultAudit.participation_fees_refunded, auction_id) ∷ db.audit }
]

abbrev finish_pass :
    ℕ → List ParticipantFees → ResultDb → Result Tally × WalletDb → Result RefundOutcome × ResultDb
finish_pass auction_id payers db (err e, w) = (err e, with_wallet w db)
finish_pass auction_id payers db (ok t, w) = (
  ok (record { auction_id = auction_id; eligible = length payers; tally = t }),
  audit_pass auction_id t (with_wallet w db),
)

-- `refundParticipationFees`
unfoldable pub refund_participation_fees :
    Postgres → RefundSeeds → ℕ → ResultDb → Result RefundOutcome × ResultDb
refund_participation_fees pg seeds auction_id db =
    let payers = list_fee_payers auction_id db.tables.participants in
    finish_pass auction_id payers db
      (refund_each pg seeds auction_id payers no_tally db.tables.wallet)

-- The loop of `sweepOutstandingRefunds`: an auction whose pass raises is passed over.
unfoldable pub sweep_each :
    Postgres → (ℕ → RefundSeeds) → List ℕ → ResultDb → List RefundOutcome × ResultDb
sweep_each pg seeds [] db = ([], db)
sweep_each pg seeds (id ∷ ids) db =
    let (o, after) = refund_participation_fees pg (seeds id) id db in
    let (os, last) = sweep_each pg seeds ids after in (elim o [ ok r ↦ r ∷ os | err e ↦ os ], last)

-- `sweepOutstandingRefunds`
unfoldable pub sweep_outstanding_refunds :
    Postgres → (ℕ → RefundSeeds) → ℕ → ResultDb → List RefundOutcome × ResultDb
sweep_outstanding_refunds pg seeds limit db =
    sweep_each pg seeds (find_auctions_with_unpaid_refunds limit db) db

-- `settleMoney`: the errors of a pass are logged and not raised.
unfoldable pub settle_money : Postgres → RefundSeeds → ResultRecord → ResultDb → ResultDb
settle_money pg seeds result db = elim result.outcome [
  | winner ↦ db
  | no_bids ↦ db
  | _ ↦ (refund_participation_fees pg seeds result.auction_id db).1
]
