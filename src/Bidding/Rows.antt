-- ===== src/Bidding/Rows.antt =====
-- Rows of the table `bids` (apps/api/src/modules/bidding/types.ts and bidRepository.ts).
-- A bid's amount and fee are checked to be no less than zero by the table, so they are numbers.
use howlow.Prelude.{ℕ, Bool, true, false, Option, Text, ◌==◌, ◌&&◌}
use howlow.Shared.{Channel}

pub data BidStatus : Type 0 where
  valid void refunded : BidStatus

abbrev pub is_valid : BidStatus → Bool
is_valid valid = true
is_valid void = false
is_valid refunded = false

pub record BidRecord : Type 0 where
  pub id : ℕ
  pub auction_id : ℕ
  pub user_id : ℕ
  pub amount_minor : ℕ
  pub fee_minor : ℕ
  pub status : BidStatus
  pub channel : Channel
  pub idempotency_key : Option Text
  pub wallet_entry_id : Option ℕ
  pub request_id : Option ℕ
  pub created_at : ℕ
  pub voided_at : Option ℕ

-- `WHERE auction_id = $1 AND status = 'valid'`
abbrev pub takes_part : ℕ → BidRecord → Bool
takes_part auction_id b = b.auction_id == auction_id && is_valid b.status
