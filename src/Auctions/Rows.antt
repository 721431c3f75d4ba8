-- ===== src/Auctions/Rows.antt =====
-- Rows of `auctions` (apps/api/src/modules/auctions/types.ts) and the statements of
-- auctionRepository.ts that the lifecycle, the bidding engine and the results run. The texts that are
-- only displayed, and created_at and updated_at, are left out. Amounts are numbers: the table checks
-- that they are no less than zero.
use howlow.Prelude.{ℕ, Bool, Option, none, some, Text, List, ◌==◌, ◌&&◌, first_where, update_where}
use howlow.Shared.{Currency}
use howlow.Errors.{ok, err, Tx}
use howlow.Auctions.Transitions.{AuctionStatus, status_eq}
use howlow.Catalog.Inventory.{InventoryDb}

pub record AuctionRecord : Type 0 where
  pub id : ℕ
  pub product_id : ℕ
  pub seller_id : ℕ
  pub currency : Currency
  pub min_bid_minor : ℕ
  pub max_bid_minor : ℕ
  pub bid_increment_minor : ℕ
  pub max_bids_per_user : ℕ
  pub bid_fee_minor : ℕ
  pub winner_payment_hours : ℕ
  pub status : AuctionStatus
  pub quantity : ℕ
  pub starts_at : ℕ
  pub ends_at : ℕ
  pub created_by : Option ℕ
  pub submitted_at : Option ℕ
  pub approved_by : Option ℕ
  pub approved_at : Option ℕ
  pub rejected_at : Option ℕ
  pub rejection_reason : Option Text
  pub opened_at : Option ℕ
  pub closing_at : Option ℕ
  pub closed_at : Option ℕ
  pub suspended_at : Option ℕ
  pub suspended_by : Option ℕ
  pub suspend_reason : Option Text
  pub suspended_from : Option AuctionStatus
  pub cancelled_at : Option ℕ
  pub cancel_reason : Option Text
  pub total_bids : ℕ
  pub total_participants : ℕ

-- The audit rows of the lifecycle, with the status before the move.
pub data AuctionAudit : Type 0 where
  submitted approved rejected opened closing_audit calculating_audit completed_audit : AuctionAudit
  suspended_audit resumed cancelled_audit : AuctionAudit

-- The tables that the lifecycle writes. The newest row of `audit` stands first.
pub record AuctionDb : Type 0 where
  pub auctions : List AuctionRecord
  pub inventory : InventoryDb
  pub audit : List (AuctionAudit × ℕ × AuctionStatus)

-- `lockById`
abbrev pub find_auction : ℕ → List AuctionRecord → Option AuctionRecord
find_auction id = first_where (λ a. a.id == id)

-- `WHERE id = $1 AND status = $2`
abbrev pub stands_at : ℕ → AuctionStatus → AuctionRecord → Bool
stands_at id expected a = a.id == id && status_eq a.status expected

-- `applyTransition`. `set` writes the columns that the call names, the status among them.
unfoldable pub apply_transition :
    ℕ → AuctionStatus → (AuctionRecord → AuctionRecord) → Tx AuctionDb (Option AuctionRecord)
apply_transition id expected set db = elim (first_where (stands_at id expected) db.auctions) [
  | none ↦ ok (none, db)
  | some a ↦
      ok (
        some (set a),
        record db { auctions = update_where (stands_at id expected) set db.auctions },
      )
]

-- A run on the inventory's tables, in the same transaction.
abbrev pub on_inventory : {A : Type 0} → Tx InventoryDb A → Tx AuctionDb A
on_inventory m db = elim (m db.inventory) [
  | ok (a, t) ↦ ok (a, record db { inventory = t })
  | err e ↦ err e
]
