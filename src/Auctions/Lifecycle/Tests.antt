-- ===== src/Auctions/Lifecycle/Tests.antt =====
-- One auction from draft to live, and what the theorems say of it.
use howlow.Prelude.{
  ◌≡◌, ◌≤◌, ◌<◌, ◌⊎◌, refl, true, none, some, [], ◌∷◌, first_where, update_where, arith,
}
use howlow.Shared.{usd}
use howlow.Auth.{admin}
use howlow.Errors.{ok, err, auction_not_due}
use howlow.Catalog.Inventory.{
  ProductRecord, InventoryDb, sum_held, inventory_report, reconcile_product_inventory, reserve_unit,
  claim_unit, settle_reservation, insert_reservation, add_reserved, held, find_product,
  find_held_reservation,
}
use howlow.Catalog.Inventory.Reserve.{reserved_rows}
use howlow.Auctions.Transitions.{draft, live, closing, calculating, cancelled}
use howlow.Auctions.Rows.{AuctionRecord, AuctionDb, AuctionAudit, find_auction, apply_transition}
use howlow.Auctions.Lifecycle
use howlow.Auctions.Lifecycle.{
  TransitionResult, unchanged, set_submitted, set_approved, set_live, set_cancelled, set_closing,
  set_calculating, set_completed, auction_scheduled, auction_started, auction_cancelled,
  auction_closing,
}
use howlow.Auctions.Lifecycle.Moves.{moved_result, moved_rows}
use howlow.Auctions.Lifecycle.Stocked.{IsStocked}
use howlow.Auctions.Lifecycle.History.{
  Step, Reach, IsOpening, here, next, Reach-IsStocked, Reach-reconcile_product_inventory,
  Reach-completed, StoodAt, Reach-is_terminal,
}
use howlow.Auctions.Lifecycle.Schedule.{
  IsMoved, open_auction-live, open_auction-cancelled, close_lem,
}

abbrev television : AuctionRecord
television = record {
  id = 10;
  product_id = 1;
  seller_id = 5;
  currency = usd;
  min_bid_minor = 100;
  max_bid_minor = 1000;
  bid_increment_minor = 5;
  max_bids_per_user = 3;
  bid_fee_minor = 50;
  winner_payment_hours = 48;
  status = draft;
  quantity = 1;
  starts_at = 1000;
  ends_at = 2000;
  created_by = some 5;
  submitted_at = none;
  approved_by = none;
  approved_at = none;
  rejected_at = none;
  rejection_reason = none;
  opened_at = none;
  closing_at = none;
  closed_at = none;
  suspended_at = none;
  suspended_by = none;
  suspend_reason = none;
  suspended_from = none;
  cancelled_at = none;
  cancel_reason = none;
  total_bids = 0;
  total_participants = 0;
}

abbrev product : ProductRecord
product = record { id = 1; stock_quantity = 2; reserved_quantity = 0 }

abbrev stock : InventoryDb
stock = record { products = product ∷ []; reservations = []; audit = [] }

abbrev drafted : AuctionDb
drafted = record { auctions = television ∷ []; inventory = stock; audit = [] }

drafted-IsOpening : IsOpening drafted
unfolding first_where
drafted-IsOpening = record {
  keyed = (refl, tt);
  drafts = (refl, tt);
  products = (refl, tt);
  unreserved = (refl, tt);
  free = refl;
}

abbrev submitted_television : AuctionRecord
submitted_television = set_submitted 100 television

abbrev pending : AuctionDb
pending = moved_rows television (set_submitted 100) AuctionAudit.submitted stock drafted

abbrev approved_television : AuctionRecord
approved_television = set_approved 7 200 submitted_television

abbrev scheduled_db : AuctionDb
scheduled_db =
    moved_rows submitted_television (set_approved 7 200) AuctionAudit.approved stock pending

abbrev stock_after : InventoryDb
stock_after = reserved_rows 77 product 10 1 stock

abbrev live_db : AuctionDb
live_db =
    moved_rows approved_television (set_live 1000) AuctionAudit.opened stock_after scheduled_db

abbrev cancelled_db : AuctionDb
cancelled_db =
    moved_rows approved_television (set_cancelled [] 300) AuctionAudit.cancelled_audit stock
      scheduled_db

Reach-scheduled : Reach drafted scheduled_db
unfolding Lifecycle.submit_for_approval Lifecycle.submit_begun Lifecycle.approve
    Lifecycle.approve_begun Lifecycle.begin_transition Lifecycle.continue_with Lifecycle.transition
    Lifecycle.settle apply_transition first_where update_where
Reach-scheduled =
    next
      (next {db = drafted} here
        (Step.submits 10 5 100 (moved_result television (set_submitted 100) none) refl))
      (Step.approves (admin ∷ []) 10 7 200
        (moved_result submitted_television (set_approved 7 200) (some auction_scheduled)) refl)

Reach-live : Reach drafted live_db
unfolding Lifecycle.open_auction Lifecycle.open_begun Lifecycle.reserve_or_cancel reserve_unit
    claim_unit settle_reservation insert_reservation add_reserved Lifecycle.begin_transition
    Lifecycle.continue_with Lifecycle.transition Lifecycle.settle apply_transition first_where
    update_where
Reach-live = next {db = scheduled_db} Reach-scheduled (
    Step.opens 77 [] 10 1000
      (moved_result approved_television (set_live 1000) (some auction_started)) refl refl)

Reach-cancelled : Reach drafted cancelled_db
unfolding Lifecycle.cancel Lifecycle.cancel_begun Lifecycle.release_if_held
    Lifecycle.begin_transition Lifecycle.continue_with Lifecycle.transition Lifecycle.settle
    apply_transition first_where update_where
Reach-cancelled = next {db = scheduled_db} Reach-scheduled (
    Step.cancels (admin ∷ []) 10 none [] [] 300
      (moved_result approved_television (set_cancelled [] 300) (some auction_cancelled)) refl)

Reach-IsStocked_example : IsStocked live_db
Reach-IsStocked_example = Reach-IsStocked drafted live_db drafted-IsOpening Reach-live

Reach-reconcile_product_inventory_example :
    (reconcile_product_inventory 1 stock_after
      ≡ ok (
        inventory_report
            (record { id = 1; stock_quantity = 2; reserved_quantity = 1 })
            (sum_held 1 stock_after.reservations),
        stock_after,
      ))
    × ((inventory_report
          (record { id = 1; stock_quantity = 2; reserved_quantity = 1 })
          (sum_held 1 stock_after.reservations)).consistent
        ≡ true)
unfolding first_where update_where
Reach-reconcile_product_inventory_example =
    Reach-reconcile_product_inventory drafted live_db 1
      (record { id = 1; stock_quantity = 2; reserved_quantity = 1 }) drafted-IsOpening Reach-live
      refl

Reach-is_terminal_example :
    (b : AuctionRecord) × (find_auction 10 cancelled_db.auctions ≡ some b) × (b.status ≡ cancelled)
unfolding first_where update_where
Reach-is_terminal_example =
    Reach-is_terminal drafted cancelled_db cancelled_db 10
      (set_cancelled [] 300 approved_television) drafted-IsOpening Reach-cancelled refl refl here

open_auction-live_example :
    (r : TransitionResult) × (after : AuctionDb) × (Lifecycle.open_auction 77 [] 10 1000
        scheduled_db
      ≡ ok (r, after))
    × IsMoved 10 11
        (record approved_television { status = live; opened_at = some 1000 })
        auction_started
        scheduled_db
        r
        after
    × (find_product 1 after.inventory ≡ some (record product { reserved_quantity = 1 }))
    × (find_held_reservation 10 after.inventory
        ≡ some (record {
          id = 77;
          product_id = 1;
          auction_id = 10;
          quantity = 1;
          state = held;
          reason = none;
          released_at = none;
        }))
unfolding first_where update_where
open_auction-live_example =
    open_auction-live 77 [] 10 11 1000 scheduled_db approved_television product refl (omega arith)
      refl (omega arith) refl refl (omega arith)

abbrev sold_out : ProductRecord
sold_out = record { id = 1; stock_quantity = 2; reserved_quantity = 2 }

abbrev sold_out_db : AuctionDb
sold_out_db = record {
  auctions = approved_television ∷ [];
  inventory = record { products = sold_out ∷ []; reservations = []; audit = [] };
  audit = [];
}

open_auction-cancelled_example :
    (r : TransitionResult) × (after : AuctionDb) × (Lifecycle.open_auction 77 [] 10 1000 sold_out_db
      ≡ ok (r, after))
    × IsMoved 10 11
        (record approved_television {
          status = cancelled;
          cancelled_at = some 1000;
          cancel_reason = some [];
        })
        auction_cancelled
        sold_out_db
        r
        after
    × (after.inventory ≡ sold_out_db.inventory)
unfolding first_where
open_auction-cancelled_example =
    open_auction-cancelled 77 [] 10 11 1000 sold_out_db approved_television sold_out refl
      (omega arith) refl (omega arith) refl refl (omega arith)

close_lem_example :
    ((2000 < 2000) × (Lifecycle.close 10 2000 live_db ≡ err auction_not_due))
    ⊎ ((2000 ≤ 2000)
        × (r : TransitionResult) × (after : AuctionDb) × (Lifecycle.close 10 2000 live_db
            ≡ ok (r, after))
        × IsMoved 10 11
            (record (set_live 1000 approved_television) {
              status = closing;
              closing_at = some 2000;
            })
            auction_closing
            live_db
            r
            after
        × (after.inventory ≡ live_db.inventory))
unfolding first_where update_where
close_lem_example =
    close_lem 10 11 2000 live_db (set_live 1000 approved_television) refl (omega arith) refl

abbrev live_television : AuctionRecord
live_television = set_live 1000 approved_television

abbrev closing_television : AuctionRecord
closing_television = set_closing 2000 live_television

abbrev closing_db : AuctionDb
closing_db =
    moved_rows live_television (set_closing 2000) AuctionAudit.closing_audit stock_after live_db

abbrev counted_television : AuctionRecord
counted_television = set_calculating 2000 closing_television

abbrev counting_db : AuctionDb
counting_db =
    moved_rows closing_television (set_calculating 2000) AuctionAudit.calculating_audit stock_after
      closing_db

abbrev completed_db : AuctionDb
completed_db =
    moved_rows counted_television set_completed AuctionAudit.completed_audit stock_after counting_db

Reach-completed_db : Reach drafted completed_db
unfolding Lifecycle.close Lifecycle.close_unsettled Lifecycle.close_begun
    Lifecycle.begin_calculating Lifecycle.calculate_begun Lifecycle.complete
    Lifecycle.complete_begun Lifecycle.begin_transition Lifecycle.continue_with Lifecycle.transition
    Lifecycle.settle apply_transition first_where update_where
Reach-completed_db =
    next {db = counting_db}
      (next {db = closing_db}
        (next {db = live_db} Reach-live (
          Step.closes 10 2000
            (moved_result live_television (set_closing 2000) (some auction_closing)) refl))
        (Step.calculates 10 2001 (moved_result closing_television (set_calculating 2000) none)
          refl))
      (Step.completes 10 (moved_result counted_television set_completed none) refl)

Reach-completed_example :
    (one : AuctionDb) × (two : AuctionDb) × (three : AuctionDb) × Reach drafted one
    × Reach one two
    × Reach two three
    × Reach three completed_db
    × StoodAt 10 live one
    × StoodAt 10 closing two
    × StoodAt 10 calculating three
unfolding first_where update_where
Reach-completed_example =
    Reach-completed drafted completed_db 10 television (set_completed counted_television)
      drafted-IsOpening Reach-completed_db refl refl refl
