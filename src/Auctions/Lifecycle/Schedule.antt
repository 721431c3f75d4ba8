-- ===== src/Auctions/Lifecycle/Schedule.antt =====
-- The calls of lifecycle.ts that the scheduler makes: when they take effect, and what a repeat does.
use howlow.Prelude.{
  ℕ, ◌+◌, ◌≤◌, ◌<◌, ◌≡◌, ◌≢◌, refl, true, false, none, some, Text, List, ◌==◌, ==_refl, arith, ◌⊎◌,
  inl, inr, ltb, first_where, first_where_holds, first_where-update_where,
  first_where-update_where_apart, update_where, ==_iff, sym, ◌∙◌, subst, Bool-cases,
}
use howlow.Errors.{ok, err, auction_not_due}
use howlow.Catalog.Inventory.{
  InventoryDb, ProductRecord, held, find_product, find_held_reservation, available_quantity,
  reserve_unit, claim_unit, settle_reservation, insert_reservation, add_reserved, with_reserved,
}
use howlow.Catalog.Inventory.Reserve.{reserved_rows}
use howlow.Auctions.Transitions.{
  AuctionStatus, scheduled, live, closing, calculating, completed, cancelled, status_eq,
}
use howlow.Auctions.Rows.{AuctionRecord, AuctionDb, AuctionAudit, find_auction, stands_at}
use howlow.Auctions.Lifecycle.{
  AuctionEvent, TransitionResult, unchanged, begin_transition, continue_with, open_auction,
  open_begun, reserve_or_cancel, set_live, set_cancelled, auction_started, auction_cancelled,
  auction_closing, close, close_begun, close_unsettled, set_closing,
}
use howlow.Auctions.Lifecycle.Moves.{transition_moves, moved_result, moved_rows}

status_eq_refl : (s : AuctionStatus) → status_eq s s ≡ true
status_eq_refl s = ground arith

named :
    (auction_id : ℕ) (rows : List AuctionRecord) (a : AuctionRecord)
    → find_auction auction_id rows ≡ some a
    → find_auction a.id rows ≡ some a
named auction_id rows a e =
    let same : a.id ≡ auction_id =
      (==_iff _ _).0 (first_where_holds (λ (b : AuctionRecord). b.id == auction_id) rows a e) in
    subst (λ i. find_auction i rows ≡ some a) (sym same) e

-- Another auction's row is found as before.
others_kept :
    (x other : ℕ) (s : AuctionStatus) (set : AuctionRecord → AuctionRecord)
    (rows : List AuctionRecord)
    → ((b : AuctionRecord) → (set b).id ≡ b.id)
    → other ≢ x
    → find_auction other (update_where (stands_at x s) set rows) ≡ find_auction other rows
others_kept x other s set rows ids apart =
    first_where-update_where_apart (λ (b : AuctionRecord). b.id == other) (stands_at x s) set rows
      (λ b at_x.
        let here : b.id ≡ x = (==_iff _ _).0 (ground arith) in
        let away : (b.id == other) ≡ false = ground (arith, here) in (away, rw (ids b) away))

-- The row of one auction is `row` after a call, that of `other` is what it was, and the answer says that
-- the auction was moved to that row, with the event that waits for the commit.
pub record IsMoved (auction_id other : ℕ) (row : AuctionRecord) (event : AuctionEvent)
    (db : AuctionDb) (r : TransitionResult) (after : AuctionDb) : Type 0 where
  pub stands : find_auction auction_id after.auctions ≡ some row
  pub others : find_auction other after.auctions ≡ find_auction other db.auctions
  pub answer : r ≡ record { auction = row; changed = true; pending = some event }

moved_rows-IsMoved :
    (auction_id other : ℕ) (a : AuctionRecord) (set : AuctionRecord → AuctionRecord)
    (action : AuctionAudit) (event : AuctionEvent) (inv : InventoryDb) (db : AuctionDb)
    → ((b : AuctionRecord) → (set b).id ≡ b.id)
    → find_auction auction_id db.auctions ≡ some a
    → other ≢ auction_id
    → IsMoved auction_id other
        (set a)
        event
        db
        (moved_result a set (some event))
        (moved_rows a set action inv db)
moved_rows-IsMoved auction_id other a set action event inv db ids e apart =
    let same : a.id ≡ auction_id =
      (==_iff _ _).0
        (first_where_holds (λ (b : AuctionRecord). b.id == auction_id) db.auctions a e) in
    let it_stands : stands_at a.id a.status a ≡ true =
      ground (arith, status_eq_refl a.status, ==_refl a.id) in
    record {
      stands =
          first_where-update_where (λ (b : AuctionRecord). b.id == auction_id)
            (stands_at a.id a.status) set db.auctions a (λ b. rw (ids b) refl) e
          ∙ rw it_stands refl;
      others = others_kept a.id other a.status set db.auctions ids (λ h. apart (h ∙ same));
      answer = refl;
    }

-- `open` on a scheduled auction whose start has come and which holds no unit yet, with enough units of
-- its product in stock: the auction is live, opened at that time, and every other auction is as it was.
-- The product counts the auction's units as reserved besides those before, and a row holds them for the
-- auction. The call answers with the live auction and the event of the start.
pub open_auction-live :
    (fresh : ℕ) (no_unit : Text) (auction_id other now : ℕ) (db : AuctionDb) (a : AuctionRecord)
    (p : ProductRecord)
    → find_auction auction_id db.auctions ≡ some a
    → other ≢ auction_id
    → a.status ≡ scheduled
    → a.starts_at ≤ now
    → find_product a.product_id db.inventory ≡ some p
    → find_held_reservation a.id db.inventory ≡ none
    → p.reserved_quantity + a.quantity ≤ p.stock_quantity
    → (r : TransitionResult) × (after : AuctionDb) × (open_auction fresh no_unit auction_id now db
        ≡ ok (r, after))
      × IsMoved auction_id other
          (record a { status = live; opened_at = some now })
          auction_started
          db
          r
          after
      × (find_product a.product_id after.inventory
          ≡ some (record p { reserved_quantity = p.reserved_quantity + a.quantity }))
      × (find_held_reservation a.id after.inventory
          ≡ some (record {
            id = fresh;
            product_id = p.id;
            auction_id = a.id;
            quantity = a.quantity;
            state = held;
            reason = none;
            released_at = none;
          }))
unfolding open_auction begin_transition continue_with open_begun reserve_or_cancel reserve_unit
    claim_unit settle_reservation insert_reservation add_reserved first_where
open_auction-live fresh no_unit auction_id other now db a p e apart s due f free room =
    let inv = reserved_rows fresh p a.id a.quantity db.inventory in
    let m =
      transition_moves a (set_live now) AuctionAudit.opened (some auction_started)
        (record db { inventory = inv }) (named auction_id db.auctions a e) in
    (
      moved_result a (set_live now) (some auction_started),
      moved_rows a (set_live now) AuctionAudit.opened inv db,
      ground (arith, m),
      moved_rows-IsMoved auction_id other a (set_live now) AuctionAudit.opened auction_started inv
          db (λ b. refl) e apart,
      first_where-update_where (λ (q : ProductRecord). q.id == a.product_id)
            (λ (q : ProductRecord). q.id == p.id) (with_reserved (λ n. n + a.quantity))
            db.inventory.products p (λ b. refl) f
          ∙ rw (==_refl p.id) refl,
      rw (==_refl a.id) refl,
    )

-- `open` on a scheduled auction whose start has come and which holds no unit yet, with too few units of
-- its product in stock: the auction is cancelled at that time, for the reason that names the stock, and
-- every other auction is as it was, and so is the inventory. The call succeeds, and answers with the
-- cancelled auction and the event of the cancellation.
pub open_auction-cancelled :
    (fresh : ℕ) (no_unit : Text) (auction_id other now : ℕ) (db : AuctionDb) (a : AuctionRecord)
    (p : ProductRecord)
    → find_auction auction_id db.auctions ≡ some a
    → other ≢ auction_id
    → a.status ≡ scheduled
    → a.starts_at ≤ now
    → find_product a.product_id db.inventory ≡ some p
    → find_held_reservation a.id db.inventory ≡ none
    → available_quantity p < a.quantity
    → (r : TransitionResult) × (after : AuctionDb) × (open_auction fresh no_unit auction_id now db
        ≡ ok (r, after))
      × IsMoved auction_id other
          (record a { status = cancelled; cancelled_at = some now; cancel_reason = some no_unit })
          auction_cancelled
          db
          r
          after
      × (after.inventory ≡ db.inventory)
unfolding open_auction begin_transition continue_with open_begun reserve_or_cancel reserve_unit
    claim_unit
open_auction-cancelled fresh no_unit auction_id other now db a p e apart s due f free short =
    let set = set_cancelled no_unit now in
    let m =
      transition_moves a set AuctionAudit.cancelled_audit (some auction_cancelled) db
        (named auction_id db.auctions a e) in
    (
      moved_result a set (some auction_cancelled),
      moved_rows a set AuctionAudit.cancelled_audit db.inventory db,
      ground (arith, m),
      moved_rows-IsMoved auction_id other a set AuctionAudit.cancelled_audit auction_cancelled
          db.inventory db (λ b. refl) e apart,
      refl,
    )

-- A close of a live auction: before the auction's end it fails as not due, and from the end on it
-- succeeds. Then the auction is closing since that time, every other auction is as it was, and so is the
-- inventory: the unit stays held while the result is computed. The call answers with the closing auction
-- and the event of it.
pub close_lem :
    (auction_id other now : ℕ) (db : AuctionDb) (a : AuctionRecord)
    → find_auction auction_id db.auctions ≡ some a
    → other ≢ auction_id
    → a.status ≡ live
    → ((now < a.ends_at) × (close auction_id now db ≡ err auction_not_due))
      ⊎ ((a.ends_at ≤ now)
          × (r : TransitionResult) × (after : AuctionDb) × (close auction_id now db ≡ ok (r, after))
          × IsMoved auction_id other
              (record a { status = closing; closing_at = some now })
              auction_closing
              db
              r
              after
          × (after.inventory ≡ db.inventory))
unfolding close close_unsettled begin_transition continue_with close_begun
close_lem auction_id other now db a e apart s =
    let m =
      transition_moves a (set_closing now) AuctionAudit.closing_audit (some auction_closing) db
        (named auction_id db.auctions a e) in
    elim (Bool-cases (ltb now a.ends_at)) [
      | inl early ↦ inl (ground arith, ground arith)
      | inr due ↦ inr (
        ground arith,
        moved_result a (set_closing now) (some auction_closing),
        moved_rows a (set_closing now) AuctionAudit.closing_audit db.inventory db,
        ground (arith, m),
        moved_rows-IsMoved auction_id other a (set_closing now) AuctionAudit.closing_audit
            auction_closing db.inventory db (λ b. refl) e apart,
        refl,
      )
    ]

-- Once a live auction has been closed, a close that comes late finds it closing, calculating or
-- completed, and in each case it answers that nothing changed and writes nothing.
close-late :
    (auction_id now : ℕ) (db : AuctionDb) (a : AuctionRecord)
    → find_auction auction_id db.auctions ≡ some a
    → (a.status ≡ closing) ⊎ ((a.status ≡ calculating) ⊎ (a.status ≡ completed))
    → close auction_id now db ≡ ok (unchanged a, db)
unfolding close close_unsettled begin_transition continue_with
close-late auction_id now db a e (inl s) = ground (arith, s)
close-late auction_id now db a e (inr (inl s)) = ground (arith, s)
close-late auction_id now db a e (inr (inr s)) = ground (arith, s)
