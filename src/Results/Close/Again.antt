-- ===== src/Results/Close/Again.antt =====
-- Deciding an auction that is decided.
use howlow.Prelude.{ℕ, ◌≡◌, refl, ◌∙◌, ◌⊎◌, inl, inr, true, false, Option, some, arith, subst}
use howlow.Errors.{ok, >>=-ok}
use howlow.Catalog.Inventory.{release_unit, release_held}
use howlow.Catalog.Inventory.Invariant.{IsValid}
use howlow.Auctions.Transitions.{calculating, completed, status_eq}
use howlow.Auctions.Transitions
use howlow.Auctions.Rows.{AuctionRecord, find_auction}
use howlow.Auctions.Lifecycle.{set_completed}
use howlow.Orders.{OrderRecord}
use howlow.Results.Checksum.{Postgres}
use howlow.Results.Rows.{ResultRecord, ResultDb, find_result}
use howlow.Results.Repository.{InsertResultInput, insert_result, passes_checks}
use howlow.Results.Close.{
  Seeds, Decision, is_closable, load_closable, result_input, apply_consequences, owe_order,
  audit_decision, complete_open, settle_decision, decide, order_input,
}
use howlow.Results.Close.Effect.{create_winner_order-found, complete_completed}
use howlow.Results.Close.Consequence.{Consequence, owed, free}
use howlow.Results.Close.Decided.{stored_after, IsDecided, Settled, decide-IsDecided}

-- Consequences that are in force are not brought about again.
apply_consequences_idle :
    (seeds : Seeds) (a : AuctionRecord) (r : ResultRecord) (order : Option OrderRecord)
    (db : ResultDb)
    → Consequence a r order db
    → apply_consequences seeds a r db ≡ ok (order, db)
unfolding apply_consequences owe_order release_unit release_held
apply_consequences_idle seeds a r order db (owed user amount o w u m hours own found) =
    let e =
      create_winner_order-found seeds.order (order_input a user amount) db.orders o hours found in
    rw (w, u, m, own) (ground (arith, e))
apply_consequences_idle seeds a r order db (free n own none_held) =
    rw (n, own) (ground (arith, none_held))

complete_open_idle :
    (a : AuctionRecord) (db : ResultDb)
    → find_auction a.id db.tables.auctions.auctions ≡ some a
    → (status_eq a.status Transitions.cancelled ≡ true) ⊎ (a.status ≡ completed)
    → complete_open a db ≡ ok (tt, db)
unfolding complete_open
complete_open_idle a db found (inl t) = rw t refl
complete_open_idle a db found (inr at) =
    let e = complete_completed db.tables.auctions a found at in ground (arith, e, at)

settle_decision_idle :
    (seeds : Seeds) (a : AuctionRecord) (r : ResultRecord) (order : Option OrderRecord)
    (db : ResultDb)
    → find_auction a.id db.tables.auctions.auctions ≡ some a
    → (status_eq a.status Transitions.cancelled ≡ true) ⊎ (a.status ≡ completed)
    → Consequence a r order db
    → settle_decision seeds a (r, false) db
      ≡ ok (record { auction = a; result = r; order = order; inserted = false }, db)
unfolding settle_decision audit_decision
settle_decision_idle seeds a r order db found over c =
    >>=-ok (apply_consequences seeds a r) _ db db order
      (apply_consequences_idle seeds a r order db c)
    ∙ >>=-ok (complete_open a) _ db db tt (complete_open_idle a db found over)

pub load_closable-found :
    (a : AuctionRecord) (db : ResultDb)
    → find_auction a.id db.tables.auctions.auctions ≡ some a
    → is_closable a.status ≡ true
    → load_closable a.id db ≡ ok (a, db)
unfolding load_closable
load_closable-found a db found closes = ground (arith, found, closes)

insert_result-found :
    (seeds : Seeds) (i : InsertResultInput) (r : ResultRecord) (db : ResultDb)
    → passes_checks i ≡ true
    → find_result i.auction_id db.results ≡ some r
    → insert_result seeds.result i db ≡ ok ((r, false), db)
unfolding insert_result
insert_result-found seeds i r db checks stored = rw (checks, stored) refl

decide_idle :
    (pg : Postgres) (seeds : Seeds) (a : AuctionRecord) (r : ResultRecord)
    (order : Option OrderRecord) (db : ResultDb)
    → find_auction a.id db.tables.auctions.auctions ≡ some a
    → (status_eq a.status Transitions.cancelled ≡ true) ⊎ (a.status ≡ completed)
    → is_closable a.status ≡ true
    → passes_checks (result_input pg a db.tables.bids) ≡ true
    → find_result a.id db.results ≡ some r
    → Consequence a r order db
    → decide pg seeds a.id db
      ≡ ok (record { auction = a; result = r; order = order; inserted = false }, db)
unfolding decide
decide_idle pg seeds a r order db found over closes checks stored c =
    >>=-ok (load_closable a.id) _ db db a (load_closable-found a db found closes)
    ∙ >>=-ok (insert_result seeds.result (result_input pg a db.tables.bids)) _ db db (r, false)
        (insert_result-found seeds (result_input pg a db.tables.bids) r db checks stored)
    ∙ settle_decision_idle seeds a r order db found over c

-- The input of the row depends on the auction by its id and by whether it is cancelled.
result_input_settled :
    (pg : Postgres) (a : AuctionRecord) (bids : _)
    → status_eq a.status Transitions.cancelled ≡ false
    → result_input pg (set_completed a) bids ≡ result_input pg a bids
result_input_settled pg a bids n = rw n refl

Consequence-completed :
    (a : AuctionRecord) (r : ResultRecord) (order : Option OrderRecord) (db : ResultDb)
    → Consequence a r order db
    → Consequence (set_completed a) r order db
Consequence-completed a r order db (owed user amount o w u m hours own found) =
    owed user amount o w u m hours own found
Consequence-completed a r order db (free n own none_held) = free n own none_held

again :
    (pg : Postgres) (seeds later : Seeds) (db after : ResultDb) (d : Decision) (b : AuctionRecord)
    → IsDecided pg seeds db after d
    → find_auction d.auction.id after.tables.auctions.auctions ≡ some b
    → Settled d.auction b
    → (x : AuctionRecord) × (find_auction d.auction.id after.tables.auctions.auctions ≡ some x)
      × (decide pg later d.auction.id after
          ≡ ok
              (record { auction = x; result = d.result; order = d.order; inserted = false }, after))
again pg seeds later db after d b x found (inl (t, same)) =
    let own = found ∙ rw same refl in
    (
      d.auction,
      own,
      decide_idle pg later d.auction d.result d.order after own (inl t) x.closable
          (rw x.kept.bids x.checked) (stored_after pg seeds db after d x.written) x.consequence,
    )
again pg seeds later db after d b x found (inr (n, same, _)) =
    let own = found ∙ rw same refl in
    (
      set_completed d.auction,
      own,
      decide_idle pg later (set_completed d.auction) d.result d.order after own (inr refl) refl
          (rw (x.kept.bids, result_input_settled pg d.auction db.tables.bids n) x.checked)
          (stored_after pg seeds db after d x.written)
          (Consequence-completed d.auction d.result d.order after x.consequence),
    )

-- Deciding an auction a second time, with whatever uuids, numbers and clock, writes nothing: it
-- reports the stored result and the order of the first decision, and that it inserted no row. The
-- stock's counts are those that the lifecycle keeps.
pub decide-again :
    (pg : Postgres) (seeds later : Seeds) (id : ℕ) (db after : ResultDb) (d : Decision)
    → IsValid db.tables.auctions.inventory
    → decide pg seeds id db ≡ ok (d, after)
    → (b : AuctionRecord) × (find_auction id after.tables.auctions.auctions ≡ some b)
      × (decide pg later id after
          ≡ ok
              (record { auction = b; result = d.result; order = d.order; inserted = false }, after))
decide-again pg seeds later id db after d v h =
    let (x, named) = decide-IsDecided pg seeds id db after d v h in
    let (b, found, settled) = x.settled in
    subst
      (λ i.
        (b : AuctionRecord) × (find_auction i after.tables.auctions.auctions ≡ some b)
        × (decide pg later i after
            ≡ ok (
              record { auction = b; result = d.result; order = d.order; inserted = false },
              after,
            )))
      named (again pg seeds later db after d b x found settled)
