-- ===== src/Results/Workflow/Progress.antt =====
-- A closed auction is decided by one run of `closeAuction`.
use howlow.Prelude.{
  ℕ, ◌≡◌, ◌≢◌, refl, ◌⊎◌, inl, inr, Bool, true, false, Option, none, some, List, ◌∷◌, ◌==◌, ltb,
  arith, Bool-cases, Option-cases,
}
use howlow.Errors.{ok}
use howlow.Catalog.Inventory.{ReservationRecord, find_held_reservation, find_product}
use howlow.Catalog.Inventory.Invariant.{IsValid}
use howlow.Catalog.Inventory.Release.{release_unit_succeeds}
use howlow.Auctions.Transitions.{closing, calculating, completed, status_eq}
use howlow.Auctions.Transitions
use howlow.Auctions.Rows.{AuctionRecord, find_auction}
use howlow.Orders.{
  new_order, OrderRecord, create_winner_order, insert_auction_order, insert_or_find, audit_created,
  find_by_auction, OrderDb, OrderSeed, InsertAuctionOrderInput,
}
use howlow.Results.Lub.{count_frozen_bids, calculate_lub_v1}
use howlow.Results.Checksum.{Postgres}
use howlow.Results.Rows.{ResultRecord, ResultDb, find_result}
use howlow.Results.Repository.{ResultSeed, new_result}
use howlow.Results.Close.{
  Seeds, result_input, order_input, apply_consequences, owe_order, is_winner,
}
use howlow.Results.Close.Checks.{Positive}

-- What a closed auction stands in, where nothing has decided it: its unit's product is there, the
-- stock's counts are those that the lifecycle keeps, and the columns pass their CHECKs.
pub record IsUndecided (a : AuctionRecord) (db : ResultDb) : Type 0 where
  pub found : find_auction a.id db.tables.auctions.auctions ≡ some a
  pub hours : ltb 0 a.winner_payment_hours ≡ true
  pub stock : IsValid db.tables.auctions.inventory
  pub product :
      (r : ReservationRecord)
      → find_held_reservation a.id db.tables.auctions.inventory ≡ some r
      → find_product r.product_id db.tables.auctions.inventory ≢ none
  pub positive : Positive db.tables.bids
  pub undecided : find_result a.id db.results ≡ none

create_winner_order_succeeds :
    (seed : OrderSeed) (i : InsertAuctionOrderInput) (db : OrderDb)
    → ltb 0 i.payment_window_hours ≡ true
    → (o : OrderRecord) × (b : Bool) × (t : OrderDb) × (create_winner_order seed i db
        ≡ ok ((o, b), t))
unfolding create_winner_order insert_auction_order insert_or_find audit_created
create_winner_order_succeeds seed i db hours =
    elim (Option-cases (find_by_auction i.auction_id db)) [
      | inl e ↦ (
        new_order seed i,
        true,
        record { orders = new_order seed i ∷ db.orders; audit = seed.id ∷ db.audit },
        ground (arith, e, hours),
      )
      | inr (o, e) ↦ (o, false, db, ground (arith, e, hours))
    ]

-- A row that names a winner names the user and the amount.
abbrev pub IsWhole : ResultRecord → Type 0
IsWhole r =
    (is_winner r.outcome ≡ false)
    ⊎ ((user : ℕ) × (amount : ℕ) × (is_winner r.outcome ≡ true)
        × (r.winner_user_id ≡ some user)
        × (r.winning_amount_minor ≡ some amount))

owe_order_succeeds :
    (seeds : Seeds) (a : AuctionRecord) (user amount : ℕ) (db : ResultDb)
    → ltb 0 a.winner_payment_hours ≡ true
    → (order : Option OrderRecord) × (after : ResultDb) × (owe_order seeds a
          (some user)
          (some amount)
          db
        ≡ ok (order, after))
unfolding owe_order
owe_order_succeeds seeds a user amount db hours =
    let (o, b, t, e) =
      create_winner_order_succeeds seeds.order (order_input a user amount) db.orders hours in
    (some o, record db { orders = t }, ground (arith, e))

pub apply_consequences_succeeds :
    (seeds : Seeds) (a : AuctionRecord) (r : ResultRecord) (db : ResultDb)
    → IsUndecided a db
    → IsWhole r
    → (t : List ResultRecord)
    → (order : Option OrderRecord) × (after : ResultDb) × (apply_consequences seeds a r
          (record db { results = t })
        ≡ ok (order, after))
unfolding apply_consequences
apply_consequences_succeeds seeds a r db u (inl n) t =
    let (o, inv, e) =
      release_unit_succeeds a.id seeds.now (seeds.reasons r.outcome) db.tables.auctions.inventory
        u.stock u.product in
    (
      none,
      record db {
        tables = record (db.tables) { auctions = record (db.tables.auctions) { inventory = inv } };
        results = t;
      },
      rw n (ground (arith, e)),
    )
apply_consequences_succeeds seeds a r db u (inr (user, amount, w, e, f)) t =
    let (order, after, run) =
      owe_order_succeeds seeds a user amount (record db { results = t }) u.hours in
    (order, after, rw (w, e, f) run)

pub new_result-IsWhole :
    (pg : Postgres) (seed : ResultSeed) (a : AuctionRecord) (bids : _)
    → status_eq a.status Transitions.cancelled ≡ false
    → IsWhole (new_result seed (result_input pg a bids))
new_result-IsWhole pg seed a bids n = elim (Option-cases (calculate_lub_v1 a.id bids)) [
  | inr (w, e) ↦ inr (w.user_id, w.amount_minor, rw (n, e) refl, rw (n, e) refl, rw (n, e) refl)
  | inl e ↦ elim (Bool-cases ((count_frozen_bids a.id bids).total_valid_bids == 0)) [
    | inl z ↦ inl (rw (n, e, z) refl)
    | inr z ↦ inl (rw (n, e, z) refl)
  ]
]
