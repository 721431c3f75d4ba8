-- ===== src/Results/Close/Consequence.antt =====
-- What a decision asks of the stock and of the orders.
use howlow.Prelude.{
  ℕ, ◌≡◌, refl, ◌∙◌, inl, inr, Bool, true, false, Option, none, some, arith, Bool-cases,
  Option-cases, ltb,
}
use howlow.Errors.{ok, Result-cases}
use howlow.Catalog.Inventory.{release_unit, find_held_reservation}
use howlow.Catalog.Inventory.Invariant.{IsValid}
use howlow.Catalog.Inventory.Release.{find_held_reservation-release_unit}
use howlow.Auctions.Rows.{AuctionRecord}
use howlow.Orders.{OrderRecord, OrderDb, create_winner_order, find_by_auction}
use howlow.Results.Rows.{
  AuctionOutcome, winner, no_unique_bid, no_bids, cancelled, ResultRecord, ResultDb,
}
use howlow.Results.Close.{Seeds, order_input, apply_consequences, owe_order, is_winner}
use howlow.Results.Close.Effect.{create_winner_order_cases}

-- What the outcome asks of the stock and of the orders, once it is in force.
pub data Consequence (a : AuctionRecord) (r : ResultRecord) (order : Option OrderRecord)
    (db : ResultDb) : Type 0 where
  owed :
      (user amount : ℕ) (o : OrderRecord)
      → r.outcome ≡ winner
      → r.winner_user_id ≡ some user
      → r.winning_amount_minor ≡ some amount
      → ltb 0 a.winner_payment_hours ≡ true
      → order ≡ some o
      → find_by_auction a.id db.orders ≡ some o
      → Consequence a r order db
  free :
      is_winner r.outcome ≡ false
      → order ≡ none
      → find_held_reservation a.id db.tables.auctions.inventory ≡ none
      → Consequence a r order db

-- What the steps of a decision leave as it was.
pub record Kept (db after : ResultDb) : Type 0 where
  pub wallet : after.tables.wallet ≡ db.tables.wallet
  pub bids : after.tables.bids ≡ db.tables.bids
  pub participants : after.tables.participants ≡ db.tables.participants

pub is_winner_sound : (o : AuctionOutcome) → is_winner o ≡ true → o ≡ winner
is_winner_sound winner h = refl
is_winner_sound no_unique_bid h = cc
is_winner_sound no_bids h = cc
is_winner_sound cancelled h = cc

owe_order-some :
    (seeds : Seeds) (a : AuctionRecord) (user amount : ℕ) (db after : ResultDb)
    (order : Option OrderRecord)
    → owe_order seeds a (some user) (some amount) db ≡ ok (order, after)
    → (o : OrderRecord) × (b : Bool) × (t : OrderDb) × (create_winner_order seeds.order
          (order_input a user amount)
          db.orders
        ≡ ok ((o, b), t))
      × (order ≡ some o)
      × (after ≡ record db { orders = t })
unfolding owe_order
owe_order-some seeds a user amount db after order h =
    elim (Result-cases (create_winner_order seeds.order (order_input a user amount) db.orders)) [
      | inl (e, f) ↦ absurd (ground arith)
      | inr (((o, b), t), f) ↦ (o, b, t, f, ground arith, ground arith)
    ]

pub owe_order_cases :
    (seeds : Seeds) (a : AuctionRecord) (r : ResultRecord) (db after : ResultDb)
    (order : Option OrderRecord)
    → r.outcome ≡ winner
    → owe_order seeds a r.winner_user_id r.winning_amount_minor db ≡ ok (order, after)
    → Consequence a r order after
      × Kept db after
      × (after.results ≡ db.results)
      × (after.tables.auctions ≡ db.tables.auctions)
unfolding owe_order
owe_order_cases seeds a r db after order won h = elim (Option-cases r.winner_user_id) [
  | inl e ↦ absurd (ground arith)
  | inr (user, e) ↦ elim (Option-cases r.winning_amount_minor) [
    | inl f ↦ absurd (ground arith)
    | inr (amount, f) ↦
        let (o, b, t, run, own, rows) =
          owe_order-some seeds a user amount db after order (rw (e, f) at h) in
        let (hours, found) =
          create_winner_order_cases seeds.order (order_input a user amount) db.orders t o b run in
        (
          owed user amount o won e f hours own (rw rows found),
          record { wallet = rw rows refl; bids = rw rows refl; participants = rw rows refl },
          rw rows refl,
          rw rows refl,
        )
  ]
]

pub apply_consequences_cases :
    (seeds : Seeds) (a : AuctionRecord) (r : ResultRecord) (db after : ResultDb)
    (order : Option OrderRecord)
    → IsValid db.tables.auctions.inventory
    → apply_consequences seeds a r db ≡ ok (order, after)
    → Consequence a r order after
      × Kept db after
      × (after.results ≡ db.results)
      × (after.tables.auctions.auctions ≡ db.tables.auctions.auctions)
unfolding apply_consequences
apply_consequences_cases seeds a r db after order v h = elim (Bool-cases (is_winner r.outcome)) [
  | inl t ↦
      let (c, k, results, auctions) =
        owe_order_cases seeds a r db after order (is_winner_sound r.outcome t) (rw t at h) in
      (c, k, results, rw auctions refl)
  | inr n ↦
      elim (Result-cases
        (release_unit a.id (seeds.reasons r.outcome) seeds.now db.tables.auctions.inventory)) [
          | inl (e, f) ↦ absurd (ground arith)
          | inr ((o, inv), f) ↦
              let none_held =
                find_held_reservation-release_unit a.id seeds.now (seeds.reasons r.outcome)
                  db.tables.auctions.inventory inv o a.id v f in
              let rows : after ≡ record db {
                tables = record (db.tables) {
                  auctions = record (db.tables.auctions) { inventory = inv };
                };
              } =
                ground arith in
              (
                free n (ground arith) (rw rows (none_held ∙ ground arith)),
                record { wallet = rw rows refl; bids = rw rows refl; participants = rw rows refl },
                rw rows refl,
                rw rows refl,
              )
        ]
]
