-- ===== src/Catalog/Inventory.antt =====
-- apps/api/src/modules/catalog/inventory.ts, with the statements of catalogRepository.ts that it runs.
-- Quantities and stock are numbers: the table checks 0 <= reserved_quantity <= stock_quantity.
pub mod Invariant
pub mod Reserve
pub mod Release
pub mod RoundTrip
mod Tests
use howlow.Prelude.{
  ℕ, ◌+◌, ◌-◌, Bool, true, false, Option, none, some, Text, List, [], ◌∷◌, ◌==◌, ◌&&◌, ltb,
  first_where, update_where, count_where, rows_where, if◌then◌else◌,
}
use howlow.Errors.{
  product_not_found, insufficient_inventory, check_violation, Result, ok, err, Tx, pure, throw,
  throw_if, or_throw, gets, modify, ◌>>=◌, ◌>>◌,
}

pub record ProductRecord : Type 0 where
  pub id : ℕ
  pub stock_quantity : ℕ
  pub reserved_quantity : ℕ

-- `availableQuantity`
abbrev pub available_quantity : ProductRecord → ℕ
available_quantity p = p.stock_quantity - p.reserved_quantity

pub data ReservationState : Type 0 where
  held released consumed : ReservationState

abbrev pub is_held : ReservationState → Bool
is_held held = true
is_held released = false
is_held consumed = false

pub record ReservationRecord : Type 0 where
  pub id : ℕ
  pub product_id : ℕ
  pub auction_id : ℕ
  pub quantity : ℕ
  pub state : ReservationState
  pub reason : Option Text
  pub released_at : Option ℕ

pub data InventoryEvent : Type 0 where
  reserved_event released_event reconciliation_failed_event : InventoryEvent

-- The tables; the newest row of `audit` stands first.
pub record InventoryDb : Type 0 where
  pub products : List ProductRecord
  pub reservations : List ReservationRecord
  pub audit : List (InventoryEvent × ℕ)

-- `lockProductById`, `findProductById`
abbrev pub find_product : ℕ → InventoryDb → Option ProductRecord
find_product id db = first_where (λ p. p.id == id) db.products

abbrev pub holds_for : ℕ → ReservationRecord → Bool
holds_for auction_id r = r.auction_id == auction_id && is_held r.state

-- `findHeldReservation`
abbrev pub find_held_reservation : ℕ → InventoryDb → Option ReservationRecord
find_held_reservation auction_id db = first_where (holds_for auction_id) db.reservations

abbrev pub new_reservation : ℕ → ℕ → ℕ → ℕ → ReservationRecord
new_reservation id product_id auction_id quantity = record {
  id = id;
  product_id = product_id;
  auction_id = auction_id;
  quantity = quantity;
  state = held;
  reason = none;
  released_at = none;
}

-- `insertReservation`: ON CONFLICT (auction_id) WHERE state = 'held' DO NOTHING.
unfoldable pub insert_reservation : ReservationRecord → Tx InventoryDb (Option ReservationRecord)
insert_reservation r db = elim (find_held_reservation r.auction_id db) [
  | some other ↦ ok (none, db)
  | none ↦ ok (some r, record db { reservations = r ∷ db.reservations })
]

abbrev pub release_row : ℕ → Text → ReservationRecord → ReservationRecord
release_row now reason r = record r {
  state = released;
  reason = some reason;
  released_at = some now;
}

abbrev pub is_held_row : ℕ → ReservationRecord → Bool
is_held_row id r = r.id == id && is_held r.state

-- `markReservationReleased`: the row, where it was still held.
unfoldable pub mark_reservation_released : ℕ → Text → ℕ → Tx InventoryDb (Option ReservationRecord)
mark_reservation_released id reason now db = elim (first_where (is_held_row id) db.reservations) [
  | none ↦ ok (none, db)
  | some r ↦ ok (
    some (release_row now reason r),
    record db {
      reservations = update_where (is_held_row id) (release_row now reason) db.reservations;
    },
  )
]

abbrev pub with_reserved : (ℕ → ℕ) → ProductRecord → ProductRecord
with_reserved f p = record p { reserved_quantity = f p.reserved_quantity }

-- `adjustReservedQuantity` with a positive delta; the CHECK is `reserved_quantity <= stock_quantity`.
unfoldable pub add_reserved : ProductRecord → ℕ → Tx InventoryDb (Unit {0})
add_reserved p delta = do
  throw_if (ltb p.stock_quantity (p.reserved_quantity + delta)) check_violation
  modify (λ db. record db {
    products = update_where (λ q. q.id == p.id) (with_reserved (λ n. n + delta)) db.products;
  })

-- `adjustReservedQuantity` with a negative delta; the CHECK is `reserved_quantity >= 0`.
unfoldable pub subtract_reserved : ProductRecord → ℕ → Tx InventoryDb (Unit {0})
subtract_reserved p delta = do
  throw_if (ltb p.reserved_quantity delta) check_violation
  modify (λ db. record db {
    products = update_where (λ q. q.id == p.id) (with_reserved (λ n. n - delta)) db.products;
  })

abbrev audit : InventoryEvent → ℕ → Tx InventoryDb (Unit {0})
audit event product_id = modify (λ db. record db { audit = (event, product_id) ∷ db.audit })

pub record ReservationOutcome : Type 0 where
  pub reservation : ReservationRecord
  pub created : Bool
  pub available_after : ℕ

abbrev outcome : ReservationRecord → Bool → ℕ → ReservationOutcome
outcome r created available = record {
  reservation = r;
  created = created;
  available_after = available;
}

-- What follows the insert: the count and the audit row, or the row that won the race.
unfoldable pub settle_reservation :
    ProductRecord → ℕ → ℕ → Option ReservationRecord → Tx InventoryDb ReservationOutcome
settle_reservation p auction_id quantity none = do
  winner ← or_throw insufficient_inventory (← gets (find_held_reservation auction_id))
  pure (outcome winner false (available_quantity p))
settle_reservation p auction_id quantity (some r) = do
  add_reserved p quantity
  audit reserved_event p.id
  pure (outcome r true (available_quantity p - quantity))

unfoldable pub claim_unit :
    ℕ → ProductRecord → ℕ → ℕ → Option ReservationRecord → Tx InventoryDb ReservationOutcome
claim_unit fresh p auction_id quantity (some existing) =
    pure (outcome existing false (available_quantity p))
claim_unit fresh p auction_id quantity none = do
  throw_if (ltb (available_quantity p) quantity) insufficient_inventory
  inserted ← insert_reservation (new_reservation fresh p.id auction_id quantity)
  settle_reservation p auction_id quantity inserted

-- `reserveUnit`. `fresh` is the new row's gen_random_uuid().
unfoldable pub reserve_unit : ℕ → ℕ → ℕ → ℕ → Tx InventoryDb ReservationOutcome
reserve_unit fresh product_id auction_id quantity = do
  product ← or_throw product_not_found (← gets (find_product product_id))
  claim_unit fresh product auction_id quantity (← gets (find_held_reservation auction_id))

pub record ReleaseOutcome : Type 0 where
  pub released : Bool
  pub available_after : ℕ

unfoldable pub settle_release :
    ProductRecord → ReservationRecord → Option ReservationRecord → Tx InventoryDb ReleaseOutcome
settle_release p r none = pure (record { released = false; available_after = available_quantity p })
settle_release p r (some row) = do
  subtract_reserved p r.quantity
  audit released_event p.id
  pure (record { released = true; available_after = available_quantity p + r.quantity })

unfoldable pub release_held : Text → ℕ → Option ReservationRecord → Tx InventoryDb ReleaseOutcome
release_held reason now none = pure (record { released = false; available_after = 0 })
release_held reason now (some r) = do
  product ← or_throw product_not_found (← gets (find_product r.product_id))
  row ← mark_reservation_released r.id reason now
  settle_release product r row

-- `releaseUnit`
unfoldable pub release_unit : ℕ → Text → ℕ → Tx InventoryDb ReleaseOutcome
release_unit auction_id reason now = do
  release_held reason now (← gets (find_held_reservation auction_id))

-- `sumHeldReservations`
unfoldable pub sum_held : ℕ → List ReservationRecord → ℕ
sum_held product_id [] = 0
sum_held product_id (r ∷ rs) =
    (if r.product_id == product_id && is_held r.state then r.quantity else 0)
    + sum_held product_id rs

pub record InventoryReport : Type 0 where
  pub consistent : Bool
  pub cached_reserved : ℕ
  pub held_reserved : ℕ
  pub stock_quantity : ℕ

abbrev pub inventory_report : ProductRecord → ℕ → InventoryReport
inventory_report p total = record {
  consistent = total == p.reserved_quantity;
  cached_reserved = p.reserved_quantity;
  held_reserved = total;
  stock_quantity = p.stock_quantity;
}

-- `reconcileProductInventory`
unfoldable pub reconcile_product_inventory : ℕ → Tx InventoryDb InventoryReport
reconcile_product_inventory product_id = do
  product ← or_throw product_not_found (← gets (find_product product_id))
  total ← gets (λ db. sum_held product_id db.reservations)
  let report = inventory_report product total
  if report.consistent
      then pure report
      else audit reconciliation_failed_event product_id >> pure report
