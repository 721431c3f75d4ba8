-- ===== src/Catalog/Inventory/Tests.antt =====
-- One product of which a unit is reserved and released.
use howlow.Prelude.{◌≡◌, refl, true, some, [], ◌∷◌, first_where, update_where, arith}
use howlow.Errors.{ok}
use howlow.Catalog.Inventory.{
  ProductRecord, ReservationOutcome, ReleaseOutcome, InventoryDb, new_reservation, sum_held,
  find_product, find_held_reservation, available_quantity, reserve_unit, claim_unit,
  settle_reservation, insert_reservation, add_reserved, release_unit, release_held, settle_release,
  mark_reservation_released, subtract_reserved,
}
use howlow.Catalog.Inventory.Invariant.{IsValid}
use howlow.Catalog.Inventory.Reserve.{
  reserved_rows, reserve_unit-IsValid, find_held_reservation-reserve_unit,
}
use howlow.Catalog.Inventory.Release.{released_rows, release_unit-IsValid}
use howlow.Catalog.Inventory.RoundTrip.{released_outcome, release_unit-reserve_unit}

abbrev radio : ProductRecord
radio = record { id = 1; stock_quantity = 3; reserved_quantity = 0 }

abbrev reserved_radio : ProductRecord
reserved_radio = record { id = 1; stock_quantity = 3; reserved_quantity = 2 }

abbrev stock : InventoryDb
stock = record { products = radio ∷ []; reservations = []; audit = [] }

abbrev held_db : InventoryDb
held_db = reserved_rows 77 radio 10 2 stock

abbrev released_db : InventoryDb
released_db = released_rows [] 500 (new_reservation 77 1 10 2) reserved_radio held_db

abbrev reservation : ReservationOutcome
reservation = record {
  reservation = new_reservation 77 1 10 2;
  created = true;
  available_after = 1;
}

abbrev release : ReleaseOutcome
release = record { released = true; available_after = 3 }

stock-IsValid : IsValid stock
unfolding first_where sum_held
stock-IsValid = record {
  keyed = (refl, tt);
  distinct = tt;
  counted = (record { cached = refl; stocked = omega arith }, tt);
}

reserved_run : reserve_unit 77 1 10 2 stock ≡ ok (reservation, held_db)
unfolding first_where update_where reserve_unit claim_unit settle_reservation insert_reservation
    add_reserved
reserved_run = refl

released_run : release_unit 10 [] 500 held_db ≡ ok (release, released_db)
unfolding first_where update_where release_unit release_held settle_release
    mark_reservation_released subtract_reserved
released_run = refl

held_db-IsValid : IsValid held_db
unfolding first_where
held_db-IsValid =
    reserve_unit-IsValid 77 1 10 2 stock held_db reservation refl stock-IsValid reserved_run

reserve_unit-IsValid_example : IsValid held_db
unfolding first_where
reserve_unit-IsValid_example =
    reserve_unit-IsValid 77 1 10 2 stock held_db reservation refl stock-IsValid reserved_run

release_unit-IsValid_example : IsValid released_db
release_unit-IsValid_example =
    release_unit-IsValid 10 500 [] held_db released_db release held_db-IsValid released_run

find_held_reservation-reserve_unit_example :
    find_held_reservation 10 held_db ≡ some (new_reservation 77 1 10 2)
find_held_reservation-reserve_unit_example =
    find_held_reservation-reserve_unit 77 1 10 2 stock held_db reservation 10 reserved_run

release_unit-reserve_unit_example :
    (p : ProductRecord) × (after : InventoryDb) × (find_product 1 stock ≡ some p)
    × (release_unit 10 [] 500 held_db ≡ ok (released_outcome (available_quantity p), after))
    × (after.products ≡ stock.products)
release_unit-reserve_unit_example =
    release_unit-reserve_unit 77 1 10 2 500 [] stock held_db reservation reserved_run refl
