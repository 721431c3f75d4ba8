-- ===== src/Catalog/Inventory/RoundTrip.antt =====
-- A unit that is reserved and then released.
use howlow.Prelude.{
  ℕ, ◌+◌, ◌-◌, ◌≡◌, refl, sym, inl, inr, true, some, Text, List, [], ◌∷◌, ◌==◌, arith, first_where,
  update_where, first_where_holds, first_where-update_where, ==_iff, subst,
}
use howlow.Errors.{ok}
use howlow.Catalog.Inventory.{
  ProductRecord, ReservationOutcome, ReleaseOutcome, InventoryDb, is_held_row, release_row,
  find_product, reserve_unit, release_unit, release_held, settle_release, mark_reservation_released,
  subtract_reserved, with_reserved, available_quantity, released_event,
}
use howlow.Catalog.Inventory.Reserve.{reserve_unit_cases, reserved_rows}

-- What is added to a count and taken off again leaves the products as they were.
taken_off :
    (id quantity : ℕ) (xs : List ProductRecord)
    → update_where
        (λ (q : ProductRecord). q.id == id)
        (with_reserved (λ n. n - quantity))
        (update_where (λ (q : ProductRecord). q.id == id) (with_reserved (λ n. n + quantity)) xs)
      ≡ xs
unfolding update_where
taken_off id quantity [] = refl
taken_off id quantity (x ∷ xs) = ground (arith, taken_off id quantity xs)

abbrev pub released_outcome : ℕ → ReleaseOutcome
released_outcome n = record { released = true; available_after = n }

-- A unit that was reserved anew is released by the next release of its auction: the call succeeds,
-- every product is as it was before, and the units that it reports as available are those before.
pub release_unit-reserve_unit :
    (fresh product_id auction_id quantity now : ℕ) (reason : Text) (db mid : InventoryDb)
    (r : ReservationOutcome)
    → reserve_unit fresh product_id auction_id quantity db ≡ ok (r, mid)
    → r.created ≡ true
    → (p : ProductRecord) × (after : InventoryDb) × (find_product product_id db ≡ some p)
      × (release_unit auction_id reason now mid
          ≡ ok (released_outcome (available_quantity p), after))
      × (after.products ≡ db.products)
unfolding release_unit release_held settle_release mark_reservation_released subtract_reserved
    first_where update_where
release_unit-reserve_unit fresh product_id auction_id quantity now reason db mid r h created =
    elim (reserve_unit_cases fresh product_id auction_id quantity db mid r h) [
      | inl (_, _, old) ↦ absurd (cc (old, created))
      | inr (p, found, free, room, _, _, rows) ↦
          let named : p.id ≡ product_id =
            (==_iff _ _).0
              (first_where_holds (λ (q : ProductRecord). q.id == product_id) db.products p found) in
          let own = subst (λ i. find_product i db ≡ some p) (sym named) found in
          let grown =
            first_where-update_where (λ (q : ProductRecord). q.id == p.id)
              (λ (q : ProductRecord). q.id == p.id) (with_reserved (λ n. n + quantity)) db.products
              p (λ b. refl) own in
          (
            p,
            end p,
            found,
            rw rows (ground (arith, grown, room)),
            taken_off p.id quantity db.products,
          )
    ]
  where
    end : ProductRecord → InventoryDb
    end p =
        let held_db = reserved_rows fresh p auction_id quantity db in
        record {
          products =
              update_where (λ (q : ProductRecord). q.id == p.id) (with_reserved (λ n. n - quantity))
                held_db.products;
          reservations =
              update_where (is_held_row fresh) (release_row now reason) held_db.reservations;
          audit = (released_event, p.id) ∷ held_db.audit;
        }
