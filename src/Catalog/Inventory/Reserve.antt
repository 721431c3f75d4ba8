-- ===== src/Catalog/Inventory/Reserve.antt =====
-- Reserving a unit.
use howlow.Prelude.{
  ℕ, ◌+◌, ◌≤◌, ◌≡◌, refl, ◌⊎◌, inl, inr, true, false, none, some, List, ◌∷◌, ◌==◌, arith,
  All-update_where, All-zip, sym, ap, ◌∙◌, first_where, update_where, if◌then◌else◌, Bool-cases,
  Option-cases, first_where_holds, ==_iff,
}
use howlow.Errors.{ok}
use howlow.Catalog.Inventory.{
  ProductRecord, ReservationRecord, ReservationOutcome, InventoryDb, sum_held, find_product,
  find_held_reservation, reserve_unit, claim_unit, settle_reservation, insert_reservation,
  add_reserved, new_reservation, with_reserved, reserved_event,
}
use howlow.Catalog.Inventory.Invariant.{IsCounted, IsValid, keyed-update}

-- The tables after a unit is reserved.
abbrev pub reserved_rows : ℕ → ProductRecord → ℕ → ℕ → InventoryDb → InventoryDb
reserved_rows fresh p auction_id quantity db = record {
  products =
      update_where (λ (q : ProductRecord). q.id == p.id) (with_reserved (λ n. n + quantity))
        db.products;
  reservations = new_reservation fresh p.id auction_id quantity ∷ db.reservations;
  audit = (reserved_event, p.id) ∷ db.audit;
}

-- What an accepted call has done: it found a held reservation and changed nothing, or it reserved.
pub reserve_unit_cases :
    (fresh product_id auction_id quantity : ℕ) (db after : InventoryDb) (r : ReservationOutcome)
    → reserve_unit fresh product_id auction_id quantity db ≡ ok (r, after)
    → ((find_held_reservation auction_id db ≡ some r.reservation)
        × (after ≡ db)
        × (r.created ≡ false))
      ⊎ ((p : ProductRecord) × (find_product product_id db ≡ some p)
          × (find_held_reservation auction_id db ≡ none)
          × (p.reserved_quantity + quantity ≤ p.stock_quantity)
          × (r.reservation ≡ new_reservation fresh p.id auction_id quantity)
          × (r.created ≡ true)
          × (after ≡ reserved_rows fresh p auction_id quantity db))
unfolding reserve_unit claim_unit settle_reservation insert_reservation add_reserved
reserve_unit_cases fresh product_id auction_id quantity db after r h =
    elim (Option-cases (find_product product_id db)) [
      | inl e ↦ ground arith
      | inr (p, e) ↦ elim (Option-cases (find_held_reservation auction_id db)) [
        | inl f ↦ inr (p, e, f, ground arith, ground arith, ground arith, ground arith)
        | inr (x, f) ↦ inl (ground arith, ground arith, ground arith)
      ]
    ]

row-IsCounted :
    (fresh auction_id quantity : ℕ) (p : ProductRecord) (rs : List ReservationRecord)
    (q : ProductRecord)
    → p.reserved_quantity + quantity ≤ p.stock_quantity
    → (q.id ≡ p.id → q ≡ p)
    → IsCounted rs q
    → IsCounted
        (new_reservation fresh p.id auction_id quantity ∷ rs)
        (if q.id == p.id then with_reserved (λ n. n + quantity) q else q)
unfolding sum_held
row-IsCounted fresh auction_id quantity p rs q room same c = elim (Bool-cases (q.id == p.id)) [
  | inl t ↦ rw t (record {
    cached = ground (arith, c.cached);
    stocked = omega (
      arith,
      ap (λ (x : ProductRecord). x.reserved_quantity) (same ((==_iff _ _).0 t)),
      ap (λ (x : ProductRecord). x.stock_quantity) (same ((==_iff _ _).0 t)),
    );
  })
  | inr n ↦ rw n (record { cached = ground (arith, c.cached); stocked = c.stocked })
]

-- Reserving keeps the tables valid, where the new row's id is one that no reservation has.
pub reserve_unit-IsValid :
    (fresh product_id auction_id quantity : ℕ) (db after : InventoryDb) (r : ReservationOutcome)
    → first_where (λ (x : ReservationRecord). x.id == fresh) db.reservations ≡ none
    → IsValid db
    → reserve_unit fresh product_id auction_id quantity db ≡ ok (r, after)
    → IsValid after
reserve_unit-IsValid fresh product_id auction_id quantity db after r unused v h =
    elim (reserve_unit_cases fresh product_id auction_id quantity db after r h) [
      | inl (_, same, _) ↦ rw same v
      | inr (p, found, free, room, _, _, e) ↦ rw e (record {
        keyed = keyed-update db p.id (λ n. n + quantity) v.keyed;
        distinct = (unused, λ _. free, v.distinct);
        counted =
            All-update_where _ _ _ _ db.products
              (λ q c.
                row-IsCounted fresh auction_id quantity p db.reservations q room
                  (one_row product_id p q found c.1) c.0)
              (All-zip _ _ db.products v.counted v.keyed);
      })
    ]
  where
    one_row :
        (id : ℕ) (p q : ProductRecord)
        → find_product id db ≡ some p
        → find_product q.id db ≡ some q
        → q.id ≡ p.id
        → q ≡ p
    one_row id p q found own same =
        let named : p.id ≡ id =
          (==_iff _ _).0
            (first_where_holds (λ (x : ProductRecord). x.id == id) db.products p found) in
        let e : some q ≡ some p = sym own ∙ ap (λ i. find_product i db) (same ∙ named) ∙ found in
        cc e

-- The held row of the auction is the one of the result, and of another auction it is as it was.
pub find_held_reservation-reserve_unit :
    (fresh product_id auction_id quantity : ℕ) (db after : InventoryDb) (r : ReservationOutcome)
    (other : ℕ)
    → reserve_unit fresh product_id auction_id quantity db ≡ ok (r, after)
    → find_held_reservation other after
      ≡ (if auction_id == other then some r.reservation else find_held_reservation other db)
unfolding first_where
find_held_reservation-reserve_unit fresh product_id auction_id quantity db after r other h =
    elim (reserve_unit_cases fresh product_id auction_id quantity db after r h) [
      | inl (e, same, _) ↦ rw same (elim (Bool-cases (auction_id == other)) [
        | inl t ↦ rw (t, sym ((==_iff _ _).0 t)) e
        | inr n ↦ rw n refl
      ])
      | inr (p, found, free, room, e, _, rows) ↦ rw (rows, e) (ground arith)
    ]
