-- ===== src/Catalog/Inventory/Invariant.antt =====
-- What holds of products and reservations between two transactions.
use howlow.Prelude.{
  ℕ, ◌≤◌, ◌≡◌, refl, true, none, some, List, [], ◌∷◌, ◌==◌, arith, All, first_where, update_where,
  if◌then◌else◌, Bool-cases, inl, inr, All-first_where, first_where_holds, ==_iff, subst,
  All-update_where, first_where-update_where,
}
use howlow.Errors.{ok}
use howlow.Catalog.Inventory.{
  ProductRecord, ReservationRecord, InventoryDb, is_held, holds_for, sum_held, find_product,
  reconcile_product_inventory, inventory_report, with_reserved,
}

-- Ids are a primary key, an auction holds at most one reservation, and a held one has a quantity.
abbrev pub Distinct : List ReservationRecord → Type 0
Distinct [] = Unit {0}
Distinct (r ∷ rs) =
    (first_where (λ x. x.id == r.id) rs ≡ none)
    × (is_held r.state ≡ true → first_where (holds_for r.auction_id) rs ≡ none)
    × Distinct rs

-- The cached count of a product is the sum of its held reservations, and within its stock.
pub record IsCounted (rs : List ReservationRecord) (p : ProductRecord) : Type 0 where
  pub cached : p.reserved_quantity ≡ sum_held p.id rs
  pub stocked : p.reserved_quantity ≤ p.stock_quantity

-- Ids of products are a primary key: a row is the one that its id finds.
pub record IsValid (db : InventoryDb) : Type 0 where
  pub keyed : All (λ p. find_product p.id db ≡ some p) db.products
  pub distinct : Distinct db.reservations
  pub counted : All (IsCounted db.reservations) db.products

-- A product whose tables are valid reconciles, and nothing is written.
pub reconcile_product_inventory-IsValid :
    (db : InventoryDb) (p : ProductRecord) (id : ℕ)
    → IsValid db
    → find_product id db ≡ some p
    → reconcile_product_inventory id db ≡ ok (inventory_report p (sum_held id db.reservations), db)
      × ((inventory_report p (sum_held id db.reservations)).consistent ≡ true)
unfolding reconcile_product_inventory
reconcile_product_inventory-IsValid db p id v found =
    let c = All-first_where (IsCounted db.reservations) _ db.products p v.counted found in
    let named : p.id ≡ id =
      (==_iff _ _).0 (first_where_holds (λ (q : ProductRecord). q.id == id) db.products p found) in
    let cached = subst (λ i. p.reserved_quantity ≡ sum_held i db.reservations) named c.cached in
    (ground (arith, found, cached), ground (arith, cached))

-- A change of the reserved count that keeps the ids keeps the key.
pub keyed-update :
    (db : InventoryDb) (id : ℕ) (f : ℕ → ℕ)
    → All (λ p. find_product p.id db ≡ some p) db.products
    → All
        (λ p.
          first_where
            (λ (q : ProductRecord). q.id == p.id)
            (update_where (λ (q : ProductRecord). q.id == id) (with_reserved f) db.products)
          ≡ some p)
        (update_where (λ (q : ProductRecord). q.id == id) (with_reserved f) db.products)
keyed-update db id f keyed = All-update_where _ _ _ (with_reserved f) db.products step keyed
  where
    rows : List ProductRecord
    rows = update_where (λ (q : ProductRecord). q.id == id) (with_reserved f) db.products

    step :
        (p : ProductRecord)
        → find_product p.id db ≡ some p
        → let p' = if p.id == id then with_reserved f p else p in
          first_where (λ (q : ProductRecord). q.id == p'.id) rows ≡ some p'
    step p h =
        let e =
          first_where-update_where (λ (q : ProductRecord). q.id == p.id)
            (λ (q : ProductRecord). q.id == id) (with_reserved f) db.products p (λ b. refl) h in
        elim (Bool-cases (p.id == id)) [ inl t ↦ rw t (rw t at e) | inr n ↦ rw n (rw n at e) ]
