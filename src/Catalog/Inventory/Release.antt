-- ===== src/Catalog/Inventory/Release.antt =====
-- Releasing a unit.
use howlow.Prelude.{
  ℕ, ◌+◌, ◌-◌, ◌≤◌, ◌≡◌, ◌≢◌, sym, ◌∙◌, ◌⊎◌, inl, inr, true, false, none, some, Text, List, [], ◌∷◌,
  ◌==◌, arith, All-update_where, first_where, update_where, update_where-none, update_where_idle,
  found_by_other, All-first_where, if◌then◌else◌, Bool-cases, Option-cases, first_where_holds,
  ==_iff,
}
use howlow.Errors.{ok}
use howlow.Catalog.Inventory.{
  ProductRecord, ReservationRecord, ReleaseOutcome, InventoryDb, is_held, holds_for, is_held_row,
  release_row, sum_held, find_product, find_held_reservation, release_unit, release_held,
  settle_release, mark_reservation_released, subtract_reserved, with_reserved, released_event,
  available_quantity,
}
use howlow.Catalog.Inventory.Invariant.{Distinct, IsCounted, IsValid, keyed-update}

-- The row that holds for an auction is the held row of its id.
held_row_found :
    (auction_id : ℕ) (rs : List ReservationRecord) (r : ReservationRecord)
    → Distinct rs
    → first_where (holds_for auction_id) rs ≡ some r
    → first_where (is_held_row r.id) rs ≡ some r
unfolding first_where
held_row_found auction_id [] r d h = cc
held_row_found auction_id (x ∷ rs) r d h = ground (
  arith,
  held_row_found auction_id rs r d.2,
  found_by_other (holds_for auction_id) (λ (y : ReservationRecord). y.id == x.id) rs r,
)

module _ (now : ℕ) (reason : Text) (id : ℕ) where
  abbrev after_release : List ReservationRecord → List ReservationRecord
  after_release rs = update_where (is_held_row id) (release_row now reason) rs

  release-Distinct : (rs : List ReservationRecord) → Distinct rs → Distinct (after_release rs)
  unfolding update_where
  release-Distinct [] d = tt
  release-Distinct (x ∷ rs) d = elim (Bool-cases (is_held_row id x)) [
    | inl t ↦ rw t (
      update_where-none _ (is_held_row id) (release_row now reason) rs (λ b h. h) d.0,
      λ e. absurd (cc e),
      release-Distinct rs d.2,
    )
    | inr n ↦ rw n (
      update_where-none _ (is_held_row id) (release_row now reason) rs (λ b h. h) d.0,
      λ e.
          update_where-none _ (is_held_row id) (release_row now reason) rs (λ b h. ground arith)
            (d.1 e),
      release-Distinct rs d.2,
    )
  ]

  sum_held-release :
      (product_id : ℕ) (rs : List ReservationRecord) (r : ReservationRecord)
      → Distinct rs
      → first_where (is_held_row id) rs ≡ some r
      → sum_held product_id (after_release rs)
          + (if r.product_id == product_id then r.quantity else 0)
        ≡ sum_held product_id rs
  unfolding first_where update_where sum_held
  sum_held-release product_id [] r d h = cc
  sum_held-release product_id (x ∷ rs) r d h = ground (
    arith,
    sum_held-release product_id rs r d.2,
    update_where_idle (λ (y : ReservationRecord). y.id == x.id) (is_held_row id)
        (release_row now reason) rs,
  )

-- The tables after a unit is released.
abbrev pub released_rows : Text → ℕ → ReservationRecord → ProductRecord → InventoryDb → InventoryDb
released_rows reason now r p db = record {
  products =
      update_where (λ (q : ProductRecord). q.id == p.id) (with_reserved (λ n. n - r.quantity))
        db.products;
  reservations = after_release now reason r.id db.reservations;
  audit = (released_event, p.id) ∷ db.audit;
}

-- What an accepted call has done: nothing was held and nothing changed, or the held row was released.
pub release_unit_cases :
    (auction_id now : ℕ) (reason : Text) (db after : InventoryDb) (o : ReleaseOutcome)
    → Distinct db.reservations
    → release_unit auction_id reason now db ≡ ok (o, after)
    → ((find_held_reservation auction_id db ≡ none) × (after ≡ db) × (o.released ≡ false))
      ⊎ ((r : ReservationRecord) × (p : ProductRecord) × (find_held_reservation auction_id db
            ≡ some r)
          × (find_product r.product_id db ≡ some p)
          × (r.quantity ≤ p.reserved_quantity)
          × (o.released ≡ true)
          × (after ≡ released_rows reason now r p db))
unfolding release_unit release_held settle_release mark_reservation_released subtract_reserved
release_unit_cases auction_id now reason db after o d h =
    elim (Option-cases (find_held_reservation auction_id db)) [
      | inl e ↦ inl (e, ground arith, ground arith)
      | inr (r, e) ↦ elim (Option-cases (find_product r.product_id db)) [
        | inl f ↦ absurd (ground arith)
        | inr (p, f) ↦
            let m = held_row_found auction_id db.reservations r d e in
            inr (r, p, e, f, ground (arith, m), ground (arith, m), ground (arith, m))
      ]
    ]

row-IsCounted :
    (now : ℕ) (reason : Text) (r : ReservationRecord) (p : ProductRecord)
    (rs : List ReservationRecord) (q : ProductRecord)
    → Distinct rs
    → first_where (is_held_row r.id) rs ≡ some r
    → r.product_id ≡ p.id
    → IsCounted rs q
    → IsCounted
        (after_release now reason r.id rs)
        (if q.id == p.id then with_reserved (λ n. n - r.quantity) q else q)
row-IsCounted now reason r p rs q d m same c = elim (Bool-cases (q.id == p.id)) [
  | inl t ↦ rw t (record {
    cached = ground (arith, c.cached, sum_held-release now reason r.id q.id rs r d m);
    stocked = omega (arith, c.stocked);
  })
  | inr n ↦ rw n (record {
    cached = ground (arith, c.cached, sum_held-release now reason r.id q.id rs r d m);
    stocked = c.stocked;
  })
]

-- Releasing keeps the tables valid.
pub release_unit-IsValid :
    (auction_id now : ℕ) (reason : Text) (db after : InventoryDb) (o : ReleaseOutcome)
    → IsValid db
    → release_unit auction_id reason now db ≡ ok (o, after)
    → IsValid after
release_unit-IsValid auction_id now reason db after o v h =
    elim (release_unit_cases auction_id now reason db after o v.distinct h) [
      | inl (_, same, _) ↦ rw same v
      | inr (r, p, e, f, _, _, rows) ↦
          let named : p.id ≡ r.product_id =
            (==_iff _ _).0
              (first_where_holds (λ (x : ProductRecord). x.id == r.product_id) db.products p f) in
          let m = held_row_found auction_id db.reservations r v.distinct e in
          rw rows (record {
            keyed = keyed-update db p.id (λ n. n - r.quantity) v.keyed;
            distinct = release-Distinct now reason r.id db.reservations v.distinct;
            counted =
                All-update_where _ _ _ _ db.products
                  (λ q c. row-IsCounted now reason r p db.reservations q v.distinct m (sym named) c)
                  v.counted;
          })
    ]

clash :
    (id : ℕ) (x : ReservationRecord) (rs : List ReservationRecord) (r : ReservationRecord)
    → Distinct (x ∷ rs)
    → first_where (is_held_row id) rs ≡ some r
    → is_held x.state ≡ true
    → x.auction_id ≢ r.auction_id
clash id x rs r d m t e =
    let held_r = first_where_holds (is_held_row id) rs r m in
    found_by_other (is_held_row id) (holds_for x.auction_id) rs r m (ground (arith, held_r)) (d.1 t)

-- The update of one held row takes it from its auction, and changes what no other auction holds.
others_held :
    (now id other : ℕ) (reason : Text) (rs : List ReservationRecord) (r : ReservationRecord)
    → Distinct rs
    → first_where (is_held_row id) rs ≡ some r
    → first_where (holds_for other) (after_release now reason id rs)
      ≡ (if r.auction_id == other then none else first_where (holds_for other) rs)
unfolding first_where update_where
others_held now id other reason [] r d m = cc
others_held now id other reason (x ∷ rs) r d m = ground (
  arith,
  others_held now id other reason rs r d.2,
  update_where_idle (λ (y : ReservationRecord). y.id == x.id) (is_held_row id)
      (release_row now reason) rs,
  clash id x rs r d,
)

-- After a release on valid tables the auction holds no unit, and every other auction holds what it held.
pub find_held_reservation-release_unit :
    (auction_id now : ℕ) (reason : Text) (db after : InventoryDb) (o : ReleaseOutcome) (other : ℕ)
    → IsValid db
    → release_unit auction_id reason now db ≡ ok (o, after)
    → find_held_reservation other after
      ≡ (if auction_id == other then none else find_held_reservation other db)
find_held_reservation-release_unit auction_id now reason db after o other v h =
    elim (release_unit_cases auction_id now reason db after o v.distinct h) [
      | inl (free, same, _) ↦ rw same (ground (arith, free))
      | inr (r, p, e, f, _, _, rows) ↦
          let m = held_row_found auction_id db.reservations r v.distinct e in
          let own = first_where_holds (holds_for auction_id) db.reservations r e in
          rw rows
            (others_held now r.id other reason db.reservations r v.distinct m ∙ ground (arith, own))
    ]

-- On valid tables where each held row names a product that is there, a release does not fail.
pub release_unit_succeeds :
    (auction_id now : ℕ) (reason : Text) (db : InventoryDb)
    → IsValid db
    → ((r : ReservationRecord)
        → find_held_reservation auction_id db ≡ some r
        → find_product r.product_id db ≢ none)
    → (o : ReleaseOutcome) × (after : InventoryDb) × (release_unit auction_id reason now db
        ≡ ok (o, after))
unfolding release_unit release_held settle_release mark_reservation_released subtract_reserved
release_unit_succeeds auction_id now reason db v there =
    elim (Option-cases (find_held_reservation auction_id db)) [
      | inl e ↦ (record { released = false; available_after = 0 }, db, ground (arith, e))
      | inr (r, e) ↦ elim (Option-cases (find_product r.product_id db)) [
        | inl f ↦ absurd (there r e f)
        | inr (p, f) ↦
            let m = held_row_found auction_id db.reservations r v.distinct e in
            let c = All-first_where (IsCounted db.reservations) _ db.products p v.counted f in
            let named : p.id ≡ r.product_id =
              (==_iff _ _).0
                (first_where_holds (λ (x : ProductRecord). x.id == r.product_id) db.products p f) in
            let total = sum_held-release now reason r.id p.id db.reservations r v.distinct m in
            let enough : r.quantity ≤ p.reserved_quantity =
              ground (arith, c.cached, total, named) in
            (
              record { released = true; available_after = available_quantity p + r.quantity },
              released_rows reason now r p db,
              ground (arith, e, f, m, enough),
            )
      ]
    ]
