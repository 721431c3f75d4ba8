-- ===== src/Auctions/Lifecycle/Stocked.antt =====
-- What holds of the auctions and of the stock between two transactions of lifecycle.ts.
use howlow.Prelude.{
  ℕ, ◌≡◌, ◌≢◌, refl, true, false, none, some, ◌==◌, arith, inl, inr, Bool-cases, All, All-zip,
  Keyed, All-update_where, Keyed-update_where, ==_iff, ap, sym, ◌∙◌, subst, if◌then◌else◌,
}
use howlow.Catalog.Inventory.{InventoryDb, find_held_reservation}
use howlow.Catalog.Inventory.Invariant
use howlow.Catalog.Inventory.Reserve.{reserve_unit-IsValid, find_held_reservation-reserve_unit}
use howlow.Catalog.Inventory.Release.{release_unit-IsValid, find_held_reservation-release_unit}
use howlow.Auctions.Rows.{AuctionRecord, AuctionDb, find_auction, stands_at}
use howlow.Auctions.Lifecycle.{TransitionResult}
use howlow.Auctions.Lifecycle.Moves.{
  Outcome, stayed, moved, Supply, kept, reserved, freed, IsResumable, needs_unit, bars_unit,
}

-- An auction that needs a unit has one held for it, and one that bars a unit has none.
pub record IsSupplied (inv : InventoryDb) (a : AuctionRecord) : Type 0 where
  pub resumable : IsResumable a
  pub has_unit : needs_unit a ≡ true → find_held_reservation a.id inv ≢ none
  pub no_unit : bars_unit a ≡ true → find_held_reservation a.id inv ≡ none

pub record IsStocked (db : AuctionDb) : Type 0 where
  pub keyed : Keyed (λ (a : AuctionRecord). a.id) db.auctions
  pub supplied : All (IsSupplied db.inventory) db.auctions
  pub inventory : Invariant.IsValid db.inventory

-- A move changes the held row of its own auction only.
frame :
    (a after : AuctionRecord) (inv next : InventoryDb) (other : ℕ)
    → Invariant.IsValid inv
    → Supply a after inv next
    → a.id ≢ other
    → find_held_reservation other next ≡ find_held_reservation other inv
frame a after inv next other v (kept same _ _) n = rw same refl
frame a after inv next other v (reserved fresh r _ h _) n = ground (
  arith,
  find_held_reservation-reserve_unit fresh a.product_id a.id a.quantity inv next r other h,
)
frame a after inv next other v (freed why now o h _) n =
    ground (arith, find_held_reservation-release_unit a.id now why inv next o other v h)

pub Supply-IsValid :
    (a after : AuctionRecord) (inv next : InventoryDb)
    → Invariant.IsValid inv
    → Supply a after inv next
    → Invariant.IsValid next
Supply-IsValid a after inv next v (kept same _ _) = rw same v
Supply-IsValid a after inv next v (reserved fresh r unused h _) =
    reserve_unit-IsValid fresh a.product_id a.id a.quantity inv next r unused v h
Supply-IsValid a after inv next v (freed why now o h _) =
    release_unit-IsValid a.id now why inv next o v h

-- The auction that moves is supplied as its new status asks.
moved-IsSupplied :
    (a after : AuctionRecord) (inv next : InventoryDb)
    → after.id ≡ a.id
    → Invariant.IsValid inv
    → IsSupplied inv a
    → IsResumable after
    → Supply a after inv next
    → IsSupplied next after
moved-IsSupplied a after inv next same v s back (kept e needs bars) = record {
  resumable = back;
  has_unit = λ z. rw (e, same) (s.has_unit (needs z));
  no_unit = λ z. rw (e, same) (s.no_unit (bars z));
}
moved-IsSupplied a after inv next same v s back (reserved fresh r unused h bars) =
    let e =
      find_held_reservation-reserve_unit fresh a.product_id a.id a.quantity inv next r a.id h in
    record {
      resumable = back;
      has_unit = λ _. λ gone. ground (arith, rw same at gone);
      no_unit = λ z. absurd (cc (z, bars));
    }
moved-IsSupplied a after inv next same v s back (freed why now o h needs) =
    let e = find_held_reservation-release_unit a.id now why inv next o a.id v h in
    record {
      resumable = back;
      has_unit = λ z. absurd (cc (z, needs));
      no_unit = λ _. rw same (ground (arith, e));
    }

-- What a handler has done keeps the auctions supplied and the stock counted.
pub Outcome-IsStocked :
    (db after : AuctionDb) (r : TransitionResult)
    → IsStocked db
    → Outcome db r after
    → IsStocked after
Outcome-IsStocked db after r v (stayed same _) = rw same v
Outcome-IsStocked db after r v (moved a set action event inv found edge ids back supply _ rows) =
    rw rows (record {
      keyed =
          Keyed-update_where (λ (b : AuctionRecord). b.id) (stands_at a.id a.status) set db.auctions
            ids v.keyed;
      supplied =
          All-update_where _ _ (stands_at a.id a.status) set db.auctions step
            (All-zip _ _ db.auctions v.supplied v.keyed);
      inventory = Supply-IsValid a (set a) db.inventory inv v.inventory supply;
    })
  where
    step :
        (b : AuctionRecord)
        → IsSupplied db.inventory b × (find_auction b.id db.auctions ≡ some b)
        → IsSupplied inv (if stands_at a.id a.status b then set b else b)
    step b (s, own) = elim (Bool-cases (b.id == a.id)) [
      | inl t ↦
          let same : b.id ≡ a.id = (==_iff _ _).0 t in
          let twins : some b ≡ some a =
            sym own ∙ ap (λ i. find_auction i db.auctions) same ∙ found in
          let e : b ≡ a = ground arith in
          rw (e, stands)
            (moved-IsSupplied a (set a) db.inventory inv (ids a) v.inventory
              (subst (IsSupplied db.inventory) e s) back supply)
      | inr n ↦
          let apart : a.id ≢ b.id = λ z. ground (arith, z) in
          let e = frame a (set a) db.inventory inv b.id v.inventory supply apart in
          let misses : stands_at a.id a.status b ≡ false = ground arith in
          rw misses (record {
            resumable = s.resumable;
            has_unit = λ z. rw e (s.has_unit z);
            no_unit = λ z. rw e (s.no_unit z);
          })
    ]
      where
        stands : stands_at a.id a.status a ≡ true
        stands = ground arith
