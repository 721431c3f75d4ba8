-- ===== src/Auctions/Lifecycle/Orderly.antt =====
-- What each call of lifecycle.ts needs of the tables, and keeps, whatever units are held.
use howlow.Prelude.{
  ℕ, ◌≡◌, refl, some, ◌==◌, arith, inl, inr, Bool-cases, All, All-map, All-zip, Keyed,
  All-update_where, Keyed-update_where, ==_iff, ap, sym, ◌∙◌, subst, if◌then◌else◌, ◌⊎◌,
  All-first_where, first_where-update_where,
}
use howlow.Catalog.Inventory.Invariant
use howlow.Auctions.Transitions.Diagram.{Edge}
use howlow.Auctions.Rows.{AuctionRecord, AuctionDb, find_auction, stands_at}
use howlow.Auctions.Lifecycle.{TransitionResult}
use howlow.Auctions.Lifecycle.Moves.{Outcome, stayed, moved, IsResumable}
use howlow.Auctions.Lifecycle.Stocked.{IsStocked, Supply-IsValid}

-- Ids are a primary key, a suspended auction knows where it was, and the stock is counted.
pub record IsOrderly (db : AuctionDb) : Type 0 where
  pub keyed : Keyed (λ (a : AuctionRecord). a.id) db.auctions
  pub resumable : All IsResumable db.auctions
  pub inventory : Invariant.IsValid db.inventory

pub IsStocked-IsOrderly : (db : AuctionDb) → IsStocked db → IsOrderly db
IsStocked-IsOrderly db v = record {
  keyed = v.keyed;
  resumable = All-map _ _ db.auctions (λ a s. s.resumable) v.supplied;
  inventory = v.inventory;
}

-- Two rows with one id are one row.
pub one_row :
    (db : AuctionDb) (a b : AuctionRecord)
    → a.id ≡ b.id
    → find_auction a.id db.auctions ≡ some a
    → find_auction b.id db.auctions ≡ some b
    → a ≡ b
one_row db a b same e f =
    let twins : some a ≡ some b = sym e ∙ ap (λ i. find_auction i db.auctions) same ∙ f in cc twins

pub Outcome-IsOrderly :
    (db after : AuctionDb) (r : TransitionResult)
    → IsOrderly db
    → Outcome db r after
    → IsOrderly after
Outcome-IsOrderly db after r v (stayed same _) = rw same v
Outcome-IsOrderly db after r v (moved a set action event inv found edge ids back supply _ rows) =
    rw rows (record {
      keyed =
          Keyed-update_where (λ (b : AuctionRecord). b.id) (stands_at a.id a.status) set db.auctions
            ids v.keyed;
      resumable =
          All-update_where _ _ (stands_at a.id a.status) set db.auctions step
            (All-zip _ _ db.auctions v.resumable v.keyed);
      inventory = Supply-IsValid a (set a) db.inventory inv v.inventory supply;
    })
  where
    step :
        (b : AuctionRecord)
        → IsResumable b × (find_auction b.id db.auctions ≡ some b)
        → IsResumable (if stands_at a.id a.status b then set b else b)
    step b (s, own) = elim (Bool-cases (stands_at a.id a.status b)) [
      | inl t ↦
          let same : b.id ≡ a.id = (==_iff _ _).0 (ground arith) in
          let e = one_row db b a same own found in
          rw t (subst (λ x. IsResumable (set x)) (sym e) back)
      | inr n ↦ rw n s
    ]

-- One call leaves the status of an auction as it is, or takes it along one edge.
pub Outcome-Edge :
    (db after : AuctionDb) (r : TransitionResult) (id : ℕ) (a : AuctionRecord)
    → IsOrderly db
    → Outcome db r after
    → find_auction id db.auctions ≡ some a
    → (b : AuctionRecord) × (find_auction id after.auctions ≡ some b)
      × ((b.status ≡ a.status) ⊎ Edge a.status b.status)
Outcome-Edge db after r id a v (stayed same _) e = (a, rw same e, inl refl)
Outcome-Edge db after r id a v (moved x set action event inv found edge ids back supply _ rows) e =
    let f =
      first_where-update_where (λ (b : AuctionRecord). b.id == id) (stands_at x.id x.status) set
        db.auctions a (λ b. rw (ids b)) e in
    elim (Bool-cases (stands_at x.id x.status a)) [
      | inl t ↦
          let same : a.id ≡ x.id = (==_iff _ _).0 (ground arith) in
          let own = All-first_where _ _ db.auctions a v.keyed e in
          let twins : some a ≡ some x =
            sym own ∙ ap (λ i. find_auction i db.auctions) same ∙ found in
          let w : a ≡ x = ground arith in (set a, rw (rows, f, t) refl, inr (rw w edge))
      | inr n ↦ (a, rw (rows, f, n) refl, inl refl)
    ]
