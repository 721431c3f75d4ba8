-- ===== src/Auctions/Lifecycle/History.antt =====
-- Histories of committed calls of lifecycle.ts, by the worker, by staff and by sellers, in any order.
use howlow.Prelude.{
  ℕ, ◌≡◌, ◌≢◌, ◌⊎◌, refl, sym, ap, subst, true, Option, none, some, Text, List, [], ◌==◌, ==_iff,
  arith, inl, inr, All, All-map, Keyed, All-first_where, first_where, first_where_holds, ◌∙◌,
}
use howlow.Auth.{Role}
use howlow.Errors.{ok}
use howlow.Catalog.Inventory.{
  ProductRecord, ReservationRecord, sum_held, find_product, find_held_reservation, inventory_report,
  reconcile_product_inventory,
}
use howlow.Catalog.Inventory.Invariant.{reconcile_product_inventory-IsValid}
use howlow.Auctions.Transitions.{
  AuctionStatus, draft, live, closing, calculating, completed, is_terminal,
}
use howlow.Auctions.Transitions.Diagram.{
  Edge, Edge-is_terminal, before_completed, before_calculating, before_closing,
}
use howlow.Auctions.Rows.{AuctionRecord, AuctionDb, find_auction}
use howlow.Auctions.Lifecycle
use howlow.Auctions.Lifecycle.{TransitionResult}
use howlow.Auctions.Lifecycle.Moves.{Outcome, IsResumable, needs_unit}
use howlow.Auctions.Lifecycle.Moves.Handlers.{
  submit_for_approval-Outcome, approve-Outcome, reject-Outcome, close-Outcome,
  begin_calculating-Outcome, complete-Outcome, suspend-Outcome,
}
use howlow.Auctions.Lifecycle.Moves.Holding.{open_auction-Outcome, resume-Outcome, cancel-Outcome}
use howlow.Auctions.Lifecycle.Orderly.{IsOrderly, IsStocked-IsOrderly, Outcome-Edge}
use howlow.Auctions.Lifecycle.Stocked.{IsStocked, IsSupplied, Outcome-IsStocked}

-- A call that commits. The uuid that `open` is given for a reservation is one that none has.
pub data Step (db after : AuctionDb) : Type 0 where
  submits :
      (auction_id seller_id now : ℕ) (r : TransitionResult)
      → Lifecycle.submit_for_approval auction_id seller_id now db ≡ ok (r, after)
      → Step db after
  approves :
      (roles : List Role) (auction_id actor now : ℕ) (r : TransitionResult)
      → Lifecycle.approve roles auction_id actor now db ≡ ok (r, after)
      → Step db after
  rejects :
      (roles : List Role) (auction_id : ℕ) (reason : Text) (now : ℕ) (r : TransitionResult)
      → Lifecycle.reject roles auction_id reason now db ≡ ok (r, after)
      → Step db after
  opens :
      (fresh : ℕ) (no_unit : Text) (auction_id now : ℕ) (r : TransitionResult)
      → first_where (λ (x : ReservationRecord). x.id == fresh) db.inventory.reservations ≡ none
      → Lifecycle.open_auction fresh no_unit auction_id now db ≡ ok (r, after)
      → Step db after
  closes :
      (auction_id now : ℕ) (r : TransitionResult)
      → Lifecycle.close auction_id now db ≡ ok (r, after)
      → Step db after
  calculates :
      (auction_id now : ℕ) (r : TransitionResult)
      → Lifecycle.begin_calculating auction_id now db ≡ ok (r, after)
      → Step db after
  completes :
      (auction_id : ℕ) (r : TransitionResult)
      → Lifecycle.complete auction_id db ≡ ok (r, after)
      → Step db after
  suspends :
      (roles : List Role) (auction_id actor : ℕ) (reason : Text) (now : ℕ) (r : TransitionResult)
      → Lifecycle.suspend roles auction_id actor reason now db ≡ ok (r, after)
      → Step db after
  resumes :
      (roles : List Role) (auction_id : ℕ) (r : TransitionResult)
      → Lifecycle.resume roles auction_id db ≡ ok (r, after)
      → Step db after
  cancels :
      (roles : List Role) (auction_id : ℕ) (seller : Option ℕ) (reason why : Text) (now : ℕ)
      (r : TransitionResult)
      → Lifecycle.cancel roles auction_id seller reason why now db ≡ ok (r, after)
      → Step db after

pub data Reach (start : AuctionDb) : AuctionDb → Type 0 where
  here : Reach start start
  next : {db after : AuctionDb} → Reach start db → Step db after → Reach start after

-- Tables before anything happened: each auction is a draft, and nothing is reserved.
pub record IsOpening (db : AuctionDb) : Type 0 where
  pub keyed : Keyed (λ (a : AuctionRecord). a.id) db.auctions
  pub drafts : All (λ (a : AuctionRecord). a.status ≡ draft) db.auctions
  pub products : Keyed (λ (p : ProductRecord). p.id) db.inventory.products
  pub unreserved : All (λ (p : ProductRecord). p.reserved_quantity ≡ 0) db.inventory.products
  pub free : db.inventory.reservations ≡ []

-- What a call that commits has done.
pub Step-Outcome :
    (db after : AuctionDb)
    → IsOrderly db
    → Step db after
    → (r : TransitionResult) × Outcome db r after
Step-Outcome db after v (submits i s n r h) = (r, submit_for_approval-Outcome i s n db after r h)
Step-Outcome db after v (approves ro i a n r h) = (r, approve-Outcome ro i a n db after r h)
Step-Outcome db after v (rejects ro i w n r h) = (r, reject-Outcome ro i w n db after r h)
Step-Outcome db after v (opens f w i n r unused h) =
    (r, open_auction-Outcome f w i n db after r unused h)
Step-Outcome db after v (closes i n r h) = (r, close-Outcome i n db after r h)
Step-Outcome db after v (calculates i n r h) = (r, begin_calculating-Outcome i n db after r h)
Step-Outcome db after v (completes i r h) = (r, complete-Outcome i db after r h)
Step-Outcome db after v (suspends ro i a w n r h) = (r, suspend-Outcome ro i a w n db after r h)
Step-Outcome db after v (resumes ro i r h) = (
  r,
  resume-Outcome ro i db after r
      (λ a e. (
        All-first_where _ _ db.auctions a v.keyed e,
        All-first_where IsResumable _ db.auctions a v.resumable e,
      ))
      h,
)
Step-Outcome db after v (cancels ro i s w y n r h) = (r, cancel-Outcome ro i s w y n db after r h)

IsOpening-IsStocked : (db : AuctionDb) → IsOpening db → IsStocked db
unfolding sum_held first_where
IsOpening-IsStocked db v = record {
  keyed = v.keyed;
  supplied =
      All-map _ _ db.auctions
        (λ a e. record {
          resumable = λ z. absurd (cc (e, z));
          has_unit = λ z. absurd (cc (rw e at z));
          no_unit = λ z. rw v.free refl;
        })
        v.drafts;
  inventory = record {
    keyed = v.products;
    distinct = rw v.free tt;
    counted =
        All-map _ _ db.inventory.products
          (λ p e. record { cached = rw v.free e; stocked = omega (arith, e) }) v.unreserved;
  };
}

Reach-keeps : (start db : AuctionDb) → IsStocked start → Reach start db → IsStocked db
Reach-keeps start db v here = v
Reach-keeps start after v (next {db = db} way step) =
    let stocked = Reach-keeps start db v way in
    let (r, out) = Step-Outcome db after (IsStocked-IsOrderly db stocked) step in
    Outcome-IsStocked db after r stocked out

-- Whatever calls have committed, in any order, from tables where each auction is a draft and nothing
-- is reserved: a live, closing or calculating auction, and one suspended while live, has a unit held
-- for it; a draft, pending, scheduled or cancelled one, and one suspended before it opened, has none;
-- and each product's count of reserved units is the sum of what is held, and within its stock.
pub Reach-IsStocked : (start db : AuctionDb) → IsOpening start → Reach start db → IsStocked db
Reach-IsStocked start db v way = Reach-keeps start db (IsOpening-IsStocked start v) way

-- After any history of committed calls from such tables, reconcileProductInventory on a product that
-- is there reports a consistent count and writes nothing.
pub Reach-reconcile_product_inventory :
    (start db : AuctionDb) (id : ℕ) (p : ProductRecord)
    → IsOpening start
    → Reach start db
    → find_product id db.inventory ≡ some p
    → (reconcile_product_inventory id db.inventory
        ≡ ok (inventory_report p (sum_held id db.inventory.reservations), db.inventory))
      × ((inventory_report p (sum_held id db.inventory.reservations)).consistent ≡ true)
Reach-reconcile_product_inventory start db id p v way e =
    reconcile_product_inventory-IsValid db.inventory p id (Reach-IsStocked start db v way).inventory
      e

-- One call of a history leaves the status of an auction as it is, or takes it along an edge.
Step-Edge :
    (start db after : AuctionDb) (id : ℕ) (b : AuctionRecord)
    → IsOpening start
    → Reach start db
    → Step db after
    → find_auction id db.auctions ≡ some b
    → (c : AuctionRecord) × (find_auction id after.auctions ≡ some c)
      × ((c.status ≡ b.status) ⊎ Edge b.status c.status)
Step-Edge start db after id b v way step f =
    let orderly = IsStocked-IsOrderly db (Reach-IsStocked start db v way) in
    let (r, out) = Step-Outcome db after orderly step in Outcome-Edge db after r id b orderly out f

-- The auction is in the table with this status, and a unit is held for it.
abbrev pub StoodAt : ℕ → AuctionStatus → AuctionDb → Type 0
StoodAt id status db =
    (x : AuctionRecord) × (find_auction id db.auctions ≡ some x)
    × (x.status ≡ status)
    × (find_held_reservation id db.inventory ≢ none)

stood :
    (start db : AuctionDb) (id : ℕ) (x : AuctionRecord) (status : AuctionStatus)
    → IsOpening start
    → Reach start db
    → find_auction id db.auctions ≡ some x
    → x.status ≡ status
    → ((y : AuctionRecord) → y.status ≡ status → needs_unit y ≡ true)
    → StoodAt id status db
stood start db id x status v way f s needs =
    let named : x.id ≡ id =
      (==_iff _ _).0 (first_where_holds (λ (y : AuctionRecord). y.id == id) db.auctions x f) in
    let all = (Reach-IsStocked start db v way).supplied in
    let own = All-first_where (IsSupplied db.inventory) _ db.auctions x all f in
    (
      x,
      f,
      s,
      subst (λ i. find_held_reservation i db.inventory ≢ none) named (own.has_unit (needs x s)),
    )

-- The auctions of the opening are there still.
still_there :
    (start db : AuctionDb) (id : ℕ) (a : AuctionRecord)
    → IsOpening start
    → Reach start db
    → find_auction id start.auctions ≡ some a
    → (b : AuctionRecord) × (find_auction id db.auctions ≡ some b)
still_there start db id a v here e = (a, e)
still_there start after id a v (next {db = db} way step) e =
    let (b, f) = still_there start db id a v way e in
    let (c, g, _) = Step-Edge start db after id b v way step f in (c, g)

-- An auction whose status has changed in a history went to the status that it has along an edge, in one
-- call of the history, from tables that the history reached.
pub entered :
    (start db : AuctionDb) (id : ℕ) (a b : AuctionRecord)
    → IsOpening start
    → Reach start db
    → find_auction id start.auctions ≡ some a
    → find_auction id db.auctions ≡ some b
    → b.status ≢ draft
    → (mid : AuctionDb) × (x : AuctionRecord) × Reach start mid
      × Reach mid db
      × (find_auction id mid.auctions ≡ some x)
      × Edge x.status b.status
entered start db id a b v here e f moved =
    let w =
      All-first_where (λ (x : AuctionRecord). x.status ≡ draft) _ start.auctions b v.drafts f in
    absurd (moved w)
entered start after id a b v (next {db = db} way step) e f moved =
    let (x, at) = still_there start db id a v way e in
    let (c, g, move) = Step-Edge start db after id x v way step at in
    let same : c ≡ b = cc (g, f) in
    elim move [
      | inr edge ↦ (db, x, way, next here step, at, subst (λ y. Edge x.status y.status) same edge)
      | inl kept ↦
          let still : x.status ≡ b.status = sym kept ∙ ap (λ y. y.status) same in
          let (mid, y, to, rest, found, edge) =
            entered start db id a x v way e at (λ z. moved (sym still ∙ z)) in
          (mid, y, to, next rest step, found, subst (Edge y.status) still edge)
    ]

-- In any history of committed calls from such tables that has brought an auction to completed, there are
-- three moments, one after the other: the auction was live, then closing, then calculating, and at each
-- of them a unit was held for it.
pub Reach-completed :
    (start db : AuctionDb) (id : ℕ) (a b : AuctionRecord)
    → IsOpening start
    → Reach start db
    → find_auction id start.auctions ≡ some a
    → find_auction id db.auctions ≡ some b
    → b.status ≡ completed
    → (one : AuctionDb) × (two : AuctionDb) × (three : AuctionDb) × Reach start one
      × Reach one two
      × Reach two three
      × Reach three db
      × StoodAt id live one
      × StoodAt id closing two
      × StoodAt id calculating three
Reach-completed start db id a b v way e f done =
    let (three, x, to3, from3, f3, edge3) = entered start db id a b v way e f (λ z. cc) in
    let s3 = before_completed edge3 done in
    let (two, y, to2, from2, f2, edge2) = entered start three id a x v to3 e f3 (λ z. cc) in
    let s2 = before_calculating edge2 s3 in
    let (one, z, to1, from1, f1, edge1) = entered start two id a y v to2 e f2 (λ z. cc) in
    let s1 = before_closing edge1 s2 in
    (
      one,
      two,
      three,
      to1,
      from1,
      from2,
      from3,
      stood start one id z live v to1 f1 s1 (λ u h. ground arith),
      stood start two id y closing v to2 f2 s2 (λ u h. ground arith),
      stood start three id x calculating v to3 f3 s3 (λ u h. ground arith),
    )

-- Once an auction is completed or cancelled, no history of committed calls changes its status again.
pub Reach-is_terminal :
    (start db after : AuctionDb) (id : ℕ) (a : AuctionRecord)
    → IsOpening start
    → Reach start db
    → find_auction id db.auctions ≡ some a
    → is_terminal a.status ≡ true
    → Reach db after
    → (b : AuctionRecord) × (find_auction id after.auctions ≡ some b) × (b.status ≡ a.status)
Reach-is_terminal start db after id a v way e final here = (a, e, refl)
Reach-is_terminal start db after id a v way e final (next {db = mid} rest step) =
    let (b, f, same) = Reach-is_terminal start db mid id a v way e final rest in
    let orderly =
      IsStocked-IsOrderly mid (Reach-keeps db mid (Reach-IsStocked start db v way) rest) in
    let (r, out) = Step-Outcome mid after orderly step in
    let (c, g, move) = Outcome-Edge mid after r id b orderly out f in
    (
      c,
      g,
      elim move [
        | inl kept ↦ kept ∙ same
        | inr edge ↦ absurd (cc (Edge-is_terminal edge, ap is_terminal same, final))
      ],
    )
