-- ===== src/Auctions/Lifecycle/Moves.antt =====
-- What each handler of the lifecycle has done, by one description of a move.
pub mod Handlers
pub mod Holding
use howlow.Prelude.{
  ℕ, ◌≡◌, refl, true, false, Bool, Option, none, some, Text, List, ◌∷◌, ◌==◌, ◌&&◌, arith, ◌⊎◌, inl,
  inr, Option-cases, Bool-cases, first_where, update_where, first_where_stronger, first_where_holds,
  ==_iff, subst, sym, not, ap, if◌then◌else◌,
}
use howlow.Errors.{ok, Tx, ◌>>=◌}
use howlow.Catalog.Inventory.{
  InventoryDb, ReservationRecord, reserve_unit, release_unit, ReservationOutcome, ReleaseOutcome,
}
use howlow.Auctions.Transitions.{
  AuctionStatus, draft, pending_approval, scheduled, live, closing, calculating, completed,
  cancelled, suspended, AuctionAction, status_eq, status_code, can_transition, target_of,
}
use howlow.Auctions.Transitions.Diagram.{Edge}
use howlow.Auctions.Rows.{
  AuctionRecord, AuctionDb, AuctionAudit, find_auction, apply_transition, stands_at,
}
use howlow.Auctions.Lifecycle.{
  AuctionEvent, TransitionResult, unchanged, begin_transition, continue_with, transition, settle,
  begun, already_done,
}

-- An auction of these statuses has a unit held for it; a suspended one has if it was live.
abbrev pub needs_unit : AuctionRecord → Bool
needs_unit a = elim a.status [
  | live ↦ true
  | closing ↦ true
  | calculating ↦ true
  | suspended ↦ elim a.suspended_from [ none ↦ false | some s ↦ status_eq s live ]
  | _ ↦ false
]

-- And for one of these there is none.
abbrev pub bars_unit : AuctionRecord → Bool
bars_unit a = elim a.status [
  | draft ↦ true
  | pending_approval ↦ true
  | scheduled ↦ true
  | cancelled ↦ true
  | suspended ↦ elim a.suspended_from [ none ↦ true | some s ↦ not (status_eq s live) ]
  | _ ↦ false
]

-- What a move does to the inventory.
pub data Supply (a after : AuctionRecord) (inv next : InventoryDb) : Type 0 where
  kept :
      next ≡ inv
      → (needs_unit after ≡ true → needs_unit a ≡ true)
      → (bars_unit after ≡ true → bars_unit a ≡ true)
      → Supply a after inv next
  reserved :
      (fresh : ℕ) (r : ReservationOutcome)
      → first_where (λ (x : ReservationRecord). x.id == fresh) inv.reservations ≡ none
      → reserve_unit fresh a.product_id a.id a.quantity inv ≡ ok (r, next)
      → bars_unit after ≡ false
      → Supply a after inv next
  freed :
      (why : Text) (now : ℕ) (o : ReleaseOutcome)
      → release_unit a.id why now inv ≡ ok (o, next)
      → needs_unit after ≡ false
      → Supply a after inv next

abbrev pub moved_rows :
    AuctionRecord
    → (AuctionRecord → AuctionRecord)
    → AuctionAudit
    → InventoryDb
    → AuctionDb
    → AuctionDb
moved_rows a set action inv db = record {
  auctions = update_where (stands_at a.id a.status) set db.auctions;
  inventory = inv;
  audit = (action, (set a).id, a.status) ∷ db.audit;
}

abbrev pub moved_result :
    AuctionRecord → (AuctionRecord → AuctionRecord) → Option AuctionEvent → TransitionResult
moved_result a set event = record { auction = set a; changed = true; pending = event }

-- A suspended auction was suspended from a status that can be suspended.
abbrev pub IsResumable : AuctionRecord → Type 0
IsResumable a =
    a.status ≡ suspended
    → (s : AuctionStatus) × (a.suspended_from ≡ some s)
      × (can_transition AuctionAction.suspend s ≡ true)

-- A handler that succeeds has changed nothing, or has moved one auction along an edge.
pub data Outcome (db : AuctionDb) (r : TransitionResult) (after : AuctionDb) : Type 0 where
  stayed : after ≡ db → r.changed ≡ false → Outcome db r after
  moved :
      (a : AuctionRecord) (set : AuctionRecord → AuctionRecord) (action : AuctionAudit)
      (event : Option AuctionEvent) (inv : InventoryDb)
      → find_auction a.id db.auctions ≡ some a
      → Edge a.status (set a).status
      → ((b : AuctionRecord) → (set b).id ≡ b.id)
      → IsResumable (set a)
      → Supply a (set a) db.inventory inv
      → r ≡ moved_result a set event
      → after ≡ moved_rows a set action inv db
      → Outcome db r after

-- An auction that is in the table is moved.
pub transition_moves :
    (a : AuctionRecord) (set : AuctionRecord → AuctionRecord) (action : AuctionAudit)
    (event : Option AuctionEvent) (db : AuctionDb)
    → find_auction a.id db.auctions ≡ some a
    → transition a set action event db
      ≡ ok (moved_result a set event, moved_rows a set action db.inventory db)
unfolding transition apply_transition settle
transition_moves a set action event db found =
    let e =
      first_where_stronger (λ (b : AuctionRecord). b.id == a.id) (stands_at a.id a.status)
        db.auctions a (λ b h. ground arith) found (ground arith) in
    ground (arith, e)

-- The tests on statuses decide equality.
of_code : ℕ → AuctionStatus
of_code n =
    if n == 0
    then draft
    else if n == 1
    then pending_approval
    else if n == 2
    then scheduled
    else if n == 3
    then live
    else if n == 4
    then closing
    else if n == 5
    then calculating
    else if n == 6
    then completed
    else if n == 7
    then cancelled
    else suspended

of_code-status_code : (s : AuctionStatus) → of_code (status_code s) ≡ s
unfolding of_code
of_code-status_code draft = refl
of_code-status_code pending_approval = refl
of_code-status_code scheduled = refl
of_code-status_code live = refl
of_code-status_code closing = refl
of_code-status_code calculating = refl
of_code-status_code completed = refl
of_code-status_code cancelled = refl
of_code-status_code suspended = refl

pub status_eq_sound : (s t : AuctionStatus) → status_eq s t ≡ true → s ≡ t
status_eq_sound s t h =
    let e : of_code (status_code s) ≡ of_code (status_code t) = ap of_code ((==_iff _ _).0 h) in
    rw (of_code-status_code s, of_code-status_code t) at e

-- A handler begins with an auction that is there already, or with one that the table lets it move.
pub begin_cases :
    (auction_id : ℕ) (action : AuctionAction) (rest : AuctionRecord → Tx AuctionDb TransitionResult)
    (db after : AuctionDb) (r : TransitionResult)
    → (begin_transition auction_id action >>= λ b. continue_with rest b) db ≡ ok (r, after)
    → (a : AuctionRecord) × (find_auction a.id db.auctions ≡ some a)
      × (((a.status ≡ target_of action) × (r ≡ unchanged a) × (after ≡ db))
          ⊎ ((can_transition action a.status ≡ true) × (rest a db ≡ ok (r, after))))
unfolding begin_transition continue_with
begin_cases auction_id action rest db after r h =
    elim (Option-cases (find_auction auction_id db.auctions)) [
      | inl e ↦ ground arith
      | inr (a, e) ↦ (a, named a e, split a e)
    ]
  where
    named :
        (a : AuctionRecord)
        → find_auction auction_id db.auctions ≡ some a
        → find_auction a.id db.auctions ≡ some a
    named a e =
        let same : a.id ≡ auction_id =
          (==_iff _ _).0
            (first_where_holds (λ (b : AuctionRecord). b.id == auction_id) db.auctions a e) in
        subst (λ i. find_auction i db.auctions ≡ some a) (sym same) e

    split :
        (a : AuctionRecord)
        → find_auction auction_id db.auctions ≡ some a
        → ((a.status ≡ target_of action) × (r ≡ unchanged a) × (after ≡ db))
          ⊎ ((can_transition action a.status ≡ true) × (rest a db ≡ ok (r, after)))
    split a e = elim (Bool-cases (status_eq a.status (target_of action))) [
      | inl t ↦ inl (status_eq_sound a.status (target_of action) t, ground arith, ground arith)
      | inr n ↦ elim (Bool-cases (can_transition action a.status)) [
        | inl can ↦ inr (can, ground arith)
        | inr cannot ↦ ground arith
      ]
    ]
