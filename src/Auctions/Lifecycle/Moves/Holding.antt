-- ===== src/Auctions/Lifecycle/Moves/Holding.antt =====
-- The handlers of lifecycle.ts that touch what an auction holds, or bring it back: resume, cancel, open.
use howlow.Prelude.{
  ℕ, ◌≡◌, refl, true, false, Option, none, some, Text, List, ◌==◌, ◌&&◌, arith, inl, inr,
  Option-cases, Bool-cases, not, ltb, or_else, subst, sym, first_where,
}
use howlow.Auth.{Role, has_any_role}
use howlow.Errors.{
  unauthorized_auction_operation, auction_not_due, invalid_transition, ok, ◌>>◌, Result-cases,
}
use howlow.Catalog.Inventory.{ReservationRecord, reserve_unit, release_unit}
use howlow.Auctions.Transitions.{
  AuctionStatus, draft, pending_approval, scheduled, live, closing, calculating, completed,
  cancelled, suspended, AuctionAction, status_eq, can_transition, holds_inventory,
}
use howlow.Auctions.Transitions.Diagram.{Edge, opens, resumes, cancels}
use howlow.Auctions.Rows.{AuctionRecord, AuctionDb, AuctionAudit, find_auction}
use howlow.Auctions.Lifecycle
use howlow.Auctions.Lifecycle.{
  TransitionResult, AuctionEvent, unchanged, begin_transition, continue_with, transition,
  set_submitted, submit_begun, submit_for_approval, set_approved, set_rejected, set_calculating,
  set_completed, set_suspended, set_closing, set_live, set_cancelled, set_resumed, is_creator,
  approve_begun, reject_begun, calculate_begun, complete_begun, suspend_begun, close_begun,
  cancel_begun, open_begun, assert_staff, auction_staff, auction_scheduled, auction_suspended,
  auction_closing, auction_resumed, auction_started, auction_cancelled, is_insufficient,
  reserve_or_cancel, release_if_held, resume_suspended, close_unsettled, is_seller,
}
use howlow.Auctions.Lifecycle.Moves.{
  Outcome, moved, reserved, freed, IsResumable, needs_unit, bars_unit, transition_moves,
  status_eq_sound,
}
use howlow.Auctions.Lifecycle.Moves.Handlers.{from_begin, plain, passed}

-- Of the statuses that an auction can be suspended from, only live needs a unit.
needs-resumed :
    (a : AuctionRecord) (s : AuctionStatus)
    → can_transition AuctionAction.suspend s ≡ true
    → needs_unit (set_resumed s a) ≡ true
    → status_eq s live ≡ true
needs-resumed a draft can h = cc
needs-resumed a pending_approval can h = cc
needs-resumed a scheduled can h = cc
needs-resumed a live can h = refl
needs-resumed a closing can h = cc
needs-resumed a calculating can h = cc
needs-resumed a completed can h = cc
needs-resumed a cancelled can h = cc
needs-resumed a suspended can h = cc

bars-resumed :
    (a : AuctionRecord) (s : AuctionStatus)
    → can_transition AuctionAction.suspend s ≡ true
    → bars_unit (set_resumed s a) ≡ true
    → not (status_eq s live) ≡ true
bars-resumed a draft can h = refl
bars-resumed a pending_approval can h = refl
bars-resumed a scheduled can h = refl
bars-resumed a live can h = cc
bars-resumed a closing can h = cc
bars-resumed a calculating can h = cc
bars-resumed a completed can h = cc
bars-resumed a cancelled can h = refl
bars-resumed a suspended can h = refl

-- A cancelled auction that could hold no unit had none.
bars-cancelled :
    (a : AuctionRecord) (s : AuctionStatus)
    → a.status ≡ s
    → can_transition AuctionAction.cancel s ≡ true
    → holds_inventory s ≡ false
    → bars_unit a ≡ true
bars-cancelled a draft e can h = rw e refl
bars-cancelled a pending_approval e can h = rw e refl
bars-cancelled a scheduled e can h = rw e refl
bars-cancelled a live e can h = cc
bars-cancelled a closing e can h = cc
bars-cancelled a calculating e can h = cc
bars-cancelled a completed e can h = cc
bars-cancelled a cancelled e can h = rw e refl
bars-cancelled a suspended e can h = cc

-- The statuses that an auction can be suspended from have an edge back.
restored :
    (a : AuctionRecord) (s : AuctionStatus) (db after : AuctionDb) (r : TransitionResult)
    → find_auction a.id db.auctions ≡ some a
    → a.status ≡ suspended
    → a.suspended_from ≡ some s
    → can_transition AuctionAction.suspend s ≡ true
    → transition a
        (set_resumed (or_else a.suspended_from scheduled))
        AuctionAudit.resumed
        (some auction_resumed)
        db
      ≡ ok (r, after)
    → Outcome db r after
restored a s db after r found e from can h =
    plain a (set_resumed s) AuctionAudit.resumed (some auction_resumed) db after r found
      (subst (λ t. Edge t s) (sym e) (resumes can)) (λ b. refl) (λ z. absurd (ground arith))
      (λ z. rw (e, from) (needs-resumed a s can z)) (λ z. rw (e, from) (bars-resumed a s can z))
      (subst
        (λ f.
          transition a (set_resumed (or_else f scheduled)) AuctionAudit.resumed
            (some auction_resumed) db
          ≡ ok (r, after))
        from h)

pub resume-Outcome :
    (roles : List Role) (auction_id : ℕ) (db after : AuctionDb) (r : TransitionResult)
    → ((a : AuctionRecord)
        → find_auction auction_id db.auctions ≡ some a
        → (find_auction a.id db.auctions ≡ some a) × IsResumable a)
    → Lifecycle.resume roles auction_id db ≡ ok (r, after)
    → Outcome db r after
unfolding Lifecycle.resume Lifecycle.resume_suspended
resume-Outcome roles auction_id db after r well run =
    elim (Option-cases (find_auction auction_id db.auctions)) [
      | inl none_found ↦ ground arith
      | inr (a, e) ↦
          let (is_suspended, h) =
            passed (not (status_eq a.status suspended)) invalid_transition
              (transition a (set_resumed (or_else a.suspended_from scheduled)) AuctionAudit.resumed
                (some auction_resumed))
              db after r (ground arith) in
          let stands = status_eq_sound a.status suspended (ground arith) in
          let (s, from, can) = (well a e).1 stands in
          restored a s db after r (well a e).0 stands from can h
    ]

pub cancel-Outcome :
    (roles : List Role) (auction_id : ℕ) (seller : Option ℕ) (reason why : Text) (now : ℕ)
    (db after : AuctionDb) (r : TransitionResult)
    → Lifecycle.cancel roles auction_id seller reason why now db ≡ ok (r, after)
    → Outcome db r after
unfolding Lifecycle.cancel Lifecycle.cancel_begun Lifecycle.release_if_held
cancel-Outcome roles auction_id seller reason why now db after r =
    from_begin auction_id AuctionAction.cancel (cancel_begun roles seller reason why now) db after r
      (λ a found can h.
        let m =
          transition a (set_cancelled reason now) AuctionAudit.cancelled_audit
            (some auction_cancelled) in
        let (_, run) =
          passed
            (not (is_seller seller a && not (holds_inventory a.status))
              && not (has_any_role roles auction_staff))
            unauthorized_auction_operation (release_if_held now why a >> m) db after r h in
        elim (Bool-cases (holds_inventory a.status)) [
          | inl t ↦ elim (Result-cases (release_unit a.id why now db.inventory)) [
            | inl (e, failed) ↦ ground arith
            | inr ((o, inv), went) ↦
                let ended =
                  transition_moves a (set_cancelled reason now) AuctionAudit.cancelled_audit
                    (some auction_cancelled) (record db { inventory = inv }) found in
                let ran : m (record db { inventory = inv }) ≡ ok (r, after) = ground arith in
                moved a (set_cancelled reason now) AuctionAudit.cancelled_audit
                  (some auction_cancelled) inv found (cancels can) (λ b. refl) (λ z. cc)
                  (freed why now o went refl) (cc (ran, ended)) (cc (ran, ended))
          ]
          | inr n ↦
              plain a (set_cancelled reason now) AuctionAudit.cancelled_audit
                (some auction_cancelled) db after r found (cancels can) (λ b. refl) (λ z. cc)
                (λ z. cc) (λ z. bars-cancelled a a.status refl can n) (ground arith)
        ])

pub open_auction-Outcome :
    (fresh : ℕ) (no_unit : Text) (auction_id now : ℕ) (db after : AuctionDb) (r : TransitionResult)
    → first_where (λ (x : ReservationRecord). x.id == fresh) db.inventory.reservations ≡ none
    → Lifecycle.open_auction fresh no_unit auction_id now db ≡ ok (r, after)
    → Outcome db r after
unfolding Lifecycle.open_auction Lifecycle.open_begun Lifecycle.reserve_or_cancel
open_auction-Outcome fresh no_unit auction_id now db after r unused =
    from_begin auction_id AuctionAction.open_action (open_begun fresh no_unit now) db after r
      (λ a found can h.
        let e : a.status ≡ scheduled = status_eq_sound a.status scheduled (ground arith) in
        let (_, run) =
          passed (ltb now a.starts_at) auction_not_due (reserve_or_cancel fresh no_unit now a) db
            after r h in
        elim (Result-cases (reserve_unit fresh a.product_id a.id a.quantity db.inventory)) [
          | inl (x, failed) ↦ elim (Bool-cases (is_insufficient x)) [
            | inl t ↦
                plain a (set_cancelled no_unit now) AuctionAudit.cancelled_audit
                  (some auction_cancelled) db after r found (rw e (cancels refl)) (λ b. refl)
                  (λ z. cc) (λ z. cc) (λ z. rw e refl) (ground arith)
            | inr f ↦ ground arith
          ]
          | inr ((o, inv), went) ↦
              let ended =
                transition_moves a (set_live now) AuctionAudit.opened (some auction_started)
                  (record db { inventory = inv }) found in
              let run : transition a (set_live now) AuctionAudit.opened (some auction_started)
                    (record db { inventory = inv })
                  ≡ ok (r, after) =
                ground arith in
              moved a (set_live now) AuctionAudit.opened (some auction_started) inv found
                (subst (λ s. Edge s live) (sym e) opens) (λ b. refl) (λ z. cc)
                (reserved fresh o unused went refl) (cc (run, ended)) (cc (run, ended))
        ])
