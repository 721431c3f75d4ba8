-- ===== src/Auctions/Lifecycle/Moves/Handlers.antt =====
-- The handlers of lifecycle.ts that leave the inventory alone, with what each has done where it succeeds.
use howlow.Prelude.{
  ℕ, ◌≡◌, refl, true, false, Bool, Option, none, some, Text, List, [], ◌∷◌, ◌==◌, ◌&&◌, arith, inl,
  inr, Option-cases, Bool-cases, not, ltb, or_else, ap, subst, sym,
}
use howlow.Auth.{Role, has_any_role, admin}
use howlow.Errors.{
  AppError, auction_not_owned, unauthorized_auction_operation, auction_not_due, ok, Tx, ◌>>=◌, ◌>>◌,
  throw_if,
}
use howlow.Auctions.Transitions.{
  AuctionStatus, draft, pending_approval, scheduled, live, closing, calculating, completed,
  cancelled, suspended, AuctionAction, status_eq, can_transition,
}
use howlow.Auctions.Transitions.Diagram.{
  Edge, submits, approves, rejects, closes, calculates, completes, suspends,
}
use howlow.Auctions.Rows.{AuctionRecord, AuctionDb, AuctionAudit, find_auction}
use howlow.Auctions.Lifecycle
use howlow.Auctions.Lifecycle.{
  TransitionResult, AuctionEvent, unchanged, begin_transition, continue_with, transition,
  set_submitted, submit_begun, submit_for_approval, set_approved, set_rejected, set_calculating,
  set_completed, set_suspended, set_closing, set_live, set_cancelled, set_resumed, is_creator,
  approve_begun, reject_begun, calculate_begun, complete_begun, suspend_begun, close_begun,
  cancel_begun, open_begun, assert_staff, auction_staff, auction_scheduled, auction_suspended,
  auction_closing, auction_resumed, auction_started, auction_cancelled, is_insufficient,
  reserve_or_cancel, release_if_held, resume_suspended, close_unsettled, is_seller,
}
use howlow.Auctions.Lifecycle.Moves.{
  Outcome, stayed, moved, kept, IsResumable, needs_unit, bars_unit, transition_moves, begin_cases,
  status_eq_sound,
}

-- A handler that begins a move has the outcome that its rest has.
pub from_begin :
    (auction_id : ℕ) (action : AuctionAction) (rest : AuctionRecord → Tx AuctionDb TransitionResult)
    (db after : AuctionDb) (r : TransitionResult)
    → ((a : AuctionRecord)
        → find_auction a.id db.auctions ≡ some a
        → can_transition action a.status ≡ true
        → rest a db ≡ ok (r, after)
        → Outcome db r after)
    → (begin_transition auction_id action >>= λ b. continue_with rest b) db ≡ ok (r, after)
    → Outcome db r after
from_begin auction_id action rest db after r does h =
    let (a, found, cases) = begin_cases auction_id action rest db after r h in
    elim cases [
      | inl (_, e, same) ↦ stayed same (ap (λ x. x.changed) e)
      | inr (can, run) ↦ does a found can run
    ]

-- A move that leaves the inventory alone.
pub plain :
    (a : AuctionRecord) (set : AuctionRecord → AuctionRecord) (action : AuctionAudit)
    (event : Option AuctionEvent) (db after : AuctionDb) (r : TransitionResult)
    → find_auction a.id db.auctions ≡ some a
    → Edge a.status (set a).status
    → ((b : AuctionRecord) → (set b).id ≡ b.id)
    → IsResumable (set a)
    → (needs_unit (set a) ≡ true → needs_unit a ≡ true)
    → (bars_unit (set a) ≡ true → bars_unit a ≡ true)
    → transition a set action event db ≡ ok (r, after)
    → Outcome db r after
plain a set action event db after r found edge ids back needs bars h =
    let e = transition_moves a set action event db found in
    moved a set action event db.inventory found edge ids back (kept refl needs bars) (cc (h, e))
      (cc (h, e))

-- What stands behind a test ran, where the whole succeeded.
pub passed :
    {A : Type 0} (stop : Bool) (e : AppError) (m : Tx AuctionDb A) (db after : AuctionDb) (r : A)
    → (throw_if stop e >> m) db ≡ ok (r, after)
    → (stop ≡ false) × (m db ≡ ok (r, after))
passed stop e m db after r h = elim (Bool-cases stop) [
  | inl t ↦ ground (arith, t)
  | inr f ↦ (f, ground (arith, f))
]

pub staffed :
    (roles : List Role) (m : Tx AuctionDb TransitionResult) (db after : AuctionDb)
    (r : TransitionResult)
    → (assert_staff roles >> m) db ≡ ok (r, after)
    → m db ≡ ok (r, after)
staffed roles m db after r h =
    (passed (not (has_any_role roles auction_staff)) unauthorized_auction_operation m db after r
      h).1

pub submit_for_approval-Outcome :
    (auction_id seller_id now : ℕ) (db after : AuctionDb) (r : TransitionResult)
    → submit_for_approval auction_id seller_id now db ≡ ok (r, after)
    → Outcome db r after
unfolding submit_for_approval submit_begun
submit_for_approval-Outcome auction_id seller_id now db after r =
    from_begin auction_id AuctionAction.submit (submit_begun seller_id now) db after r
      (λ a found can h.
        let e : a.status ≡ draft = status_eq_sound a.status draft (ground arith) in
        plain a (set_submitted now) AuctionAudit.submitted none db after r found
          (subst (λ s. Edge s pending_approval) (sym e) submits) (λ b. refl) (λ z. cc) (λ z. cc)
          (λ z. rw e refl)
          (passed (not (a.seller_id == seller_id)) auction_not_owned
            (transition a (set_submitted now) AuctionAudit.submitted none) db after r h).1)

pub approve-Outcome :
    (roles : List Role) (auction_id actor now : ℕ) (db after : AuctionDb) (r : TransitionResult)
    → Lifecycle.approve roles auction_id actor now db ≡ ok (r, after)
    → Outcome db r after
unfolding Lifecycle.approve Lifecycle.approve_begun
approve-Outcome roles auction_id actor now db after r run =
    from_begin auction_id AuctionAction.approve (approve_begun roles actor now) db after r
      (λ a found can h.
        let e : a.status ≡ pending_approval =
          status_eq_sound a.status pending_approval (ground arith) in
        plain a (set_approved actor now) AuctionAudit.approved (some auction_scheduled) db after r
          found (subst (λ s. Edge s scheduled) (sym e) approves) (λ b. refl) (λ z. cc) (λ z. cc)
          (λ z. rw e refl)
          (passed (is_creator a.created_by actor && not (has_any_role roles (admin ∷ [])))
            unauthorized_auction_operation
            (transition a (set_approved actor now) AuctionAudit.approved (some auction_scheduled))
            db after r h).1)
      (staffed roles
        (begin_transition auction_id AuctionAction.approve >>= λ b.
          continue_with (approve_begun roles actor now) b)
        db after r run)

pub reject-Outcome :
    (roles : List Role) (auction_id : ℕ) (reason : Text) (now : ℕ) (db after : AuctionDb)
    (r : TransitionResult)
    → Lifecycle.reject roles auction_id reason now db ≡ ok (r, after)
    → Outcome db r after
unfolding Lifecycle.reject Lifecycle.reject_begun
reject-Outcome roles auction_id reason now db after r run =
    from_begin auction_id AuctionAction.reject (reject_begun reason now) db after r
      (λ a found can h.
        let e : a.status ≡ pending_approval =
          status_eq_sound a.status pending_approval (ground arith) in
        plain a (set_rejected reason now) AuctionAudit.rejected none db after r found
          (subst (λ s. Edge s draft) (sym e) rejects) (λ b. refl) (λ z. cc) (λ z. cc)
          (λ z. rw e refl) h)
      (staffed roles
        (begin_transition auction_id AuctionAction.reject >>= λ b.
          continue_with (reject_begun reason now) b)
        db after r run)

pub begin_calculating-Outcome :
    (auction_id now : ℕ) (db after : AuctionDb) (r : TransitionResult)
    → Lifecycle.begin_calculating auction_id now db ≡ ok (r, after)
    → Outcome db r after
unfolding Lifecycle.begin_calculating Lifecycle.calculate_begun
begin_calculating-Outcome auction_id now db after r =
    from_begin auction_id AuctionAction.begin_calculating (calculate_begun now) db after r
      (λ a found can h.
        let e : a.status ≡ closing = status_eq_sound a.status closing (ground arith) in
        plain a (set_calculating (or_else a.closing_at now)) AuctionAudit.calculating_audit none db
          after r found (subst (λ s. Edge s calculating) (sym e) calculates) (λ b. refl) (λ z. cc)
          (λ z. rw e refl) (λ z. cc) h)

pub complete-Outcome :
    (auction_id : ℕ) (db after : AuctionDb) (r : TransitionResult)
    → Lifecycle.complete auction_id db ≡ ok (r, after)
    → Outcome db r after
unfolding Lifecycle.complete Lifecycle.complete_begun
complete-Outcome auction_id db after r =
    from_begin auction_id AuctionAction.complete (complete_begun) db after r (λ a found can h.
      let e : a.status ≡ calculating = status_eq_sound a.status calculating (ground arith) in
      plain a set_completed AuctionAudit.completed_audit none db after r found
        (subst (λ s. Edge s completed) (sym e) completes) (λ b. refl) (λ z. cc) (λ z. rw e refl)
        (λ z. cc) h)

pub suspend-Outcome :
    (roles : List Role) (auction_id actor : ℕ) (reason : Text) (now : ℕ) (db after : AuctionDb)
    (r : TransitionResult)
    → Lifecycle.suspend roles auction_id actor reason now db ≡ ok (r, after)
    → Outcome db r after
unfolding Lifecycle.suspend Lifecycle.suspend_begun
suspend-Outcome roles auction_id actor reason now db after r run =
    from_begin auction_id AuctionAction.suspend (suspend_begun actor reason now) db after r
      (λ a found can h.
        plain a (set_suspended actor reason now a.status) AuctionAudit.suspended_audit
          (some auction_suspended) db after r found (suspends can) (λ b. refl)
          (λ z. (a.status, refl, can)) (λ z. rw (status_eq_sound a.status live z) refl)
          (suspended_bars a can) h)
      (staffed roles
        (begin_transition auction_id AuctionAction.suspend >>= λ b.
          continue_with (suspend_begun actor reason now) b)
        db after r run)
  where
    suspended_bars :
        (a : AuctionRecord)
        → can_transition AuctionAction.suspend a.status ≡ true
        → not (status_eq a.status live) ≡ true
        → bars_unit a ≡ true
    suspended_bars a can n = elim (Bool-cases (status_eq a.status scheduled)) [
      | inl t ↦ rw (status_eq_sound a.status scheduled t) refl
      | inr f ↦
          let e : a.status ≡ pending_approval =
            status_eq_sound a.status pending_approval (ground arith) in
          rw e refl
    ]

pub close-Outcome :
    (auction_id now : ℕ) (db after : AuctionDb) (r : TransitionResult)
    → Lifecycle.close auction_id now db ≡ ok (r, after)
    → Outcome db r after
unfolding Lifecycle.close Lifecycle.close_begun close_unsettled
close-Outcome auction_id now db after r run =
    elim (Option-cases (find_auction auction_id db.auctions)) [
      | inl none_found ↦ ground arith
      | inr (a, e) ↦ by_status a a.status refl (ground arith)
    ]
  where
    closes_it :
        (begin_transition auction_id AuctionAction.close >>= λ b. continue_with (close_begun now) b)
            db
          ≡ ok (r, after)
        → Outcome db r after
    closes_it =
        from_begin auction_id AuctionAction.close (close_begun now) db after r (λ a found can h.
          let e : a.status ≡ live = status_eq_sound a.status live (ground arith) in
          plain a (set_closing now) AuctionAudit.closing_audit (some auction_closing) db after r
            found (subst (λ s. Edge s closing) (sym e) closes) (λ b. refl) (λ z. cc)
            (λ z. rw e refl) (λ z. cc)
            (passed (ltb now a.ends_at) auction_not_due
              (transition a (set_closing now) AuctionAudit.closing_audit (some auction_closing)) db
              after r h).1)

    by_status :
        (a : AuctionRecord) (s : AuctionStatus)
        → a.status ≡ s
        → close_unsettled auction_id now a db ≡ ok (r, after)
        → Outcome db r after
    by_status a calculating e h = stayed (ground (arith, rw e at h)) (ground (arith, rw e at h))
    by_status a completed e h = stayed (ground (arith, rw e at h)) (ground (arith, rw e at h))
    by_status a draft e h = closes_it (rw e at h)
    by_status a pending_approval e h = closes_it (rw e at h)
    by_status a scheduled e h = closes_it (rw e at h)
    by_status a live e h = closes_it (rw e at h)
    by_status a closing e h = closes_it (rw e at h)
    by_status a cancelled e h = closes_it (rw e at h)
    by_status a suspended e h = closes_it (rw e at h)
