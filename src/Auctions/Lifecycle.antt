-- ===== src/Auctions/Lifecycle.antt =====
-- apps/api/src/modules/auctions/lifecycle.ts. The clock, the uuids of new rows and the roles that
-- `loadRoles` reads are arguments; the event of a result is what is published after the commit.
pub mod Moves
pub mod Stocked
pub mod Orderly
pub mod History
pub mod Schedule
mod Tests
use howlow.Prelude.{
  ℕ, Bool, true, false, Option, none, some, Text, List, [], ◌∷◌, ◌==◌, ◌&&◌, not, ltb, leb, or_else,
  if◌then◌else◌, first_where,
}
use howlow.Auth.{Role, auction_manager, admin, has_any_role}
use howlow.Errors.{
  AppError, auction_not_found, invalid_transition, auction_not_owned,
  unauthorized_auction_operation, auction_not_due, insufficient_inventory, Result, ok, err, Tx,
  pure, throw, throw_if, or_throw, gets, modify, ◌>>=◌, ◌>>◌,
}
use howlow.Catalog.Inventory.{reserve_unit, release_unit, ReservationOutcome, ReleaseOutcome}
use howlow.Auctions.Transitions.{
  AuctionStatus, draft, pending_approval, scheduled, live, closing, calculating, completed,
  cancelled, suspended, AuctionAction, status_eq, can_transition, target_of, holds_inventory,
}
use howlow.Auctions.Rows.{
  AuctionRecord, AuctionDb, AuctionAudit, find_auction, apply_transition, on_inventory,
}

abbrev pub auction_staff : List Role
auction_staff = auction_manager ∷ admin ∷ []

-- `assertStaff`
abbrev pub assert_staff : List Role → Tx AuctionDb (Unit {0})
assert_staff roles =
    throw_if (not (has_any_role roles auction_staff)) unauthorized_auction_operation

pub data AuctionEvent : Type 0 where
  auction_scheduled auction_started auction_cancelled auction_closing : AuctionEvent
  auction_suspended auction_resumed : AuctionEvent

-- `TransitionResult`, with the event that is published once the transaction has committed.
pub record TransitionResult : Type 0 where
  pub auction : AuctionRecord
  pub changed : Bool
  pub pending : Option AuctionEvent

abbrev pub unchanged : AuctionRecord → TransitionResult
unchanged a = record { auction = a; changed = false; pending = none }

-- What `beginTransition` finds: the auction to move, or one that is there already.
pub data Begun : Type 0 where
  begun : AuctionRecord → Begun
  already_done : AuctionRecord → Begun

-- `beginTransition`
unfoldable pub begin_transition : ℕ → AuctionAction → Tx AuctionDb Begun
begin_transition auction_id action db = elim (find_auction auction_id db.auctions) [
  | none ↦ err auction_not_found
  | some a ↦
      if status_eq a.status (target_of action)
      then ok (already_done a, db)
      else if can_transition action a.status
      then ok (begun a, db)
      else err invalid_transition
]

abbrev audit : AuctionAudit → AuctionRecord → AuctionStatus → Tx AuctionDb (Unit {0})
audit action a previous = modify (λ db. record db { audit = (action, a.id, previous) ∷ db.audit })

-- The audit row and the result of a move, where `applyTransition` returned the row.
unfoldable pub settle :
    AuctionRecord
    → AuctionAudit
    → Option AuctionEvent
    → Option AuctionRecord
    → Tx AuctionDb TransitionResult
settle a action event none = pure (unchanged a)
settle a action event (some updated) = do
  audit action updated a.status
  pure (record { auction = updated; changed = true; pending = event })

-- The end of every handler: the update, and what follows where it found the row.
unfoldable pub transition :
    AuctionRecord
    → (AuctionRecord → AuctionRecord)
    → AuctionAudit
    → Option AuctionEvent
    → Tx AuctionDb TransitionResult
transition a set action event = do
  updated ← apply_transition a.id a.status set
  settle a action event updated

-- A handler: nothing more for an auction that is there already, else the rest.
unfoldable pub continue_with :
    (AuctionRecord → Tx AuctionDb TransitionResult) → Begun → Tx AuctionDb TransitionResult
continue_with rest (already_done a) = pure (unchanged a)
continue_with rest (begun a) = rest a

abbrev pub set_submitted : ℕ → AuctionRecord → AuctionRecord
set_submitted now a = record a {
  status = pending_approval;
  submitted_at = some now;
  rejected_at = none;
  rejection_reason = none;
}

unfoldable pub submit_begun : ℕ → ℕ → AuctionRecord → Tx AuctionDb TransitionResult
submit_begun seller_id now a = do
  throw_if (not (a.seller_id == seller_id)) auction_not_owned
  transition a (set_submitted now) AuctionAudit.submitted none

-- `submitForApproval`
unfoldable pub submit_for_approval : ℕ → ℕ → ℕ → Tx AuctionDb TransitionResult
submit_for_approval auction_id seller_id now = do
  continue_with (submit_begun seller_id now) (← begin_transition auction_id AuctionAction.submit)

abbrev pub is_creator : Option ℕ → ℕ → Bool
is_creator none actor = false
is_creator (some user) actor = user == actor

abbrev pub set_approved : ℕ → ℕ → AuctionRecord → AuctionRecord
set_approved actor now a = record a {
  status = scheduled;
  approved_by = some actor;
  approved_at = some now;
  rejected_at = none;
  rejection_reason = none;
}

unfoldable pub approve_begun : List Role → ℕ → ℕ → AuctionRecord → Tx AuctionDb TransitionResult
approve_begun roles actor now a = do
  throw_if (is_creator a.created_by actor && not (has_any_role roles (admin ∷ [])))
      unauthorized_auction_operation
  transition a (set_approved actor now) AuctionAudit.approved (some auction_scheduled)

-- `approve`
unfoldable pub approve : List Role → ℕ → ℕ → ℕ → Tx AuctionDb TransitionResult
approve roles auction_id actor now = do
  assert_staff roles
  continue_with (approve_begun roles actor now)
      (← begin_transition auction_id AuctionAction.approve)

abbrev pub set_rejected : Text → ℕ → AuctionRecord → AuctionRecord
set_rejected reason now a = record a {
  status = draft;
  rejected_at = some now;
  rejection_reason = some reason;
  submitted_at = none;
}

unfoldable pub reject_begun : Text → ℕ → AuctionRecord → Tx AuctionDb TransitionResult
reject_begun reason now a = transition a (set_rejected reason now) AuctionAudit.rejected none

-- `reject`
unfoldable pub reject : List Role → ℕ → Text → ℕ → Tx AuctionDb TransitionResult
reject roles auction_id reason now = do
  assert_staff roles
  continue_with (reject_begun reason now) (← begin_transition auction_id AuctionAction.reject)

abbrev pub is_insufficient : AppError → Bool
is_insufficient insufficient_inventory = true
is_insufficient _ = false

abbrev pub set_cancelled : Text → ℕ → AuctionRecord → AuctionRecord
set_cancelled reason now a = record a {
  status = cancelled;
  cancelled_at = some now;
  cancel_reason = some reason;
}

abbrev pub set_live : ℕ → AuctionRecord → AuctionRecord
set_live now a = record a { status = live; opened_at = some now }

-- The `try` around `reserveUnit`: the error of an empty stock cancels the auction. It is raised before
-- anything is written, so the handler starts from the tables as they were.
unfoldable pub reserve_or_cancel : ℕ → Text → ℕ → AuctionRecord → Tx AuctionDb TransitionResult
reserve_or_cancel fresh no_unit now a db =
    elim (on_inventory (reserve_unit fresh a.product_id a.id a.quantity) db) [
      | ok (r, t) ↦ transition a (set_live now) AuctionAudit.opened (some auction_started) t
      | err e ↦
          if is_insufficient e
          then transition a (set_cancelled no_unit now) AuctionAudit.cancelled_audit
              (some auction_cancelled) db
          else err e
    ]

unfoldable pub open_begun : ℕ → Text → ℕ → AuctionRecord → Tx AuctionDb TransitionResult
open_begun fresh no_unit now a = do
  throw_if (ltb now a.starts_at) auction_not_due
  reserve_or_cancel fresh no_unit now a

-- `open`. `no_unit` is the reason that is recorded where no unit is available; `cancelledForInventory`
-- of the result is true where the pending event is the one of the cancellation.
unfoldable pub open_auction : ℕ → Text → ℕ → ℕ → Tx AuctionDb TransitionResult
open_auction fresh no_unit auction_id now = do
  continue_with (open_begun fresh no_unit now)
      (← begin_transition auction_id AuctionAction.open_action)

abbrev pub set_closing : ℕ → AuctionRecord → AuctionRecord
set_closing now a = record a { status = closing; closing_at = some now }

unfoldable pub close_begun : ℕ → AuctionRecord → Tx AuctionDb TransitionResult
close_begun now a = do
  throw_if (ltb now a.ends_at) auction_not_due
  transition a (set_closing now) AuctionAudit.closing_audit (some auction_closing)

-- The rest of `close`, for an auction whose result is not being computed yet.
unfoldable pub close_unsettled : ℕ → ℕ → AuctionRecord → Tx AuctionDb TransitionResult
close_unsettled auction_id now settled = elim settled.status [
  | calculating ↦ pure (unchanged settled)
  | completed ↦ pure (unchanged settled)
  | _ ↦ do continue_with (close_begun now) (← begin_transition auction_id AuctionAction.close)
]

-- `close`
unfoldable pub close : ℕ → ℕ → Tx AuctionDb TransitionResult
close auction_id now = do
  settled ← or_throw auction_not_found (← gets (λ db. find_auction auction_id db.auctions))
  close_unsettled auction_id now settled

abbrev pub set_calculating : ℕ → AuctionRecord → AuctionRecord
set_calculating closed_at a = record a { status = calculating; closed_at = some closed_at }

unfoldable pub calculate_begun : ℕ → AuctionRecord → Tx AuctionDb TransitionResult
calculate_begun now a =
    transition a (set_calculating (or_else a.closing_at now)) AuctionAudit.calculating_audit none

-- `beginCalculating`
unfoldable pub begin_calculating : ℕ → ℕ → Tx AuctionDb TransitionResult
begin_calculating auction_id now = do
  continue_with (calculate_begun now)
      (← begin_transition auction_id AuctionAction.begin_calculating)

abbrev pub set_completed : AuctionRecord → AuctionRecord
set_completed a = record a { status = completed }

unfoldable pub complete_begun : AuctionRecord → Tx AuctionDb TransitionResult
complete_begun a = transition a set_completed AuctionAudit.completed_audit none

-- `complete`
unfoldable pub complete : ℕ → Tx AuctionDb TransitionResult
complete auction_id = do
  continue_with complete_begun (← begin_transition auction_id AuctionAction.complete)

abbrev pub set_suspended : ℕ → Text → ℕ → AuctionStatus → AuctionRecord → AuctionRecord
set_suspended actor reason now from a = record a {
  status = suspended;
  suspended_at = some now;
  suspended_by = some actor;
  suspend_reason = some reason;
  suspended_from = some from;
}

unfoldable pub suspend_begun : ℕ → Text → ℕ → AuctionRecord → Tx AuctionDb TransitionResult
suspend_begun actor reason now a =
    transition a (set_suspended actor reason now a.status) AuctionAudit.suspended_audit
      (some auction_suspended)

-- `suspend`
unfoldable pub suspend : List Role → ℕ → ℕ → Text → ℕ → Tx AuctionDb TransitionResult
suspend roles auction_id actor reason now = do
  assert_staff roles
  continue_with (suspend_begun actor reason now)
      (← begin_transition auction_id AuctionAction.suspend)

abbrev pub set_resumed : AuctionStatus → AuctionRecord → AuctionRecord
set_resumed restored a = record a {
  status = restored;
  suspended_at = none;
  suspended_by = none;
  suspend_reason = none;
  suspended_from = none;
}

unfoldable pub resume_suspended : AuctionRecord → Tx AuctionDb TransitionResult
resume_suspended a = do
  throw_if (not (status_eq a.status suspended)) invalid_transition
  transition a (set_resumed (or_else a.suspended_from scheduled)) AuctionAudit.resumed
      (some auction_resumed)

-- `resume`
unfoldable pub resume : List Role → ℕ → Tx AuctionDb TransitionResult
resume roles auction_id = do
  assert_staff roles
  a ← or_throw auction_not_found (← gets (λ db. find_auction auction_id db.auctions))
  resume_suspended a

abbrev pub is_seller : Option ℕ → AuctionRecord → Bool
is_seller none a = false
is_seller (some seller) a = a.seller_id == seller

-- The unit goes back to stock, where the status says that one may be held.
unfoldable pub release_if_held : ℕ → Text → AuctionRecord → Tx AuctionDb (Unit {0})
release_if_held now why a =
    if holds_inventory a.status
    then (do on_inventory (release_unit a.id why now); pure tt)
    else pure tt

unfoldable pub cancel_begun :
    List Role → Option ℕ → Text → Text → ℕ → AuctionRecord → Tx AuctionDb TransitionResult
cancel_begun roles seller reason why now a = do
  throw_if
      (not (is_seller seller a && not (holds_inventory a.status))
        && not (has_any_role roles auction_staff))
      unauthorized_auction_operation
  release_if_held now why a
  transition a (set_cancelled reason now) AuctionAudit.cancelled_audit (some auction_cancelled)

-- `cancel`. `why` is the reason that is recorded with the release.
unfoldable pub cancel : List Role → ℕ → Option ℕ → Text → Text → ℕ → Tx AuctionDb TransitionResult
cancel roles auction_id seller reason why now = do
  continue_with (cancel_begun roles seller reason why now)
      (← begin_transition auction_id AuctionAction.cancel)
