-- ===== src/Auctions/Transitions/Diagram.antt =====
-- The diagram in the comment of transitions.ts, and the table read as its edges.
use howlow.Prelude.{◌≡◌, refl, subst, true, false, arith}
use howlow.Auctions.Transitions.{
  AuctionStatus, draft, pending_approval, scheduled, live, closing, calculating, completed,
  cancelled, suspended, AuctionAction, can_transition, target_of, is_terminal,
}

-- An edge of the diagram: the ordinary course, the ways to suspend and resume, and the ways out.
pub data Edge : AuctionStatus → AuctionStatus → Type 0 where
  submits : Edge draft pending_approval
  approves : Edge pending_approval scheduled
  rejects : Edge pending_approval draft
  opens : Edge scheduled live
  closes : Edge live closing
  calculates : Edge closing calculating
  completes : Edge calculating completed
  suspends : {s : AuctionStatus} → can_transition AuctionAction.suspend s ≡ true → Edge s suspended
  resumes : {s : AuctionStatus} → can_transition AuctionAction.suspend s ≡ true → Edge suspended s
  cancels : {s : AuctionStatus} → can_transition AuctionAction.cancel s ≡ true → Edge s cancelled

-- Every move that the table allows is an edge of the diagram.
pub can_transition-Edge :
    (action : AuctionAction) (s : AuctionStatus)
    → can_transition action s ≡ true
    → Edge s (target_of action)
can_transition-Edge AuctionAction.submit s h =
    subst (λ t. Edge t pending_approval) (ground arith) submits
can_transition-Edge AuctionAction.approve s h =
    subst (λ t. Edge t scheduled) (ground arith) approves
can_transition-Edge AuctionAction.reject s h = subst (λ t. Edge t draft) (ground arith) rejects
can_transition-Edge AuctionAction.open_action s h = subst (λ t. Edge t live) (ground arith) opens
can_transition-Edge AuctionAction.close s h = subst (λ t. Edge t closing) (ground arith) closes
can_transition-Edge AuctionAction.begin_calculating s h =
    subst (λ t. Edge t calculating) (ground arith) calculates
can_transition-Edge AuctionAction.complete s h =
    subst (λ t. Edge t completed) (ground arith) completes
can_transition-Edge AuctionAction.suspend s h = suspends h
can_transition-Edge AuctionAction.cancel s h = cancels h

-- No edge leaves a terminal status.
pub Edge-is_terminal : {s t : AuctionStatus} → Edge s t → is_terminal s ≡ false
Edge-is_terminal submits = refl
Edge-is_terminal approves = refl
Edge-is_terminal rejects = refl
Edge-is_terminal opens = refl
Edge-is_terminal closes = refl
Edge-is_terminal calculates = refl
Edge-is_terminal completes = refl
Edge-is_terminal (suspends h) = ground arith
Edge-is_terminal (resumes h) = refl
Edge-is_terminal (cancels h) = ground arith

-- The statuses that lead to a completed auction can be entered in one way each.
pub before_completed : {s t : AuctionStatus} → Edge s t → t ≡ completed → s ≡ calculating
before_completed completes h = refl
before_completed (resumes k) h = ground arith
before_completed submits h = cc
before_completed approves h = cc
before_completed rejects h = cc
before_completed opens h = cc
before_completed closes h = cc
before_completed calculates h = cc
before_completed (suspends k) h = cc
before_completed (cancels k) h = cc

pub before_calculating : {s t : AuctionStatus} → Edge s t → t ≡ calculating → s ≡ closing
before_calculating calculates h = refl
before_calculating (resumes k) h = ground arith
before_calculating submits h = cc
before_calculating approves h = cc
before_calculating rejects h = cc
before_calculating opens h = cc
before_calculating closes h = cc
before_calculating completes h = cc
before_calculating (suspends k) h = cc
before_calculating (cancels k) h = cc

pub before_closing : {s t : AuctionStatus} → Edge s t → t ≡ closing → s ≡ live
before_closing closes h = refl
before_closing (resumes k) h = ground arith
before_closing submits h = cc
before_closing approves h = cc
before_closing rejects h = cc
before_closing opens h = cc
before_closing calculates h = cc
before_closing completes h = cc
before_closing (suspends k) h = cc
before_closing (cancels k) h = cc
