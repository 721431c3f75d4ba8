-- ===== src/Auctions/Transitions.antt =====
-- apps/api/src/modules/auctions/transitions.ts: what an auction may do next.
pub mod Diagram
use howlow.Prelude.{ℕ, Bool, true, false, List, [], ◌∷◌, ◌==◌, ◌||◌}

pub data AuctionStatus : Type 0 where
  draft pending_approval scheduled live closing calculating completed cancelled suspended :
      AuctionStatus

pub data AuctionAction : Type 0 where
  submit approve reject open_action close begin_calculating complete suspend cancel : AuctionAction

-- `===` on statuses.
abbrev pub status_code : AuctionStatus → ℕ
status_code draft = 0
status_code pending_approval = 1
status_code scheduled = 2
status_code live = 3
status_code closing = 4
status_code calculating = 5
status_code completed = 6
status_code cancelled = 7
status_code suspended = 8

abbrev pub status_eq : AuctionStatus → AuctionStatus → Bool
status_eq s t = status_code s == status_code t

abbrev pub includes_status : List AuctionStatus → AuctionStatus → Bool
includes_status [] s = false
includes_status (t ∷ ts) s = status_eq t s || includes_status ts s

-- The `to` of `AUCTION_TRANSITIONS`, which `targetOf` returns.
abbrev pub target_of : AuctionAction → AuctionStatus
target_of submit = pending_approval
target_of approve = scheduled
target_of reject = draft
target_of open_action = live
target_of close = closing
target_of begin_calculating = calculating
target_of complete = completed
target_of suspend = suspended
target_of cancel = cancelled

-- The `from` of `AUCTION_TRANSITIONS`, which `allowedFrom` returns.
abbrev pub allowed_from : AuctionAction → List AuctionStatus
allowed_from submit = draft ∷ []
allowed_from approve = pending_approval ∷ []
allowed_from reject = pending_approval ∷ []
allowed_from open_action = scheduled ∷ []
allowed_from close = live ∷ []
allowed_from begin_calculating = closing ∷ []
allowed_from complete = calculating ∷ []
allowed_from suspend = pending_approval ∷ scheduled ∷ live ∷ []
allowed_from cancel = draft ∷ pending_approval ∷ scheduled ∷ live ∷ closing ∷ suspended ∷ []

-- `canTransition`
abbrev pub can_transition : AuctionAction → AuctionStatus → Bool
can_transition action from = includes_status (allowed_from action) from

abbrev terms_locked_statuses : List AuctionStatus
terms_locked_statuses = live ∷ closing ∷ calculating ∷ completed ∷ cancelled ∷ suspended ∷ []

-- `termsAreLocked`
abbrev pub terms_are_locked : AuctionStatus → Bool
terms_are_locked s = includes_status terms_locked_statuses s

abbrev terminal_statuses : List AuctionStatus
terminal_statuses = completed ∷ cancelled ∷ []

-- `isTerminal`
abbrev pub is_terminal : AuctionStatus → Bool
is_terminal s = includes_status terminal_statuses s

-- `RESUMABLE_STATUSES`
abbrev pub resumable_statuses : List AuctionStatus
resumable_statuses = pending_approval ∷ scheduled ∷ live ∷ []

-- `holdsInventory`
abbrev pub holds_inventory : AuctionStatus → Bool
holds_inventory s = status_eq s live || (status_eq s closing || status_eq s suspended)
