-- ===== src/Bidding/Idempotency.antt =====
-- apps/api/src/modules/bidding/idempotency.ts: the rows of `idempotency_keys` with the scope of bids.
use howlow.Prelude.{
  ℕ, Bool, false, not, Option, none, some, Text, text_eq, List, ◌∷◌, ◌==◌, ◌||◌, first_where,
  update_where, if◌then◌else◌,
}
use howlow.Prelude.Int.{ℤ}
use howlow.Errors.{idempotency_conflict, idempotency_in_progress, Result, ok, err, Tx}
use howlow.Bidding.Tables.{sort_amounts}

-- `BidResponseSnapshot`
pub record BidResponseSnapshot : Type 0 where
  pub bid_ids : List ℕ
  pub total_fee_minor : ℕ
  pub bid_count : ℕ
  pub bids_remaining : ℕ
  pub wallet_balance_minor : ℤ
  pub submitted_at : ℕ
  pub total_bids : ℕ
  pub total_participants : ℕ

pub data KeyState : Type 0 where
  in_progress completed : KeyState

pub record KeyRow : Type 0 where
  pub id : ℕ
  pub key : Text
  pub user_id : Option ℕ
  pub request_hash : Text
  pub state : KeyState
  pub response_body : Option BidResponseSnapshot

-- `bidRequestHash`: the hash of the auction, the user and the sorted amounts.
abbrev pub bid_request_hash : (ℕ → ℕ → List ℕ → Text) → ℕ → ℕ → List ℕ → Text
bid_request_hash hash auction_id user_id amounts = hash auction_id user_id (sort_amounts amounts)

-- `Claim`
pub data Claim : Type 0 where
  claimed : ℕ → Claim
  replay : BidResponseSnapshot → Claim

abbrev pub has_this_key : Text → KeyRow → Bool
has_this_key key row = text_eq row.key key

abbrev pub is_user : ℕ → Option ℕ → Bool
is_user id none = false
is_user id (some user) = user == id

unfoldable pub answer_of :
    KeyState → Option BidResponseSnapshot → List KeyRow → Result (Claim × List KeyRow)
answer_of completed (some snapshot) keys = ok (replay snapshot, keys)
answer_of completed none keys = err idempotency_in_progress
answer_of in_progress body keys = err idempotency_in_progress

abbrev pub new_key : ℕ → Text → ℕ → Text → KeyRow
new_key fresh key user_id request_hash = record {
  id = fresh;
  key = key;
  user_id = some user_id;
  request_hash = request_hash;
  state = in_progress;
  response_body = none;
}

-- `claimKey`. Rows that expired are swept by another job: here the second statement finds the row that
-- the first one ran into.
unfoldable pub claim_key : ℕ → Text → ℕ → Text → Tx (List KeyRow) Claim
claim_key fresh key user_id request_hash keys = elim (first_where (has_this_key key) keys) [
  | none ↦ ok (claimed fresh, new_key fresh key user_id request_hash ∷ keys)
  | some existing ↦
      if not (is_user user_id existing.user_id) || not (text_eq existing.request_hash request_hash)
      then err idempotency_conflict
      else answer_of existing.state existing.response_body keys
]

abbrev pub answered : BidResponseSnapshot → KeyRow → KeyRow
answered snapshot row = record row { state = completed; response_body = some snapshot }

-- `completeKey`
unfoldable pub complete_key : ℕ → BidResponseSnapshot → List KeyRow → List KeyRow
complete_key id snapshot keys = update_where (λ row. row.id == id) (answered snapshot) keys
