-- ===== src/Bidding/Service.antt =====
-- apps/api/src/modules/bidding/bidService.ts: a submission of bids. `hash` stands for createHash over
-- the JSON of a request, and `show` for String on a count, in the memo of the fee; the user's standing
-- and the auction that `getPublicAuction` finds are arguments, and so are the clock and the uuids.
pub mod Retry
pub mod Batch
pub mod Charge
mod Tests
use howlow.Prelude.{
  length, ℕ, zero, suc, ◌+◌, ◌-◌, ◌*◌, Bool, true, false, not, Option, none, some, Text, List, [],
  ◌∷◌, ◌++◌, map, ◌==◌, ◌&&◌, ltb, leb, if◌then◌else◌,
}
use howlow.Prelude.Int.{ℤ, pos}
use howlow.Shared.{Currency, Channel}
use howlow.Errors.{
  rate_limited, AppError, insufficient_funds, wallet_frozen, bid_insufficient_funds,
  bid_wallet_frozen, auction_not_live, auction_not_started, auction_ended, bidder_not_eligible,
  bid_limit_exceeded, duplicate_amount, duplicate_amount_unknown, not_found, Result, ok, err, Tx,
  pure, throw, throw_if, or_throw, gets, modify, ◌>>=◌, ◌>>◌,
}
use howlow.Wallet.Rows.{WalletDb, MovementResult, bid_fee}
use howlow.Wallet.Service.{MovementRequest, get_wallet, move}
use howlow.Catalog.Inventory.{ReservationRecord, find_held_reservation}
use howlow.Auctions.Transitions.{live, status_eq}
use howlow.Auctions.Rows.{AuctionRecord, find_auction}
use howlow.Bidding.Rows.{BidRecord}
use howlow.Bidding.Validation.{
  AuctionBidTerms, parse_amounts, assert_no_repeats, assert_amounts_allowed, total_fee,
}
use howlow.Bidding.Tables.{
  BidTables, ParticipantRecord, BatchInput, on_wallet, find_existing_amounts,
  find_bids_by_idempotency_key, insert_bids, attach_wallet_entry, lock_or_create_participant,
  add_participant_bids, add_bid_counters,
}
use howlow.Bidding.Idempotency.{
  BidResponseSnapshot, KeyRow, Claim, claimed, replay, bid_request_hash, claim_key, complete_key,
}

-- `SubmitBidsInput`, with the uuids of the rows that the submission may write and the two times of it:
-- `now` of the transaction, and `clock`, what clock_timestamp() says once the auction is locked.
pub record SubmitBidsInput : Type 0 where
  pub user_id : ℕ
  pub amounts_minor : List Text
  pub idempotency_key : Text
  pub channel : Channel
  pub request_id : Option ℕ
  pub now : ℕ
  pub clock : ℕ
  pub key_id : ℕ
  pub wallet_id : ℕ
  pub entry_id : ℕ
  pub participant_id : ℕ
  pub new_bid_id : ℕ → ℕ

-- `SubmitBidsOutcome`
pub record SubmitBidsOutcome : Type 0 where
  pub auction_id : ℕ
  pub bids : List BidRecord
  pub total_fee_minor : ℕ
  pub currency : Currency
  pub bid_count : ℕ
  pub bids_remaining : ℕ
  pub wallet_balance_minor : ℤ
  pub replayed : Bool
  pub submitted_at : ℕ
  pub auction_totals : ℕ × ℕ

pub record Bidder : Type 0 where
  pub is_active : Bool
  pub phone_verified : Bool

-- `assertBidderEligible`
abbrev pub assert_bidder_eligible : {S : Type 0} → Bidder → Tx S (Unit {0})
assert_bidder_eligible b = throw_if (not (b.is_active && b.phone_verified)) bidder_not_eligible

-- `assertAcceptingBids`, before the transaction and in it.
abbrev pub assert_live : {S : Type 0} → AuctionRecord → Tx S (Unit {0})
assert_live a = throw_if (not (status_eq a.status live)) auction_not_live

unfoldable pub assert_accepting_bids : {S : Type 0} → AuctionRecord → ℕ → Tx S (Unit {0})
assert_accepting_bids a now = do
  assert_live a
  throw_if (ltb now a.starts_at) auction_not_started
  throw_if (leb a.ends_at now) auction_ended

abbrev pub terms_of : AuctionRecord → AuctionBidTerms
terms_of a = record {
  min_bid_minor = a.min_bid_minor;
  max_bid_minor = a.max_bid_minor;
  bid_increment_minor = a.bid_increment_minor;
}

abbrev pub check : {S A : Type 0} → Result A → Tx S A
check result db = elim result [ ok a ↦ ok (a, db) | err e ↦ err e ]

-- `assertDeliverable`
unfoldable pub assert_deliverable : AuctionRecord → Tx BidTables (Unit {0})
assert_deliverable a db = elim (find_held_reservation a.id db.auctions.inventory) [
  | none ↦ err auction_not_live
  | some r ↦ ok (tt, db)
]

abbrev pub batch_input : AuctionRecord → SubmitBidsInput → BatchInput
batch_input a i = record {
  auction_id = a.id;
  user_id = i.user_id;
  fee_minor = a.bid_fee_minor;
  channel = i.channel;
  idempotency_key = i.idempotency_key;
  request_id = i.request_id;
  now = i.now;
  new_id = i.new_bid_id;
}

-- `insertBatch`. The statement names no conflict target, so it raises no violation of a unique index.
unfoldable pub insert_batch :
    AuctionRecord → SubmitBidsInput → List ℕ → Tx BidTables (List BidRecord)
insert_batch a i amounts = do
  bids ← insert_bids (batch_input a i) amounts
  throw_if (not (length bids == length amounts)) duplicate_amount_unknown
  pure bids

-- `asBidWalletError`. The two idempotency conflicts are one error here.
abbrev pub as_bid_wallet_error : AppError → AppError
as_bid_wallet_error insufficient_funds = bid_insufficient_funds
as_bid_wallet_error wallet_frozen = bid_wallet_frozen
as_bid_wallet_error e = e

-- `debitOrTranslate`
abbrev pub debit_or_translate : {A : Type 0} → Tx BidTables A → Tx BidTables A
debit_or_translate m db = elim (m db) [ ok r ↦ ok r | err e ↦ err (as_bid_wallet_error e) ]

-- "auction", " bid(s)" and "bid_fee:"
abbrev auction_text : Text
auction_text = 97 ∷ 117 ∷ 99 ∷ 116 ∷ 105 ∷ 111 ∷ 110 ∷ []

abbrev bids_text : Text
bids_text = 32 ∷ 98 ∷ 105 ∷ 100 ∷ 40 ∷ 115 ∷ 41 ∷ []

abbrev bid_scope_prefix : Text
bid_scope_prefix = 98 ∷ 105 ∷ 100 ∷ 95 ∷ 102 ∷ 101 ∷ 101 ∷ 58 ∷ []

abbrev pub fee_request : (ℕ → Text) → AuctionRecord → SubmitBidsInput → ℕ → ℕ → MovementRequest
fee_request show a i count fee = record {
  user_id = i.user_id;
  amount_minor = pos fee;
  currency = some a.currency;
  reference_type = some auction_text;
  reference_id = some a.id;
  memo = some (show count ++ bids_text);
  idempotency_key = some (bid_scope_prefix ++ i.idempotency_key);
  actor_user_id = some i.user_id;
  channel = i.channel;
}

-- `chargeFee`: the balance after it.
unfoldable pub charge_fee :
    (ℕ → Text) → AuctionRecord → SubmitBidsInput → List BidRecord → ℕ → Tx BidTables ℤ
charge_fee show a i bids zero = do
  wallet ← on_wallet (get_wallet i.wallet_id i.user_id a.currency)
  pure wallet.available_minor
charge_fee show a i bids (suc n) = do
  movement ←
      debit_or_translate (
        on_wallet
          (move i.wallet_id i.entry_id bid_fee (fee_request show a i (length bids) (suc n))))
  attach_wallet_entry bids movement.entry_id
  pure movement.balance_after_minor

-- The outcome of a batch that was placed: `p` as counted after it, and the auction's totals.
abbrev pub placed :
    AuctionRecord
    → SubmitBidsInput
    → List BidRecord
    → ℕ
    → ℤ
    → ParticipantRecord
    → ℕ × ℕ
    → SubmitBidsOutcome
placed a i bids fee balance p totals = record {
  auction_id = a.id;
  bids = bids;
  total_fee_minor = fee;
  currency = a.currency;
  bid_count = p.bid_count;
  bids_remaining = a.max_bids_per_user - p.bid_count;
  wallet_balance_minor = balance;
  replayed = false;
  submitted_at = i.clock;
  auction_totals = totals;
}

abbrev audit : ℕ → ℕ → Tx BidTables (Unit {0})
audit auction_id user_id = modify (λ db. record db { audit = (auction_id, user_id) ∷ db.audit })

-- Steps 8 to 11 of `submitBids`: the batch, the fee, the counters and the audit row.
unfoldable pub book_batch :
    (ℕ → Text)
    → AuctionRecord
    → SubmitBidsInput
    → List ℕ
    → ParticipantRecord
    → Bool
    → Tx BidTables SubmitBidsOutcome
book_batch show a i amounts p inserted = do
  bids ← insert_batch a i amounts
  balance ← charge_fee show a i bids (total_fee a.bid_fee_minor (length bids))
  updated ← add_participant_bids p.id (length bids) (total_fee a.bid_fee_minor (length bids)) i.now
  totals ← add_bid_counters a.id (length bids) (if inserted then 1 else 0)
  audit a.id i.user_id
  pure (placed a i bids (total_fee a.bid_fee_minor (length bids)) balance updated totals)

abbrev refuse_held : List ℕ → Tx BidTables (Unit {0})
refuse_held [] = pure tt
refuse_held (x ∷ xs) = throw (duplicate_amount (x ∷ xs))

-- Steps 6 to 11: the limit and the courtesy read first.
unfoldable pub place_for :
    (ℕ → Text)
    → AuctionRecord
    → SubmitBidsInput
    → List ℕ
    → ParticipantRecord × Bool
    → Tx BidTables SubmitBidsOutcome
place_for show a i amounts (p, inserted) = do
  throw_if (ltb a.max_bids_per_user (p.bid_count + length amounts)) bid_limit_exceeded
  held ← gets (find_existing_amounts a.id i.user_id amounts)
  refuse_held held
  book_batch show a i amounts p inserted

-- Steps 2 to 11, for a key that was claimed.
unfoldable pub accept_bids :
    (ℕ → Text) → AuctionRecord → SubmitBidsInput → List ℕ → Tx BidTables SubmitBidsOutcome
accept_bids show auction i amounts = do
  a ← or_throw not_found (← gets (λ db. find_auction auction.id db.auctions.auctions))
  assert_accepting_bids a i.clock
  check (assert_amounts_allowed amounts (terms_of a))
  assert_deliverable a
  place_for show a i amounts
      (← lock_or_create_participant i.participant_id a.id i.user_id i.channel)

-- `snapshotOf`
abbrev pub snapshot_of : SubmitBidsOutcome → BidResponseSnapshot
snapshot_of r = record {
  bid_ids = map (λ (b : BidRecord). b.id) r.bids;
  total_fee_minor = r.total_fee_minor;
  bid_count = r.bid_count;
  bids_remaining = r.bids_remaining;
  wallet_balance_minor = r.wallet_balance_minor;
  submitted_at = r.submitted_at;
  total_bids = r.auction_totals.0;
  total_participants = r.auction_totals.1;
}

-- `replayOutcome`
abbrev pub replay_outcome :
    BidResponseSnapshot → AuctionRecord → SubmitBidsInput → BidTables → SubmitBidsOutcome
replay_outcome s auction i db = record {
  auction_id = auction.id;
  bids = find_bids_by_idempotency_key auction.id i.user_id i.idempotency_key db;
  total_fee_minor = s.total_fee_minor;
  currency = auction.currency;
  bid_count = s.bid_count;
  bids_remaining = s.bids_remaining;
  wallet_balance_minor = s.wallet_balance_minor;
  replayed = true;
  submitted_at = s.submitted_at;
  auction_totals = (s.total_bids, s.total_participants);
}

-- All tables of a submission.
pub record BidDb : Type 0 where
  pub keys : List KeyRow
  pub tables : BidTables

-- Step 12 follows the rest where the key was claimed.
unfoldable pub answer_claim :
    (ℕ → Text) → AuctionRecord → SubmitBidsInput → List ℕ → Claim → Tx BidDb SubmitBidsOutcome
answer_claim show auction i amounts (replay snapshot) db =
    ok (replay_outcome snapshot auction i db.tables, db)
answer_claim show auction i amounts (claimed id) db =
    elim (accept_bids show auction i amounts db.tables) [
      | err e ↦ err e
      | ok (r, tables) ↦
          ok (r, record { keys = complete_key id (snapshot_of r) db.keys; tables = tables })
    ]

-- The transaction of `submitBids`, for the auction that was found and the amounts that were parsed.
unfoldable pub place_bids :
    (ℕ → ℕ → List ℕ → Text)
    → (ℕ → Text)
    → AuctionRecord
    → SubmitBidsInput
    → List ℕ
    → Tx BidDb SubmitBidsOutcome
place_bids hash show auction i amounts db =
    elim (claim_key i.key_id i.idempotency_key i.user_id
      (bid_request_hash hash auction.id i.user_id amounts) db.keys) [
        | err e ↦ err e
        | ok (claim, keys) ↦ answer_claim show auction i amounts claim (record db { keys = keys })
      ]

-- `submitBids`: the checks before the transaction, and the transaction. `within_limits` is the answer
-- of the rate limiter.
unfoldable pub submit_bids :
    (ℕ → ℕ → List ℕ → Text)
    → (ℕ → Text)
    → Bidder
    → Bool
    → Option AuctionRecord
    → SubmitBidsInput
    → Tx BidDb SubmitBidsOutcome
submit_bids hash show bidder within_limits found i = do
  amounts ← check (parse_amounts i.amounts_minor)
  check (assert_no_repeats amounts)
  assert_bidder_eligible bidder
  auction ← or_throw not_found found
  assert_live auction
  check (assert_amounts_allowed amounts (terms_of auction))
  throw_if (not within_limits) rate_limited
  place_bids hash show auction i amounts
