-- ===== src/Results/Repository.antt =====
-- The statements of apps/api/src/modules/results/resultsRepository.ts, with the CHECKs of the table
-- `auction_results` (migrations/0005_auctions.sql, migrations/0014_results.sql).
use howlow.Prelude.{
  ℕ, zero, suc, Bool, true, false, Option, none, some, Text, List, [], ◌∷◌, ◌==◌, ◌&&◌, ltb, leb,
  not, is_some, text_eq, if◌then◌else◌, rows_where, first_where,
}
use howlow.Prelude.Int.{ℤ}
use howlow.Errors.{check_violation, ok, err, Tx}
use howlow.Auctions.Transitions.{AuctionStatus, closing, calculating}
use howlow.Auctions.Transitions
use howlow.Auctions.Rows.{AuctionRecord}
use howlow.Wallet.Repository.{sum_amounts}
use howlow.Wallet.Rows.{WalletEntryRecord, bid_fee_refund, entry_type_code}
use howlow.Bidding.Tables.{ParticipantRecord, find_participant}
use howlow.Results.Rows.{
  AuctionOutcome, winner, no_unique_bid, no_bids, cancelled, ResultRecord, ResultDb, find_result,
}

pub record InsertResultInput : Type 0 where
  pub auction_id : ℕ
  pub outcome : AuctionOutcome
  pub winning_bid_id : Option ℕ
  pub winner_user_id : Option ℕ
  pub winning_amount_minor : Option ℕ
  pub total_bids : ℕ
  pub total_valid_bids : ℕ
  pub unique_amount_count : ℕ
  pub participant_count : ℕ
  pub frozen_bid_checksum : Text

-- What `gen_random_uuid()` and `now()` give the new row.
pub record ResultSeed : Type 0 where
  pub id : ℕ
  pub computed_at : ℕ

abbrev pub new_result : ResultSeed → InsertResultInput → ResultRecord
new_result seed i = record {
  id = seed.id;
  auction_id = i.auction_id;
  outcome = i.outcome;
  winning_bid_id = i.winning_bid_id;
  winner_user_id = i.winner_user_id;
  winning_amount_minor = i.winning_amount_minor;
  total_bids = i.total_bids;
  total_valid_bids = i.total_valid_bids;
  unique_amount_count = i.unique_amount_count;
  participant_count = i.participant_count;
  frozen_bid_checksum = i.frozen_bid_checksum;
  computed_at = seed.computed_at;
}

-- The CHECKs that read the outcome: `winner_matches_outcome`, `no_bids_has_no_bids` and
-- `no_unique_had_bids`.
unfoldable pub outcome_fits : InsertResultInput → Bool
outcome_fits i = elim i.outcome [
  | winner ↦ is_some i.winning_bid_id
  | no_unique_bid ↦
      not (is_some i.winning_bid_id) && (ltb 0 i.total_valid_bids && i.unique_amount_count == 0)
  | no_bids ↦
      not (is_some i.winning_bid_id) && (i.total_valid_bids == 0 && i.unique_amount_count == 0)
  | cancelled ↦ not (is_some i.winning_bid_id)
]

-- The others: `valid_within_total`, `unique_within_valid`, `winning_amount_positive` and
-- `winner_complete`.
unfoldable pub counts_fit : InsertResultInput → Bool
counts_fit i = leb i.total_valid_bids i.total_bids && leb i.unique_amount_count i.total_valid_bids

abbrev pub both : Bool → Bool → Bool
both a b = if a then b else not b

unfoldable pub winner_fits : InsertResultInput → Bool
winner_fits i =
    elim i.winning_amount_minor [ none ↦ true | some amount ↦ ltb 0 amount ]
    && (both (is_some i.winning_bid_id) (is_some i.winner_user_id)
        && both (is_some i.winning_bid_id) (is_some i.winning_amount_minor))

abbrev pub passes_checks : InsertResultInput → Bool
passes_checks i = outcome_fits i && (counts_fit i && winner_fits i)

-- `insertResult`: the row, and whether it was inserted. A row that a CHECK refuses raises before the
-- conflict on `auction_id` is looked for.
unfoldable pub insert_result : ResultSeed → InsertResultInput → Tx ResultDb (ResultRecord × Bool)
insert_result seed i db =
    if passes_checks i
    then elim (find_result i.auction_id db.results) [
      | some existing ↦ ok ((existing, false), db)
      | none ↦
          ok ((new_result seed i, true), record db { results = new_result seed i ∷ db.results })
    ]
    else err check_violation

-- `ParticipantFees`
pub record ParticipantFees : Type 0 where
  pub user_id : ℕ
  pub bid_count : ℕ
  pub total_fees_minor : ℕ

abbrev pub to_fees : ParticipantRecord → ParticipantFees
to_fees p = record {
  user_id = p.user_id;
  bid_count = p.bid_count;
  total_fees_minor = p.total_fees_minor;
}

-- ORDER BY user_id
unfoldable pub insert_by_user : ParticipantFees → List ParticipantFees → List ParticipantFees
insert_by_user p [] = p ∷ []
insert_by_user p (x ∷ xs) =
    let rest = insert_by_user p xs in if leb p.user_id x.user_id then p ∷ x ∷ xs else x ∷ rest

unfoldable pub sort_by_user : List ParticipantRecord → List ParticipantFees
sort_by_user [] = []
sort_by_user (p ∷ ps) = insert_by_user (to_fees p) (sort_by_user ps)

abbrev pub paid_fee : ℕ → ParticipantRecord → Bool
paid_fee auction_id p = p.auction_id == auction_id && ltb 0 p.total_fees_minor

-- `listFeePayers`
unfoldable pub list_fee_payers : ℕ → List ParticipantRecord → List ParticipantFees
list_fee_payers auction_id participants =
    sort_by_user (rows_where (paid_fee auction_id) participants)

-- `findParticipation`
abbrev pub find_participation : ℕ → ℕ → ResultDb → Option ParticipantFees
find_participation auction_id user_id db = elim (find_participant auction_id user_id db.tables) [
  | none ↦ none
  | some p ↦ some (to_fees p)
]

-- The text 'auction' of `reference_type`.
abbrev pub auction_reference : Text
auction_reference = 97 ∷ 117 ∷ 99 ∷ 116 ∷ 105 ∷ 111 ∷ 110 ∷ []

abbrev pub refers_to : ℕ → WalletEntryRecord → Bool
refers_to auction_id e = elim e.reference_type [
  | none ↦ false
  | some t ↦
      text_eq t auction_reference
      && elim e.reference_id [ none ↦ false | some id ↦ id == auction_id ]
]

-- The WHERE of `sumRefunded`, and of the inner query of `findAuctionsWithUnpaidRefunds`.
abbrev pub is_fee_refund : ℕ → ℕ → WalletEntryRecord → Bool
is_fee_refund auction_id user_id e =
    e.user_id == user_id
    && (entry_type_code e.type == entry_type_code bid_fee_refund && refers_to auction_id e)

-- `sumRefunded`
unfoldable pub sum_refunded : ℕ → ℕ → ResultDb → ℤ
sum_refunded auction_id user_id db =
    sum_amounts (rows_where (is_fee_refund auction_id user_id) db.tables.wallet.entries)

abbrev pub owes_refunds : AuctionOutcome → Bool
owes_refunds no_unique_bid = true
owes_refunds cancelled = true
owes_refunds _ = false

-- A participant of the auction who paid, and whose fees have not come back.
abbrev pub is_unpaid : ℕ → List WalletEntryRecord → ParticipantRecord → Bool
is_unpaid auction_id entries p =
    paid_fee auction_id p
    && not (is_some (first_where (is_fee_refund auction_id p.user_id) entries))

abbrev pub has_unpaid_refunds : ResultDb → ResultRecord → Bool
has_unpaid_refunds db r =
    owes_refunds r.outcome
    && is_some
        (first_where (is_unpaid r.auction_id db.tables.wallet.entries) db.tables.participants)

unfoldable pub insert_by_time : ResultRecord → List ResultRecord → List ResultRecord
insert_by_time r [] = r ∷ []
insert_by_time r (x ∷ xs) =
    let rest = insert_by_time r xs in
    if leb r.computed_at x.computed_at then r ∷ x ∷ xs else x ∷ rest

-- ORDER BY computed_at ASC
unfoldable pub sort_by_time : List ResultRecord → List ResultRecord
sort_by_time [] = []
sort_by_time (r ∷ rs) = insert_by_time r (sort_by_time rs)

-- LIMIT $1, and `rows.map((row) => row.auction_id)`.
unfoldable pub first_ids : ℕ → List ResultRecord → List ℕ
first_ids zero rs = []
first_ids (suc n) [] = []
first_ids (suc n) (r ∷ rs) = r.auction_id ∷ first_ids n rs

-- `findAuctionsWithUnpaidRefunds`
unfoldable pub find_auctions_with_unpaid_refunds : ℕ → ResultDb → List ℕ
find_auctions_with_unpaid_refunds limit db =
    first_ids limit (sort_by_time (rows_where (has_unpaid_refunds db) db.results))

abbrev pub awaits_by_status : ResultDb → AuctionRecord → Bool
awaits_by_status db a = elim a.status [
  | closing ↦ true
  | calculating ↦ true
  | Transitions.cancelled ↦
      is_some (first_where (λ (p : ParticipantRecord). p.auction_id == a.id) db.tables.participants)
  | _ ↦ false
]

-- The WHERE of `findAuctionsAwaitingResult`.
abbrev pub awaits_result : ResultDb → AuctionRecord → Bool
awaits_result db a = awaits_by_status db a && not (is_some (find_result a.id db.results))
