-- ===== src/Results/Verify.antt =====
-- `verifyResult` of apps/api/src/modules/results/resultService.ts: a published result against a
-- recomputation from the bids.
pub mod Published
pub mod Frozen
use howlow.Prelude.{
  ℕ, Bool, true, false, Option, none, some, Text, text_eq, List, [], ◌∷◌, ◌++◌, ◌==◌, if◌then◌else◌,
}
use howlow.Errors.{result_not_found, Result, ok, err}
use howlow.Bidding.Rows.{BidRecord}
use howlow.Results.Lub.{LubWinner, FrozenStatistics, count_frozen_bids, calculate_lub_v1}
use howlow.Results.Checksum.{Postgres, checksum_frozen_bids}
use howlow.Results.Rows.{
  AuctionOutcome, winner, no_unique_bid, no_bids, cancelled, ResultRecord, ResultDb, find_result,
}
use howlow.Results.Close.{field_of}

-- A line of `mismatches`. The one about the algorithm cannot occur: the column has one value.
pub data Mismatch : Type 0 where
  checksum winning_bid winning_amount total_bids_line total_valid_bids_line : Mismatch
  participant_count_line unique_amount_count_line : Mismatch

pub record VerificationReport : Type 0 where
  pub auction_id : ℕ
  pub is_ok : Bool
  pub stored_checksum : Text
  pub recomputed_checksum : Text
  pub stored_winning_bid_id : Option ℕ
  pub recomputed_winning_bid_id : Option ℕ
  pub stored_winning_amount_minor : Option ℕ
  pub recomputed_winning_amount_minor : Option ℕ
  pub stored_statistics : FrozenStatistics
  pub recomputed_statistics : FrozenStatistics
  pub mismatches : List Mismatch

-- `===` on values that may be null.
abbrev pub same_option : Option ℕ → Option ℕ → Bool
same_option none none = true
same_option none (some b) = false
same_option (some a) none = false
same_option (some a) (some b) = a == b

abbrev pub line_if : Bool → Mismatch → List Mismatch
line_if true m = []
line_if false m = m ∷ []

-- The winner that the bids have now; none is looked for where the stored outcome is a cancellation.
abbrev pub recomputed_winner : ResultRecord → List BidRecord → Option LubWinner
recomputed_winner stored bids = elim stored.outcome [
  | cancelled ↦ none
  | _ ↦ calculate_lub_v1 stored.auction_id bids
]

abbrev pub stored_statistics_of : ResultRecord → FrozenStatistics
stored_statistics_of r = record {
  total_bids = r.total_bids;
  total_valid_bids = r.total_valid_bids;
  participant_count = r.participant_count;
  unique_amount_count = r.unique_amount_count;
}

abbrev pub statistics_lines : FrozenStatistics → FrozenStatistics → List Mismatch
statistics_lines s r =
    line_if (s.total_bids == r.total_bids) total_bids_line
    ++ (line_if (s.total_valid_bids == r.total_valid_bids) total_valid_bids_line
        ++ (line_if (s.participant_count == r.participant_count) participant_count_line
            ++ line_if (s.unique_amount_count == r.unique_amount_count) unique_amount_count_line))

abbrev pub mismatches_of : Postgres → ResultRecord → List BidRecord → List Mismatch
mismatches_of pg r bids =
    let w = recomputed_winner r bids in
    line_if (text_eq r.frozen_bid_checksum (checksum_frozen_bids pg r.auction_id bids)) checksum
    ++ (line_if (same_option (field_of (λ x. x.bid_id) w) r.winning_bid_id) winning_bid
        ++ (line_if (same_option (field_of (λ x. x.amount_minor) w) r.winning_amount_minor)
              winning_amount
            ++ statistics_lines (stored_statistics_of r) (count_frozen_bids r.auction_id bids)))

abbrev pub is_empty : List Mismatch → Bool
is_empty [] = true
is_empty (m ∷ ms) = false

-- The report on a row; the row's `auction_id` is the id that it was found by.
abbrev pub report_on : Postgres → ResultRecord → List BidRecord → VerificationReport
report_on pg r bids = record {
  auction_id = r.auction_id;
  is_ok = is_empty (mismatches_of pg r bids);
  stored_checksum = r.frozen_bid_checksum;
  recomputed_checksum = checksum_frozen_bids pg r.auction_id bids;
  stored_winning_bid_id = r.winning_bid_id;
  recomputed_winning_bid_id = field_of (λ x. x.bid_id) (recomputed_winner r bids);
  stored_winning_amount_minor = r.winning_amount_minor;
  recomputed_winning_amount_minor = field_of (λ x. x.amount_minor) (recomputed_winner r bids);
  stored_statistics = stored_statistics_of r;
  recomputed_statistics = count_frozen_bids r.auction_id bids;
  mismatches = mismatches_of pg r bids;
}

-- `verifyResult`
unfoldable pub verify_result : Postgres → ℕ → ResultDb → Result VerificationReport
verify_result pg auction_id db = elim (find_result auction_id db.results) [
  | none ↦ err result_not_found
  | some stored ↦ ok (report_on pg stored db.tables.bids)
]
