-- ===== src/Results/Lub.antt =====
-- LUB_V1 (apps/api/src/modules/results/lubCalculator.ts): each clause of the SQL is a function over the
-- rows of `bids`, and the query composes them in the order of its text.
pub mod Groups
pub mod Winner
pub mod Statistics
pub mod Order
mod Tests
use howlow.Prelude.{
  ℕ, ◌+◌, Bool, List, [], ◌∷◌, map, Option, none, some, ◌==◌, ◌&&◌, ◌||◌, ltb, if◌then◌else◌,
  length, not, false, rows_where, first_where, count_where,
}
use howlow.Bidding.Rows.{BidRecord, takes_part}

pub record LubWinner : Type 0 where
  pub bid_id : ℕ
  pub user_id : ℕ
  pub amount_minor : ℕ

-- An amount and the number of bids at it.
pub record AmountGroup : Type 0 where
  pub amount_minor : ℕ
  pub bidders : ℕ

-- One more bid at `amount`, among groups in ascending order.
unfoldable pub add_to_groups : ℕ → List AmountGroup → List AmountGroup
add_to_groups amount [] = record { amount_minor = amount; bidders = 1 } ∷ []
add_to_groups amount (g ∷ gs) =
    let later = g ∷ add_to_groups amount gs in
    if ltb amount g.amount_minor
    then record { amount_minor = amount; bidders = 1 } ∷ g ∷ gs
    else if amount == g.amount_minor
    then record g { bidders = g.bidders + 1 } ∷ gs
    else later

-- `GROUP BY amount_minor ORDER BY amount_minor ASC`
unfoldable pub group_by_amount : List BidRecord → List AmountGroup
unfolding add_to_groups
group_by_amount [] = []
group_by_amount (b ∷ bs) = add_to_groups b.amount_minor (group_by_amount bs)

-- `amountDistribution`
unfoldable pub amount_distribution : ℕ → List BidRecord → List AmountGroup
unfolding group_by_amount rows_where
amount_distribution auction_id bids = group_by_amount (rows_where (takes_part auction_id) bids)

-- `HAVING count(*) = 1`
abbrev pub stands_alone : AmountGroup → Bool
stands_alone g = g.bidders == 1

-- The CTE `lowest_unique`: `HAVING count(*) = 1 ORDER BY amount_minor ASC LIMIT 1`
unfoldable pub lowest_unique : ℕ → List BidRecord → Option AmountGroup
unfolding amount_distribution first_where
lowest_unique auction_id bids = first_where stands_alone (amount_distribution auction_id bids)

abbrev pub to_winner : BidRecord → LubWinner
to_winner b = record { bid_id = b.id; user_id = b.user_id; amount_minor = b.amount_minor }

-- The outer join, and `rows[0]`.
abbrev pub join_on_amount : ℕ → ℕ → List BidRecord → Option BidRecord
join_on_amount auction_id amount =
    first_where (λ b. takes_part auction_id b && b.amount_minor == amount)

abbrev pub winner_row : ℕ → List BidRecord → Option AmountGroup → Option LubWinner
winner_row auction_id bids none = none
winner_row auction_id bids (some g) = elim (join_on_amount auction_id g.amount_minor bids) [
  | none ↦ none
  | some b ↦ some (to_winner b)
]

-- `calculateLubV1`
unfoldable pub calculate_lub_v1 : ℕ → List BidRecord → Option LubWinner
unfolding lowest_unique first_where
calculate_lub_v1 auction_id bids = winner_row auction_id bids (lowest_unique auction_id bids)

pub record FrozenStatistics : Type 0 where
  pub total_bids : ℕ
  pub total_valid_bids : ℕ
  pub participant_count : ℕ
  pub unique_amount_count : ℕ

abbrev pub has_user : ℕ → List BidRecord → Bool
has_user user_id [] = false
has_user user_id (b ∷ bs) = b.user_id == user_id || has_user user_id bs

-- `count(DISTINCT user_id)`: a bidder is counted at the last of their rows.
unfoldable pub count_distinct_users : List BidRecord → ℕ
count_distinct_users [] = 0
count_distinct_users (b ∷ bs) = (if has_user b.user_id bs then 0 else 1) + count_distinct_users bs

-- `countFrozenBids`
unfoldable pub count_frozen_bids : ℕ → List BidRecord → FrozenStatistics
unfolding count_where rows_where count_distinct_users amount_distribution
count_frozen_bids auction_id bids = record {
  total_bids = count_where (λ b. b.auction_id == auction_id) bids;
  total_valid_bids = count_where (takes_part auction_id) bids;
  participant_count = count_distinct_users (rows_where (takes_part auction_id) bids);
  unique_amount_count = count_where stands_alone (amount_distribution auction_id bids);
}
