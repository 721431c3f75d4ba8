-- ===== src/Results/Lub/Tests.antt =====
-- LUB_V1 on a small auction: five bids that take part, one that was voided and one of another auction.
use mathlib.Core.List.Perm
use howlow.Prelude.{ℕ, ◌≡◌, refl, List, [], ◌∷◌, none, some}
use howlow.Shared.{Channel, web, telegram}
use howlow.Bidding.Rows.{BidRecord, BidStatus, valid, void}
use howlow.Results.Lub.{LubWinner, calculate_lub_v1, amount_distribution}
use howlow.Results.Lub.Winner.{IsLub, calculate_lub_v1-IsLub, IsLub-calculate_lub_v1}
use howlow.Results.Lub.Order.{calculate_lub_v1-perm}

abbrev bid_at : ℕ → ℕ → ℕ → ℕ → BidStatus → Channel → BidRecord
bid_at id auction user amount status channel = record {
  id = id;
  auction_id = auction;
  user_id = user;
  amount_minor = amount;
  fee_minor = 10;
  status = status;
  channel = channel;
  idempotency_key = none;
  wallet_entry_id = none;
  request_id = none;
  created_at = 0;
  voided_at = none;
}

abbrev bids : List BidRecord
bids =
    bid_at 1 7 21 100 valid web
    ∷ bid_at 2 7 22 100 valid telegram
    ∷ bid_at 3 7 21 300 valid web
    ∷ bid_at 4 7 23 200 valid telegram
    ∷ bid_at 5 7 24 50 void web
    ∷ bid_at 6 8 24 10 valid web
    ∷ bid_at 7 7 22 300 valid web
    ∷ []

abbrev winner : LubWinner
winner = record { bid_id = 4; user_id = 23; amount_minor = 200 }

lub_of_bids : calculate_lub_v1 7 bids ≡ some winner
unfolding calculate_lub_v1
lub_of_bids = refl

distribution_of_bids :
    amount_distribution 7 bids
    ≡ record { amount_minor = 100; bidders = 2 }
      ∷ record { amount_minor = 200; bidders = 1 }
      ∷ record { amount_minor = 300; bidders = 2 }
      ∷ []
unfolding amount_distribution
distribution_of_bids = refl

calculate_lub_v1-IsLub_example : IsLub 7 bids winner
calculate_lub_v1-IsLub_example = calculate_lub_v1-IsLub 7 bids winner lub_of_bids

IsLub-calculate_lub_v1_example : calculate_lub_v1 7 bids ≡ some winner
IsLub-calculate_lub_v1_example = IsLub-calculate_lub_v1 7 bids winner calculate_lub_v1-IsLub_example

abbrev swapped : List BidRecord
swapped =
    bid_at 2 7 22 100 valid telegram
    ∷ bid_at 1 7 21 100 valid web
    ∷ bid_at 3 7 21 300 valid web
    ∷ []

abbrev straight : List BidRecord
straight =
    bid_at 1 7 21 100 valid web
    ∷ bid_at 2 7 22 100 valid telegram
    ∷ bid_at 3 7 21 300 valid web
    ∷ []

calculate_lub_v1-perm_example : calculate_lub_v1 7 straight ≡ calculate_lub_v1 7 swapped
calculate_lub_v1-perm_example = calculate_lub_v1-perm 7 straight swapped (Perm.swap _ _ _)
