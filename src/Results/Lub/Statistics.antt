-- ===== src/Results/Lub/Statistics.antt =====
-- The statistics that are frozen with a result, against the winner that is decided from the same rows.
use howlow.Prelude.{
  ℕ, ◌≤◌, ◌+◌, ◌≡◌, refl, ◌↔◌, List, [], ◌∷◌, inl, inr, none, ◌==◌, arith, ◌&&◌, Option-cases,
  count_where, rows_where, first_where, length, length-rows_where,
}
use howlow.Bidding.Rows.{BidRecord, takes_part}
use howlow.Results.Lub.{
  AmountGroup, calculate_lub_v1, lowest_unique, stands_alone, amount_distribution,
  count_frozen_bids, count_distinct_users, add_to_groups, group_by_amount,
}
use howlow.Results.Lub.Winner.{calculate_lub_v1-none, lowest_unique-none, lowest_unique-alone}

none_of_count :
    (gs : List AmountGroup) → count_where stands_alone gs ≡ 0 → first_where stands_alone gs ≡ none
unfolding count_where first_where
none_of_count [] h = refl
none_of_count (g ∷ gs) h = ground (arith, none_of_count gs)

count_of_none :
    (gs : List AmountGroup) → first_where stands_alone gs ≡ none → count_where stands_alone gs ≡ 0
unfolding count_where first_where
count_of_none [] h = refl
count_of_none (g ∷ gs) h = ground (arith, count_of_none gs)

-- `uniqueAmountCount` is zero exactly when nobody won.
pub unique_amount_count-zero :
    (auction_id : ℕ) (bids : List BidRecord)
    → ((count_frozen_bids auction_id bids).unique_amount_count ≡ 0)
      ↔ (calculate_lub_v1 auction_id bids ≡ none)
unfolding count_frozen_bids lowest_unique
unique_amount_count-zero auction_id bids =
    let gs = amount_distribution auction_id bids in
    (
      λ h.
          (calculate_lub_v1-none auction_id bids).1
            (lowest_unique-none auction_id bids (none_of_count gs h)),
      λ h. count_of_none gs (lowest_none h),
    )
  where
    lowest_none : calculate_lub_v1 auction_id bids ≡ none → lowest_unique auction_id bids ≡ none
    lowest_none h = elim (Option-cases (lowest_unique auction_id bids)) [
      | inl e ↦ e
      | inr (g, e) ↦ absurd (
          (calculate_lub_v1-none auction_id bids).0 h g.amount_minor
            (lowest_unique-alone auction_id bids g e).0)
    ]

count_distinct_users-le : (bs : List BidRecord) → count_distinct_users bs ≤ length bs
unfolding count_distinct_users
count_distinct_users-le [] = omega arith
count_distinct_users-le (b ∷ bs) = ground (arith, count_distinct_users-le bs)

count_alone-add :
    (amount : ℕ) (gs : List AmountGroup)
    → count_where stands_alone (add_to_groups amount gs) ≤ count_where stands_alone gs + 1
unfolding count_where add_to_groups
count_alone-add amount [] = omega arith
count_alone-add amount (g ∷ gs) = ground (arith, count_alone-add amount gs)

count_alone-le : (bs : List BidRecord) → count_where stands_alone (group_by_amount bs) ≤ length bs
unfolding group_by_amount count_where
count_alone-le [] = omega arith
count_alone-le (b ∷ bs) =
    omega (arith, count_alone-le bs, count_alone-add b.amount_minor (group_by_amount bs))

count_where-and :
    (p q : BidRecord → _) (bs : List BidRecord)
    → count_where (λ b. p b && q b) bs ≤ count_where p bs
unfolding count_where
count_where-and p q [] = omega arith
count_where-and p q (b ∷ bs) = ground (arith, count_where-and p q bs)

-- The counts nest: bidders and lonely amounts are no more than the bids that take part, and those no
-- more than all bids of the auction.
pub count_frozen_bids-nested :
    (auction_id : ℕ) (bids : List BidRecord)
    → let s = count_frozen_bids auction_id bids in
      (s.participant_count ≤ s.total_valid_bids)
      × (s.unique_amount_count ≤ s.total_valid_bids)
      × (s.total_valid_bids ≤ s.total_bids)
unfolding count_frozen_bids amount_distribution
count_frozen_bids-nested auction_id bids =
    let valid = rows_where (takes_part auction_id) bids in
    (
      omega (arith, count_distinct_users-le valid, length-rows_where (takes_part auction_id) bids),
      omega (arith, count_alone-le valid, length-rows_where (takes_part auction_id) bids),
      count_where-and (λ b. b.auction_id == auction_id) _ bids,
    )
