-- ===== src/Results/Lub/Winner.antt =====
-- The winner of LUB_V1, by the counts of the bids at each amount.
use howlow.Prelude.{
  ℕ, ◌<◌, ◌≡◌, ◌≢◌, ◌↔◌, List, inl, inr, none, some, ◌==◌, arith, ◌&&◌, sym, ◌∙◌, subst,
  count_where, Option-cases, first_of_count, count_of_first, first_where_holds, rows_where,
}
use howlow.Bidding.Rows.{BidRecord, takes_part}
use howlow.Results.Lub.{
  AmountGroup, LubWinner, group_by_amount, amount_distribution, lowest_unique, calculate_lub_v1,
  join_on_amount, to_winner,
}
use howlow.Results.Lub.Groups.{
  bidders_at, group_by_amount-Ascending, group_count-distribution, first_alone, no_first_alone,
}

-- What README.md promises of the winner: it stands at the lowest amount that exactly one bid of those
-- that take part was placed at, and it is that bid.
pub record IsLub (auction_id : ℕ) (bids : List BidRecord) (w : LubWinner) : Type 0 where
  pub alone : bidders_at auction_id bids w.amount_minor ≡ 1
  pub lowest : (m : ℕ) → m < w.amount_minor → bidders_at auction_id bids m ≢ 1
  pub placed :
      count_where
        (λ b.
          (takes_part auction_id b && b.amount_minor == w.amount_minor)
          && (b.id == w.bid_id && b.user_id == w.user_id))
        bids
      ≡ 1

pub lowest_unique-alone :
    (auction_id : ℕ) (bids : List BidRecord) (g : AmountGroup)
    → lowest_unique auction_id bids ≡ some g
    → (bidders_at auction_id bids g.amount_minor ≡ 1)
      × ((m : ℕ) → m < g.amount_minor → bidders_at auction_id bids m ≢ 1)
unfolding lowest_unique amount_distribution
lowest_unique-alone auction_id bids g e =
    let rows = rows_where (takes_part auction_id) bids in
    let f = first_alone 0 (group_by_amount rows) g (group_by_amount-Ascending rows) e in
    (
      sym (group_count-distribution auction_id g.amount_minor bids) ∙ f.0,
      λ m h. rw (← group_count-distribution auction_id m bids) (f.2 m h),
    )

pub lowest_unique-none :
    (auction_id : ℕ) (bids : List BidRecord)
    → lowest_unique auction_id bids ≡ none
    → (m : ℕ) → bidders_at auction_id bids m ≢ 1
unfolding lowest_unique
lowest_unique-none auction_id bids e m =
    rw (← group_count-distribution auction_id m bids)
      (no_first_alone (amount_distribution auction_id bids) e m)

-- The amount that stands alone and has no lower one beside it is the one that the query finds.
lowest_unique_complete :
    (auction_id : ℕ) (bids : List BidRecord) (m : ℕ)
    → bidders_at auction_id bids m ≡ 1
    → ((k : ℕ) → k < m → bidders_at auction_id bids k ≢ 1)
    → (g : AmountGroup) × (lowest_unique auction_id bids ≡ some g) × (g.amount_minor ≡ m)
lowest_unique_complete auction_id bids m one low =
    elim (Option-cases (lowest_unique auction_id bids)) [
      | inl e ↦ absurd (lowest_unique-none auction_id bids e m one)
      | inr (g, e) ↦
          let f = lowest_unique-alone auction_id bids g e in
          (g, e, grind (arith, low g.amount_minor, f.0, f.1 m))
    ]

-- The outer join finds a row at a lonely amount, and the row is at that amount.
join_row :
    (auction_id amount : ℕ) (bids : List BidRecord)
    → bidders_at auction_id bids amount ≡ 1
    → (b : BidRecord) × (join_on_amount auction_id amount bids ≡ some b) × (b.amount_minor ≡ amount)
unfolding bidders_at
join_row auction_id amount bids one =
    let p = λ (b : BidRecord). takes_part auction_id b && b.amount_minor == amount in
    let (b, e) = first_of_count p bids (omega arith) in
    (b, e, ground (arith, first_where_holds p bids b e))

-- The query's answer, once both of its parts are known.
calculate_row :
    (auction_id : ℕ) (bids : List BidRecord) (g : AmountGroup) (b : BidRecord)
    → lowest_unique auction_id bids ≡ some g
    → join_on_amount auction_id g.amount_minor bids ≡ some b
    → calculate_lub_v1 auction_id bids ≡ some (to_winner b)
unfolding calculate_lub_v1
calculate_row auction_id bids g b e j = ground arith

row-IsLub :
    (auction_id : ℕ) (bids : List BidRecord) (g : AmountGroup) (b : BidRecord)
    → lowest_unique auction_id bids ≡ some g
    → join_on_amount auction_id g.amount_minor bids ≡ some b
    → b.amount_minor ≡ g.amount_minor
    → IsLub auction_id bids (to_winner b)
unfolding bidders_at
row-IsLub auction_id bids g b e j same =
    let f = lowest_unique-alone auction_id bids g e in
    let p = λ (m : ℕ) (a : BidRecord). takes_part auction_id a && a.amount_minor == m in
    let q = λ (a : BidRecord). a.id == b.id && a.user_id == b.user_id in
    record {
      alone = rw same f.0;
      lowest = λ m h. f.1 m (rw (← same) h);
      placed = rw same (count_of_first (p g.amount_minor) q bids b f.0 j ∙ ground arith);
    }

-- What the query returns is the winner by the counts.
pub calculate_lub_v1-IsLub :
    (auction_id : ℕ) (bids : List BidRecord) (w : LubWinner)
    → calculate_lub_v1 auction_id bids ≡ some w
    → IsLub auction_id bids w
unfolding calculate_lub_v1
calculate_lub_v1-IsLub auction_id bids w h = elim (Option-cases (lowest_unique auction_id bids)) [
  | inl e ↦ absurd (cc (rw (e, calculate_lub_v1) at h))
  | inr (g, e) ↦
      let (b, j, same) =
        join_row auction_id g.amount_minor bids (lowest_unique-alone auction_id bids g e).0 in
      let answer : some (to_winner b) ≡ some w = sym (calculate_row auction_id bids g b e j) ∙ h in
      subst (IsLub auction_id bids) (cc answer) (row-IsLub auction_id bids g b e j same)
]

-- Whoever is the winner by the counts is what the query returns.
pub IsLub-calculate_lub_v1 :
    (auction_id : ℕ) (bids : List BidRecord) (w : LubWinner)
    → IsLub auction_id bids w
    → calculate_lub_v1 auction_id bids ≡ some w
unfolding bidders_at
IsLub-calculate_lub_v1 auction_id bids w v =
    let (g, e, at) = lowest_unique_complete auction_id bids w.amount_minor v.alone v.lowest in
    let (b, j, same) = join_row auction_id g.amount_minor bids (rw at v.alone) in
    let p = λ (m : ℕ) (a : BidRecord). takes_part auction_id a && a.amount_minor == m in
    let q = λ (a : BidRecord). a.id == w.bid_id && a.user_id == w.user_id in
    let c = count_of_first (p w.amount_minor) q bids b v.alone (rw (← at) j) in
    calculate_row auction_id bids g b e j ∙ ground (arith, c, v.placed)

-- There is no winner exactly when no amount was chosen by exactly one bid.
pub calculate_lub_v1-none :
    (auction_id : ℕ) (bids : List BidRecord)
    → (calculate_lub_v1 auction_id bids ≡ none) ↔ ((m : ℕ) → bidders_at auction_id bids m ≢ 1)
unfolding calculate_lub_v1
calculate_lub_v1-none auction_id bids = (forth, back)
  where
    forth : calculate_lub_v1 auction_id bids ≡ none → (m : ℕ) → bidders_at auction_id bids m ≢ 1
    forth h = elim (Option-cases (lowest_unique auction_id bids)) [
      | inl e ↦ lowest_unique-none auction_id bids e
      | inr (g, e) ↦
          let (b, j, same) =
            join_row auction_id g.amount_minor bids (lowest_unique-alone auction_id bids g e).0 in
          absurd (cc (sym (calculate_row auction_id bids g b e j) ∙ h))
    ]

    back : ((m : ℕ) → bidders_at auction_id bids m ≢ 1) → calculate_lub_v1 auction_id bids ≡ none
    back h = elim (Option-cases (lowest_unique auction_id bids)) [
      | inl e ↦ ground arith
      | inr (g, e) ↦ absurd (h g.amount_minor (lowest_unique-alone auction_id bids g e).0)
    ]
