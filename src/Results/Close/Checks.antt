-- ===== src/Results/Close/Checks.antt =====
-- The rows that a decision computes are rows that the table accepts.
use howlow.Prelude.{
  ℕ, ◌≡◌, refl, inl, inr, true, false, some, List, ◌==◌, ◌&&◌, ltb, arith, Bool-cases, Option-cases,
  All, All-first_where, first_of_count, first_where_holds,
}
use howlow.Auctions.Transitions.{status_eq}
use howlow.Auctions.Transitions
use howlow.Auctions.Rows.{AuctionRecord}
use howlow.Bidding.Rows.{BidRecord, takes_part}
use howlow.Results.Lub.{LubWinner, count_frozen_bids, calculate_lub_v1}
use howlow.Results.Lub.Winner.{calculate_lub_v1-IsLub}
use howlow.Results.Lub.Statistics.{unique_amount_count-zero, count_frozen_bids-nested}
use howlow.Results.Checksum.{Postgres}
use howlow.Results.Repository.{counts_fit, outcome_fits, winner_fits, passes_checks}
use howlow.Results.Close.{result_input}

-- The CHECK of `bids`: an amount is more than zero.
abbrev pub Positive : List BidRecord → Type 0
Positive bids = All (λ b. ltb 0 b.amount_minor ≡ true) bids

winner-Positive :
    (id : ℕ) (bids : List BidRecord) (w : LubWinner)
    → Positive bids
    → calculate_lub_v1 id bids ≡ some w
    → ltb 0 w.amount_minor ≡ true
winner-Positive id bids w positive e =
    let p = λ (b : BidRecord).
      (takes_part id b && b.amount_minor == w.amount_minor)
      && (b.id == w.bid_id && b.user_id == w.user_id) in
    let v = calculate_lub_v1-IsLub id bids w e in
    let (b, found) = first_of_count p bids (rw v.placed (omega arith)) in
    ground (arith, first_where_holds p bids b found, All-first_where _ p bids b positive found)

counts_fit-result_input :
    (pg : Postgres) (a : AuctionRecord) (bids : List BidRecord)
    → counts_fit (result_input pg a bids) ≡ true
unfolding counts_fit
counts_fit-result_input pg a bids =
    let (_, unique, valid) = count_frozen_bids-nested a.id bids in ground (arith, unique, valid)

-- No CHECK refuses what an auction that is not cancelled is decided to be.
pub passes_checks-result_input :
    (pg : Postgres) (a : AuctionRecord) (bids : List BidRecord)
    → Positive bids
    → status_eq a.status Transitions.cancelled ≡ false
    → passes_checks (result_input pg a bids) ≡ true
unfolding outcome_fits winner_fits
passes_checks-result_input pg a bids positive n =
    let counts = counts_fit-result_input pg a bids in
    elim (Option-cases (calculate_lub_v1 a.id bids)) [
      | inr (w, e) ↦ rw (counts, n, e, winner-Positive a.id bids w positive e) refl
      | inl e ↦
          let zero_alone = (unique_amount_count-zero a.id bids).1 e in
          elim (Bool-cases ((count_frozen_bids a.id bids).total_valid_bids == 0)) [
            | inl z ↦ rw (counts, n, e, z, zero_alone) (ground (arith, z))
            | inr z ↦ rw (counts, n, e, z, zero_alone) (ground (arith, z))
          ]
    ]
