-- ===== src/Results/Verify/Published.antt =====
-- A published result against the bids that it was decided from.
use howlow.Prelude.{
  ℕ, ◌≡◌, refl, sym, ◌∙◌, inl, inr, true, Option, none, some, List, [], ◌==◌, Bool-cases,
  Option-cases, ==_refl, text_eq, text_eq_refl, subst,
}
use howlow.Errors.{ok}
use howlow.Catalog.Inventory.Invariant.{IsValid}
use howlow.Auctions.Transitions.{status_eq}
use howlow.Auctions.Transitions
use howlow.Auctions.Rows.{AuctionRecord}
use howlow.Bidding.Rows.{BidRecord}
use howlow.Results.Lub.{FrozenStatistics, count_frozen_bids, calculate_lub_v1}
use howlow.Results.Checksum.{Postgres, checksum_frozen_bids}
use howlow.Results.Rows.{ResultRecord, ResultDb, find_result}
use howlow.Results.Repository.{ResultSeed, new_result}
use howlow.Results.Close.{Seeds, Decision, decide, counted_winner, result_input, field_of}
use howlow.Results.Close.Decided.{stored_after, decide-IsDecided}
use howlow.Results.Verify.{
  same_option, recomputed_winner, statistics_lines, mismatches_of, report_on, verify_result,
}

same_option_refl : (o : Option ℕ) → same_option o o ≡ true
same_option_refl none = refl
same_option_refl (some n) = ==_refl n

statistics_lines_refl : (s : FrozenStatistics) → statistics_lines s s ≡ []
statistics_lines_refl s =
    rw
      (
        ==_refl s.total_bids,
        ==_refl s.total_valid_bids,
        ==_refl s.participant_count,
        ==_refl s.unique_amount_count,
      )
      refl

-- Verification recomputes the winner that the decision has counted.
recomputed_winner-result_input :
    (pg : Postgres) (seed : ResultSeed) (a : AuctionRecord) (bids : List BidRecord)
    → recomputed_winner (new_result seed (result_input pg a bids)) bids ≡ counted_winner a bids
recomputed_winner-result_input pg seed a bids =
    elim (Bool-cases (status_eq a.status Transitions.cancelled)) [
      | inl t ↦ rw t refl
      | inr n ↦ elim (Option-cases (calculate_lub_v1 a.id bids)) [
        | inr (w, e) ↦ rw (n, e) e
        | inl e ↦ elim (Bool-cases ((count_frozen_bids a.id bids).total_valid_bids == 0)) [
          | inl z ↦ rw (n, e, z) e
          | inr z ↦ rw (n, e, z) e
        ]
      ]
    ]

-- Nothing disagrees between a row and the bids that it was computed from.
pub mismatches_of-new_result :
    (pg : Postgres) (seed : ResultSeed) (a : AuctionRecord) (bids : List BidRecord)
    → mismatches_of pg (new_result seed (result_input pg a bids)) bids ≡ []
mismatches_of-new_result pg seed a bids =
    rw
      (
        recomputed_winner-result_input pg seed a bids,
        text_eq_refl (checksum_frozen_bids pg a.id bids),
        same_option_refl (field_of (λ w. w.bid_id) (counted_winner a bids)),
        same_option_refl (field_of (λ w. w.amount_minor) (counted_winner a bids)),
      )
      (statistics_lines_refl (count_frozen_bids a.id bids))

-- What stands in a report that finds nothing.
pub report_on-new_result :
    (pg : Postgres) (seed : ResultSeed) (a : AuctionRecord) (bids : List BidRecord)
    → (report_on pg (new_result seed (result_input pg a bids)) bids).is_ok ≡ true
report_on-new_result pg seed a bids = rw (mismatches_of-new_result pg seed a bids) refl

pub verify_result-stored :
    (pg : Postgres) (id : ℕ) (db : ResultDb) (r : ResultRecord)
    → find_result id db.results ≡ some r
    → verify_result pg id db ≡ ok (report_on pg r db.tables.bids)
unfolding verify_result text_eq checksum_frozen_bids count_frozen_bids
verify_result-stored pg id db r e = rw (verify_result, e) refl

-- Right after the call that decides an auction, `verifyResult` returns a report that the result holds:
-- no checksum, winner, amount or count disagrees. The stock's counts are those that the lifecycle keeps.
pub verify_result-decide :
    (pg : Postgres) (seeds : Seeds) (id : ℕ) (db after : ResultDb) (d : Decision)
    → IsValid db.tables.auctions.inventory
    → decide pg seeds id db ≡ ok (d, after)
    → d.inserted ≡ true
    → (verify_result pg id after ≡ ok (report_on pg d.result after.tables.bids))
      × ((report_on pg d.result after.tables.bids).is_ok ≡ true)
verify_result-decide pg seeds id db after d v h fresh =
    let (x, named) = decide-IsDecided pg seeds id db after d v h in
    let stored = stored_after pg seeds db after d x.written in
    (
      verify_result-stored pg id after d.result
          (subst (λ i. find_result i after.results ≡ some d.result) named stored),
      elim x.written [
        | inl (_, stale, _) ↦ absurd (cc (sym fresh ∙ stale))
        | inr (_, _, own, _) ↦
            rw (x.kept.bids, own) (report_on-new_result pg seeds.result d.auction db.tables.bids)
      ],
    )
