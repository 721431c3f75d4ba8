-- ===== src/Bidding/Validation/Tests.antt =====
-- A ladder of three rungs, and requests that it takes and refuses.
use howlow.Prelude.{length, ℕ, ◌≤◌, ◌<◌, ◌≡◌, ◌↔◌, ◌⊎◌, refl, List, [], ◌∷◌, Text, leb, arith}
use howlow.Errors.{ok, err, duplicate_amount}
use howlow.Bidding.Validation.{
  AuctionBidTerms, parse_amounts, assert_amount_allowed, double_step, to_number, ladder_size,
  assert_no_repeats, has,
}
use howlow.Bidding.Validation.Repeats.{times, assert_no_repeats_lem}
use howlow.Bidding.Validation.Ladder.{rung, assert_amount_allowed-rung}
use howlow.Bidding.Validation.Amounts.{AllDenote, parse_amounts_lem}

abbrev terms : AuctionBidTerms
terms = record { min_bid_minor = 100; max_bid_minor = 120; bid_increment_minor = 10 }

assert_amount_allowed-rung_example :
    (assert_amount_allowed 110 terms ≡ ok tt)
    ↔ ((k : ℕ) × (k < ladder_size terms) × (110 ≡ rung terms k))
assert_amount_allowed-rung_example =
    assert_amount_allowed-rung terms 110 (omega arith) (omega arith) (omega arith)

-- "100" and "120"
abbrev texts : List Text
texts = (49 ∷ 48 ∷ 48 ∷ []) ∷ (49 ∷ 50 ∷ 48 ∷ []) ∷ []

parse_amounts_lem_example :
    (parse_amounts texts ≡ ok (100 ∷ 120 ∷ []))
    ↔ ((length texts ≤ 100) × AllDenote texts (100 ∷ 120 ∷ []))
parse_amounts_lem_example = parse_amounts_lem texts (100 ∷ 120 ∷ [])

-- A ladder of 2 ^ 53 + 2 rungs is counted as one of 2 ^ 53.
rounded_ladder :
    ladder_size
      (record { min_bid_minor = 0; max_bid_minor = 9_007_199_254_740_993; bid_increment_minor = 1 })
    ≡ 9_007_199_254_740_992
unfolding ladder_size to_number double_step
rounded_ladder = refl

assert_no_repeats_lem_example :
    ((assert_no_repeats (100 ∷ 120 ∷ 100 ∷ []) ≡ ok tt)
      × ((a : ℕ) → times a (100 ∷ 120 ∷ 100 ∷ []) ≤ 1))
    ⊎ ((x : ℕ) × (rest : List ℕ) × (assert_no_repeats (100 ∷ 120 ∷ 100 ∷ [])
          ≡ err (duplicate_amount (x ∷ rest)))
        × (2 ≤ times x (100 ∷ 120 ∷ 100 ∷ []))
        × ((a : ℕ) → has a (x ∷ rest) ≡ leb 2 (times a (100 ∷ 120 ∷ 100 ∷ []))))
assert_no_repeats_lem_example = assert_no_repeats_lem (100 ∷ 120 ∷ 100 ∷ [])
