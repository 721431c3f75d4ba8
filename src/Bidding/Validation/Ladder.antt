-- ===== src/Bidding/Validation/Ladder.antt =====
-- The ladder of amounts that an auction allows.
use howlow.Prelude.{ℕ, ◌+◌, ◌-◌, ◌*◌, ◌/◌, ◌≤◌, ◌<◌, ◌≡◌, ◌↔◌, refl, true, ltb, arith}
use howlow.Errors.{ok}
use howlow.Bidding.Validation.{
  AuctionBidTerms, assert_amount_allowed, double_step, round_to, to_number, ladder_size,
}
use native.Mathlib.Nat.{mul-mod_left, le-div_iff_mul-le, div-add-mod'}

-- The amount at a rung of the ladder, from the minimum at rung 0.
abbrev pub rung : AuctionBidTerms → ℕ → ℕ
rung t k = t.min_bid_minor + k * t.bid_increment_minor

step_one : (n : ℕ) → n < 9_007_199_254_740_992 → double_step 11 n ≡ 1
unfolding double_step
step_one n small = let below : ltb n 9_007_199_254_740_992 ≡ true = ground arith in rw below refl

whole : (n : ℕ) → round_to 1 n ≡ n
whole n = ground arith

-- A number below 2 ^ 53 is a double.
to_number_exact : (n : ℕ) → n < 9_007_199_254_740_992 → to_number n ≡ n
unfolding to_number
to_number_exact n small = rw (step_one n small) (whole n)

ladder_size_exact :
    (t : AuctionBidTerms)
    → (t.max_bid_minor - t.min_bid_minor) / t.bid_increment_minor < 9_007_199_254_740_991
    → ladder_size t ≡ (t.max_bid_minor - t.min_bid_minor) / t.bid_increment_minor + 1
unfolding ladder_size
ladder_size_exact t small =
    let rungs = (t.max_bid_minor - t.min_bid_minor) / t.bid_increment_minor in
    rw (to_number_exact rungs (omega (arith, small)))
      (to_number_exact (rungs + 1) (omega (arith, small)))

-- For terms whose minimum is no more than the maximum, whose increment is not zero, and whose ladder is
-- short enough to be counted exactly by a double (fewer than 2 ^ 53 rungs), an amount is allowed exactly
-- when it is the minimum and k increments, for a k below the size of the ladder.
pub assert_amount_allowed-rung :
    (t : AuctionBidTerms) (a : ℕ)
    → t.min_bid_minor ≤ t.max_bid_minor
    → 0 < t.bid_increment_minor
    → (t.max_bid_minor - t.min_bid_minor) / t.bid_increment_minor < 9_007_199_254_740_991
    → (assert_amount_allowed a t ≡ ok tt) ↔ ((k : ℕ) × (k < ladder_size t) × (a ≡ rung t k))
unfolding assert_amount_allowed
assert_amount_allowed-rung t a ordered steps short = rw (ladder_size_exact t short) (forth, back)
  where
    forth :
        assert_amount_allowed a t ≡ ok tt
        → (k : ℕ) × (k < (t.max_bid_minor - t.min_bid_minor) / t.bid_increment_minor + 1)
          × (a ≡ rung t k)
    forth h =
        let whole : (a - t.min_bid_minor) / t.bid_increment_minor * t.bid_increment_minor
            ≡ a - t.min_bid_minor =
          (let split = div-add-mod' (a - t.min_bid_minor) t.bid_increment_minor in
            ground (arith, split)) in
        (
          (a - t.min_bid_minor) / t.bid_increment_minor,
          (let below =
                (le-div_iff_mul-le {x = (a - t.min_bid_minor) / t.bid_increment_minor}
                    {y = t.max_bid_minor - t.min_bid_minor} steps).1
                  (ground (arith, whole)) in
              omega (arith, below)),
          ground (arith, whole),
        )

    back :
        ((k : ℕ) × (k < (t.max_bid_minor - t.min_bid_minor) / t.bid_increment_minor + 1)
          × (a ≡ rung t k))
        → assert_amount_allowed a t ≡ ok tt
    back (k, low, e) =
        let fits : k * t.bid_increment_minor ≤ t.max_bid_minor - t.min_bid_minor =
          (le-div_iff_mul-le steps).0 (omega (arith, low)) in
        let rest : a - t.min_bid_minor ≡ k * t.bid_increment_minor = omega (arith, e) in
        let aligned = mul-mod_left k t.bid_increment_minor in ground (arith, fits, rest, aligned, e)
