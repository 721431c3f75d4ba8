-- ===== src/Bidding/Validation.antt =====
-- apps/api/src/modules/bidding/validation.ts: what amounts a request may ask for.
pub mod Repeats
pub mod Ladder
pub mod Amounts
mod Tests
use howlow.Prelude.{
  length, ℕ, zero, suc, ◌+◌, ◌-◌, ◌*◌, ◌/◌, ◌%◌, Bool, true, false, not, ◌&&◌, ◌||◌, List, [], ◌∷◌,
  ◌++◌, Text, ◌==◌, ltb, leb, if◌then◌else◌,
}
use howlow.Errors.{
  too_many_amounts, amount_invalid, amount_out_of_range, amount_not_aligned, duplicate_amount,
  range_error, Result, ok, err,
}

-- `AuctionBidTerms`
pub record AuctionBidTerms : Type 0 where
  pub min_bid_minor : ℕ
  pub max_bid_minor : ℕ
  pub bid_increment_minor : ℕ

abbrev pub max_bids_per_request : ℕ
max_bids_per_request = 100

-- `\d` on a UTF-16 unit.
abbrev pub is_digit : ℕ → Bool
is_digit c = leb 48 c && leb c 57

unfoldable pub all_digits : Text → Bool
all_digits [] = true
all_digits (c ∷ cs) = is_digit c && all_digits cs

-- `/^\d{1,19}$/`
abbrev pub looks_like_amount : Text → Bool
looks_like_amount raw = all_digits raw && (leb 1 (length raw) && leb (length raw) 19)

-- `BigInt(raw)` on decimal digits, from the value of the digits before.
unfoldable pub decimal_from : ℕ → Text → ℕ
decimal_from value [] = value
decimal_from value (c ∷ cs) = decimal_from (value * 10 + (c - 48)) cs

abbrev pub decimal : Text → ℕ
decimal raw = decimal_from 0 raw

-- One turn of the loop, and the amounts that the rest parses to.
abbrev pub parse_next : Text → Result (List ℕ) → Result (List ℕ)
parse_next raw rest =
    if not (looks_like_amount raw)
    then err amount_invalid
    else if decimal raw == 0
    then err amount_invalid
    else elim rest [ ok amounts ↦ ok (decimal raw ∷ amounts) | err e ↦ err e ]

-- The loop of `parseAmounts`. Every turn raises the same error, so the first one that fails decides.
unfoldable pub parse_each : List Text → Result (List ℕ)
parse_each [] = ok []
parse_each (raw ∷ raws) = parse_next raw (parse_each raws)

-- `parseAmounts`
unfoldable pub parse_amounts : List Text → Result (List ℕ)
parse_amounts raws =
    if ltb max_bids_per_request (length raws) then err too_many_amounts else parse_each raws

-- `Set.has` and `Array.includes`.
unfoldable pub has : ℕ → List ℕ → Bool
has amount [] = false
has amount (x ∷ xs) = (x == amount) || has amount xs

-- The loop of `assertNoRepeats`, with the amounts seen and those found twice.
unfoldable pub find_repeats : List ℕ → List ℕ → List ℕ → List ℕ
find_repeats [] seen repeated = repeated
find_repeats (amount ∷ rest) seen repeated =
    find_repeats rest (amount ∷ seen)
      (if has amount seen && not (has amount repeated) then repeated ++ amount ∷ [] else repeated)

abbrev refuse_repeats : List ℕ → Result (Unit {0})
refuse_repeats [] = ok tt
refuse_repeats (x ∷ xs) = err (duplicate_amount (x ∷ xs))

-- `assertNoRepeats`
unfoldable pub assert_no_repeats : List ℕ → Result (Unit {0})
assert_no_repeats amounts = refuse_repeats (find_repeats amounts [] [])

-- `assertAmountAllowed`. The remainder of a division by zero raises a RangeError.
unfoldable pub assert_amount_allowed : ℕ → AuctionBidTerms → Result (Unit {0})
assert_amount_allowed amount terms =
    if ltb amount terms.min_bid_minor || ltb terms.max_bid_minor amount
    then err amount_out_of_range
    else if terms.bid_increment_minor == 0
    then err range_error
    else if (amount - terms.min_bid_minor) % terms.bid_increment_minor == 0
    then ok tt
    else err amount_not_aligned

-- `assertAmountsAllowed`
unfoldable pub assert_amounts_allowed : List ℕ → AuctionBidTerms → Result (Unit {0})
assert_amounts_allowed [] terms = ok tt
assert_amounts_allowed (amount ∷ amounts) terms = elim (assert_amount_allowed amount terms) [
  | ok _ ↦ assert_amounts_allowed amounts terms
  | err e ↦ err e
]

-- The step between the doubles around a number below 2 ^ 64: 1 below 2 ^ 53, and twice as much for each
-- binary digit more.
unfoldable pub double_step : ℕ → ℕ → ℕ
double_step zero n = 1
double_step (suc digits) n =
    let rest = double_step digits (n / 2) in if ltb n 9_007_199_254_740_992 then 1 else 2 * rest

-- The multiple of the step nearest to a number, the even one of two that are as near.
abbrev pub round_to : ℕ → ℕ → ℕ
round_to step n =
    if ltb (2 * (n % step)) step
    then n / step * step
    else if ltb step (2 * (n % step))
    then (n / step + 1) * step
    else if n / step % 2 == 0
    then n / step * step
    else (n / step + 1) * step

-- The double for a whole number below 2 ^ 64, as `Number` of a bigint and `+` of numbers round to it.
unfoldable pub to_number : ℕ → ℕ
to_number n = round_to (double_step 11 n) n

-- `ladderSize`, for terms whose maximum is no less than the minimum and whose increment is not zero,
-- which the table of auctions checks; its columns are below 2 ^ 63.
unfoldable pub ladder_size : AuctionBidTerms → ℕ
ladder_size terms =
    to_number
      (to_number ((terms.max_bid_minor - terms.min_bid_minor) / terms.bid_increment_minor) + 1)

-- `totalFee`
abbrev pub total_fee : ℕ → ℕ → ℕ
total_fee fee_per_bid bid_count = fee_per_bid * bid_count
