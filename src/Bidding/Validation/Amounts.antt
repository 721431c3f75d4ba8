-- ===== src/Bidding/Validation/Amounts.antt =====
-- The amounts of a request, as they are parsed and tested.
use howlow.Prelude.{
  length, ℕ, zero, suc, ◌+◌, ◌-◌, ◌*◌, ◌/◌, ◌≤◌, ◌<◌, ◌≡◌, refl, ◌∙◌, ◌↔◌, true, List, [], ◌∷◌,
  Text, arith, All, inl, inr,
}
use howlow.Errors.{ok, Result-cases}
use howlow.Bidding.Validation.{
  AuctionBidTerms, all_digits, decimal_from, decimal, parse_each, parse_amounts,
  assert_amount_allowed, assert_amounts_allowed, ladder_size,
}
use howlow.Bidding.Validation.Ladder.{rung, assert_amount_allowed-rung}

abbrev ten_to : ℕ → ℕ
ten_to zero = 1
ten_to (suc n) = 10 * ten_to n

-- The value of decimal digits: each counts by its place from the end. The digit 0 is 48.
abbrev pub value_of : Text → ℕ
value_of [] = 0
value_of (c ∷ cs) = (c - 48) * ten_to (length cs) + value_of cs

-- `raw` is written with one to nineteen characters from 0 (48) to 9 (57), and has the value `x`, which
-- is not zero.
abbrev pub Denotes : Text → ℕ → Type 0
Denotes raw x =
    All (λ c. (48 ≤ c) × (c ≤ 57)) raw
    × (1 ≤ length raw)
    × (length raw ≤ 19)
    × (x ≡ value_of raw)
    × (0 < x)

-- The texts denote the numbers, one for one.
abbrev pub AllDenote : List Text → List ℕ → Type 0
AllDenote [] [] = Unit {0}
AllDenote [] (x ∷ xs) = ⊥
AllDenote (raw ∷ raws) [] = ⊥
AllDenote (raw ∷ raws) (x ∷ xs) = Denotes raw x × AllDenote raws xs

place : (v d p n : ℕ) → (v * 10 + d) * p + n ≡ v * (10 * p) + (d * p + n)
place v d p n = grind arith

decimal_from-value_of :
    (v : ℕ) (raw : Text) → decimal_from v raw ≡ v * ten_to (length raw) + value_of raw
unfolding decimal_from
decimal_from-value_of v [] = omega arith
decimal_from-value_of v (c ∷ cs) =
    decimal_from-value_of (v * 10 + (c - 48)) cs
    ∙ place v (c - 48) (ten_to (length cs)) (value_of cs)

decimal-value_of : (raw : Text) → decimal raw ≡ value_of raw
decimal-value_of raw = decimal_from-value_of 0 raw ∙ omega arith

digits_forth : (raw : Text) → all_digits raw ≡ true → All (λ c. (48 ≤ c) × (c ≤ 57)) raw
unfolding all_digits
digits_forth [] h = tt
digits_forth (c ∷ cs) h = ((ground arith, ground arith), digits_forth cs (ground arith))

digits_back : (raw : Text) → All (λ c. (48 ≤ c) × (c ≤ 57)) raw → all_digits raw ≡ true
unfolding all_digits
digits_back [] h = refl
digits_back (c ∷ cs) h = ground (arith, digits_back cs h.1, h.0)

each_forth : (raws : List Text) (xs : List ℕ) → parse_each raws ≡ ok xs → AllDenote raws xs
unfolding parse_each
each_forth [] [] h = tt
each_forth [] (x ∷ xs) h = absurd (ground arith)
each_forth (raw ∷ raws) xs h = elim (Result-cases (parse_each raws)) [
  | inl (e, failed) ↦ absurd (ground arith)
  | inr (ys, went) ↦
      let same : xs ≡ decimal raw ∷ ys = ground arith in
      rw same (
        (
          digits_forth raw (ground arith),
          ground arith,
          ground arith,
          decimal-value_of raw,
          ground arith,
        ),
        each_forth raws ys went,
      )
]

each_back : (raws : List Text) (xs : List ℕ) → AllDenote raws xs → parse_each raws ≡ ok xs
unfolding parse_each
each_back [] [] h = refl
each_back [] (x ∷ xs) h = absurd h
each_back (raw ∷ raws) [] h = absurd h
each_back (raw ∷ raws) (x ∷ xs) ((digits, some_one, few, value, positive), h) =
    let same : decimal raw ≡ x = decimal-value_of raw ∙ omega (arith, value) in
    ground (arith, each_back raws xs h, digits_back raw digits, same)

-- parseAmounts accepts exactly the requests of a hundred texts at most that each are one to nineteen
-- decimal digits of a value that is not zero, and then it returns their values, in order. Each digit
-- counts by its place from the end.
pub parse_amounts_lem :
    (raws : List Text) (xs : List ℕ)
    → (parse_amounts raws ≡ ok xs) ↔ ((length raws ≤ 100) × AllDenote raws xs)
unfolding parse_amounts
parse_amounts_lem raws xs = (
  λ h. (ground arith, each_forth raws xs (ground arith)),
  λ (small, all). (let k = each_back raws xs all in ground (arith, k)),
)

-- For such terms (minimum no more than maximum, increment not zero, ladder short) a batch passes exactly when each
-- of its amounts stands on the ladder.
assert_amounts_allowed-rung :
    (t : AuctionBidTerms) (xs : List ℕ)
    → t.min_bid_minor ≤ t.max_bid_minor
    → 0 < t.bid_increment_minor
    → (t.max_bid_minor - t.min_bid_minor) / t.bid_increment_minor < 9_007_199_254_740_991
    → (assert_amounts_allowed xs t ≡ ok tt)
      ↔ All (λ a. (k : ℕ) × (k < ladder_size t) × (a ≡ rung t k)) xs
unfolding assert_amounts_allowed
assert_amounts_allowed-rung t [] ordered steps short = (λ h. tt, λ h. refl)
assert_amounts_allowed-rung t (x ∷ xs) ordered steps short =
    let head = assert_amount_allowed-rung t x ordered steps short in
    let tail = assert_amounts_allowed-rung t xs ordered steps short in
    (
      λ h. elim (Result-cases (assert_amount_allowed x t)) [
        | inl (e, failed) ↦ ground arith
        | inr (u, went) ↦ (head.0 went, tail.0 (ground arith))
      ],
      λ h. let one = head.1 h.0 in let rest = tail.1 h.1 in ground (arith, one, rest),
    )
