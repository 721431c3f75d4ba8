-- ===== src/Money/Laws.antt =====
-- The operations on money, by each other.
use howlow.Prelude.{◌≡◌, refl, ◌↔◌, true, arith}
use howlow.Prelude.Int.{ℤ, pos, ◌+ℤ◌, ◌-ℤ◌, int_laws, +ℤ_cancel, +ℤ_parts, -ℤ_parts, eq_of_parts}
use howlow.Shared.{currency_eq}
use howlow.Errors.{ok}
use howlow.Money.{
  Money, add_money, subtract_money, negate_money, compare_money, Order, less, equal, greater,
  is_zero_money, is_positive_money, is_negative_money,
}

negate-add : (a b : ℤ) → a -ℤ b ≡ a +ℤ (pos 0 -ℤ b)
negate-add a b =
    eq_of_parts _ _ (omega (int_laws, -ℤ_parts (pos 0) b, -ℤ_parts a b, +ℤ_parts a (pos 0 -ℤ b)))

-- Where adding two amounts succeeds, taking the second off the sum gives the first again, and taking
-- the second off the first is adding its negation.
pub add_money-subtract_money :
    (a b c : Money)
    → add_money a b ≡ ok c
    → (subtract_money c b ≡ ok a) × (subtract_money a b ≡ add_money a (negate_money b))
unfolding add_money subtract_money negate_money
add_money-subtract_money a b c h =
    let same : currency_eq a.currency b.currency ≡ true = ground arith in
    let sum : c
        ≡ record { amount_minor = a.amount_minor +ℤ b.amount_minor; currency = a.currency } =
      ground arith in
    (
      rw (sum, same, +ℤ_cancel a.amount_minor b.amount_minor) refl,
      rw (negate-add a.amount_minor b.amount_minor) refl,
    )

-- Where two amounts have a difference, compareMoney says whether it is below, at or above zero.
compare_money-subtract_money :
    (a b d : Money) (o : Order)
    → subtract_money a b ≡ ok d
    → compare_money a b ≡ ok o
    → ((o ≡ less) ↔ (is_negative_money d ≡ true))
      × ((o ≡ equal) ↔ (is_zero_money d ≡ true))
      × ((o ≡ greater) ↔ (is_positive_money d ≡ true))
unfolding subtract_money compare_money ◌-ℤ◌
compare_money-subtract_money a b d o h k = (ground arith, ground arith, ground arith)
