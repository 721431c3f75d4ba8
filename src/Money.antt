-- ===== src/Money.antt =====
-- packages/shared/src/money.ts: the arithmetic of amounts in minor units, in a currency. An amount is a
-- bigint, of any size.
pub mod Laws
mod Tests
use howlow.Prelude.{Bool, true, false, if◌then◌else◌}
use howlow.Prelude.Int.{ℤ, pos, ◌+ℤ◌, ◌-ℤ◌, ltb_ℤ, ℤ_eq}
use howlow.Shared.{Currency, currency_eq}
use howlow.Errors.{money_currency_mismatch, Result, ok, err}

-- `Money`, and its constructor `money`.
pub record Money : Type 0 where
  pub amount_minor : ℤ
  pub currency : Currency

abbrev same_currency : {A : Type 0} → Money → Money → A → Result A
same_currency a b result =
    if currency_eq a.currency b.currency then ok result else err money_currency_mismatch

-- `addMoney`, after `assertSameCurrency`
unfoldable pub add_money : Money → Money → Result Money
add_money a b =
    same_currency a b
      (record { amount_minor = a.amount_minor +ℤ b.amount_minor; currency = a.currency })

-- `subtractMoney`
unfoldable pub subtract_money : Money → Money → Result Money
subtract_money a b =
    same_currency a b
      (record { amount_minor = a.amount_minor -ℤ b.amount_minor; currency = a.currency })

-- `negateMoney`
unfoldable pub negate_money : Money → Money
negate_money a = record { amount_minor = pos 0 -ℤ a.amount_minor; currency = a.currency }

-- The values -1, 0 and 1 of `compareMoney`.
pub data Order : Type 0 where
  less equal greater : Order

-- `compareMoney`
unfoldable pub compare_money : Money → Money → Result Order
compare_money a b = same_currency a b (
    if ltb_ℤ a.amount_minor b.amount_minor
    then less
    else if ltb_ℤ b.amount_minor a.amount_minor
    then greater
    else equal)

abbrev pub is_zero_money : Money → Bool
is_zero_money a = ℤ_eq a.amount_minor (pos 0)

abbrev pub is_positive_money : Money → Bool
is_positive_money a = ltb_ℤ (pos 0) a.amount_minor

abbrev pub is_negative_money : Money → Bool
is_negative_money a = ltb_ℤ a.amount_minor (pos 0)
