-- ===== src/Money/Tests.antt =====
-- Two amounts in birr.
use howlow.Prelude.{◌≡◌, refl}
use howlow.Prelude.Int.{ℤ, pos}
use howlow.Shared.{etb, usd}
use howlow.Errors.{money_currency_mismatch, err}
use howlow.Money.{Money, add_money}

abbrev birr : ℤ → Money
birr n = record { amount_minor = n; currency = etb }

mixed :
    add_money (birr (pos 5)) (record { amount_minor = pos 5; currency = usd })
    ≡ err money_currency_mismatch
unfolding add_money
mixed = refl
