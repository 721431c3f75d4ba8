-- ===== src/Shared.antt =====
-- The words that every module of the API speaks (packages/shared/src): the currencies of money.ts, the
-- channels, and the tests of equality on them. An identifier is a uuid in the program; it is only
-- compared and ordered, so it is a number here. Instants are numbers too.
use howlow.Prelude.{Bool, true, false}

pub data Currency : Type 0 where
  usd eur etb : Currency

abbrev pub currency_eq : Currency → Currency → Bool
currency_eq usd usd = true
currency_eq eur eur = true
currency_eq etb etb = true
currency_eq _ _ = false

pub data Channel : Type 0 where
  web telegram system : Channel
