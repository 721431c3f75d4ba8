-- ===== src/Errors.antt =====
-- The errors that the API's modules raise (the constructors of errors.ts in apps/api/src/modules/wallet,
-- bidding, auctions, catalog and results, and what modules/auth throws), and a run that can raise one.
-- Messages are left out. `conflict` stands for PostgreSQL's 40001 and 40P01, `out_of_range` for its
-- 22003 on a BIGINT column, `unique_violation` for 23505.
use howlow.Prelude.{◌⊎◌, inl, inr, ℕ, Bool, true, false, List, Option, none, some, ◌≡◌, refl, ap}

pub data AppError : Type 0 where
  wallet_not_found wallet_frozen invalid_amount insufficient_funds idempotency_conflict : AppError
  unauthorized_wallet_operation currency_mismatch out_of_range conflict : AppError
  too_many_amounts amount_invalid amount_out_of_range amount_not_aligned : AppError
  duplicate_amount : List ℕ → AppError
  duplicate_amount_unknown auction_not_live auction_not_started auction_ended bidder_not_eligible :
      AppError
  bid_limit_exceeded bid_insufficient_funds bid_wallet_frozen idempotency_in_progress not_found :
      AppError
  auction_not_found auction_not_owned auction_not_due unauthorized_auction_operation : AppError
  invalid_transition product_not_found insufficient_inventory result_not_found auction_not_closed :
      AppError
  check_violation range_error rate_limited not_an_amount too_many_decimals money_currency_mismatch :
      AppError
  unique_violation validation_failed unauthenticated forbidden : AppError
  reuse_detected : ℕ → ℕ → AppError

pub data Result {ℓ} (A : Type ℓ) : Type ℓ where
  ok : A → Result A
  err : AppError → Result A

-- A run inside a transaction on the rows `S`: what it has written is lost when it raises.
abbrev pub Tx : Type 0 → Type 0 → Type 0
Tx S A = S → Result (A × S)

module _ {S : Type 0} where
  abbrev pub pure : {A : Type 0} → A → Tx S A
  pure a s = ok (a, s)

  abbrev pub throw : {A : Type 0} → AppError → Tx S A
  throw e s = err e

  abbrev pub gets : {A : Type 0} → (S → A) → Tx S A
  gets f s = ok (f s, s)

  abbrev pub modify : (S → S) → Tx S (Unit {0})
  modify f s = ok (tt, f s)

  abbrev pub throw_if : Bool → AppError → Tx S (Unit {0})
  throw_if true e s = err e
  throw_if false e s = ok (tt, s)

  abbrev pub or_throw : {A : Type 0} → AppError → Option A → Tx S A
  or_throw e none s = err e
  or_throw e (some a) s = ok (a, s)

infixl 5 ◌>>=◌ ◌>>◌
abbrev pub ◌>>=◌ : {S A B : Type 0} → Tx S A → (A → Tx S B) → Tx S B
◌>>=◌ m f s = elim (m s) [ ok (a, t) ↦ f a t | err e ↦ err e ]

abbrev pub ◌>>◌ : {S A B : Type 0} → Tx S A → Tx S B → Tx S B
m >> k = m >>= λ _. k

-- Inversion of a bind that succeeds, for proofs where the parts stay shut.
bind_ok :
    {S A B : Type 0} (x : Result (A × S)) (f : A → Tx S B) (r : B × S)
    → elim x as (λ _. Result (B × S)) [ ok (a, t) ↦ f a t | err e ↦ err e ] ≡ ok r
    → (a : A) × (t : S) × (x ≡ ok (a, t)) × (f a t ≡ ok r)
bind_ok (ok (a, t)) f r h = (a, t, refl, h)
bind_ok (err e) f r h = cc

pub >>=-eq-ok :
    {S A B : Type 0} (m : Tx S A) (f : A → Tx S B) (s : S) (r : B × S)
    → (m >>= f) s ≡ ok r
    → (a : A) × (t : S) × (m s ≡ ok (a, t)) × (f a t ≡ ok r)
>>=-eq-ok m f s r h = bind_ok (m s) f r h

-- A run failed or succeeded.
pub Result-cases :
    {A : Type 0} (x : Result A) → ((e : AppError) × (x ≡ err e)) ⊎ ((a : A) × (x ≡ ok a))
Result-cases (err e) = inl (e, refl)
Result-cases (ok a) = inr (a, refl)

-- A bind whose first part is known.
pub >>=-ok :
    {S A B : Type 0} (m : Tx S A) (f : A → Tx S B) (s t : S) (a : A)
    → m s ≡ ok (a, t)
    → (m >>= f) s ≡ f a t
>>=-ok m f s t a h = ap (λ x. elim x [ ok (b, u) ↦ f b u | err e ↦ err e ]) h

-- What is returned is returned with the state that it was returned in.
pub ok_state : {S A : Type 0} (a b : A) (s t : S) → pure a s ≡ ok (b, t) → t ≡ s
ok_state a b s t h = cc
