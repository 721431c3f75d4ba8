-- ===== src/Auth/Calls.antt =====
-- How the auth module runs its statements (withTransaction and the pool of apps/api/src/db): a call that
-- fails can leave rows behind, since some statements run on a connection of their own while the
-- caller's transaction is open, and stay when that transaction is rolled back.
use howlow.Prelude.{Bool, true, false, Option, none, some}
use howlow.Errors.{AppError, Result, ok, err}
use howlow.Auth.Rows.{AuthDb}

-- A run on the rows `S`, which it leaves as they are said to be also when it raises.
abbrev pub Call : Type 0 → Type 0 → Type 0
Call S A = S → Result A × S

module _ {S : Type 0} where
  abbrev pub return : {A : Type 0} → A → Call S A
  return a s = (ok a, s)

  abbrev pub raise : {A : Type 0} → AppError → Call S A
  raise e s = (err e, s)

  abbrev pub reads : {A : Type 0} → (S → A) → Call S A
  reads f s = (ok (f s), s)

  abbrev pub writes : (S → S) → Call S (Unit {0})
  writes f s = (ok tt, f s)

  abbrev pub raise_if : Bool → AppError → Call S (Unit {0})
  raise_if true e s = (err e, s)
  raise_if false e s = (ok tt, s)

  abbrev pub or_raise : {A : Type 0} → AppError → Option A → Call S A
  or_raise e none s = (err e, s)
  or_raise e (some a) s = (ok a, s)

abbrev pub followed_by : {S A B : Type 0} → Result A × S → (A → Call S B) → Result B × S
followed_by (ok a, t) f = f a t
followed_by (err e, t) f = (err e, t)

infixl 5 ◌>>=◌ ◌>>◌
abbrev pub ◌>>=◌ : {S A B : Type 0} → Call S A → (A → Call S B) → Call S B
◌>>=◌ m f s = followed_by (m s) f

abbrev pub ◌>>◌ : {S A B : Type 0} → Call S A → Call S B → Call S B
m >> k = m >>= λ _. k

-- An open transaction: the tables that the others see, and those that it sees itself. Under READ
-- COMMITTED it sees at once what another connection commits.
pub record Open : Type 0 where
  pub committed : AuthDb
  pub view : AuthDb

-- A statement that is given the transaction.
abbrev pub inside : {A : Type 0} → Call AuthDb A → Call Open A
inside m c = let (r, db) = m c.view in (r, record c { view = db })

-- A statement that is not, while the transaction is open.
abbrev pub apart : {A : Type 0} → (AuthDb → Result A × AuthDb) → Call Open A
apart m c = let (r, db) = m c.committed in (r, record { committed = db; view = (m c.view).1 })

-- BEGIN, then COMMIT, or ROLLBACK where the body throws. An attempt that PostgreSQL refuses for a
-- conflict is made again by the loop of howlow.Transaction.
abbrev pub end_transaction : {A : Type 0} → Result A × Open → Result A × AuthDb
end_transaction (ok a, c) = (ok a, c.view)
end_transaction (err e, c) = (err e, c.committed)

unfoldable pub in_transaction : {A : Type 0} → Call Open A → Call AuthDb A
in_transaction m db = end_transaction (m (record { committed = db; view = db }))
