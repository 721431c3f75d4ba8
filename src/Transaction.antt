-- ===== src/Transaction.antt =====
-- apps/api/src/db/transaction.ts: the loop of withTransaction. What the n-th attempt ends with, from
-- BEGIN to COMMIT, on the tables as others have left them by then, is the argument `run`.
pub mod Attempts
mod Tests
use howlow.Prelude.{ℕ, zero, suc, Bool, true, false, Option, none, some, ltb, ◌&&◌, if◌then◌else◌}
use howlow.Errors.{AppError, conflict, Result, ok, err}

-- `isRetryable`: 40001 and 40P01.
abbrev pub is_retryable : AppError → Bool
is_retryable conflict = true
is_retryable _ = false

-- An attempt that the loop would make again.
abbrev pub fails_retryably {ℓ} : {A : Type ℓ} → Result A → Bool
fails_retryably (ok a) = false
fails_retryably (err e) = is_retryable e

-- The rounds of `for (;;)`, as many as `fuel` allows: what is returned or thrown, and at which attempt.
unfoldable pub attempts {ℓ} : {A : Type ℓ} → (ℕ → Result A) → ℕ → ℕ → ℕ → Option (Result A × ℕ)
attempts run max_retries zero attempt = none
attempts run max_retries (suc fuel) attempt =
    let rest = attempts run max_retries fuel (suc attempt) in
    if ltb attempt max_retries && fails_retryably (run attempt)
    then rest
    else some (run attempt, attempt)

-- `withTransaction`, for one round more than it may retry.
unfoldable pub with_transaction {ℓ} : {A : Type ℓ} → (ℕ → Result A) → ℕ → Option (Result A × ℕ)
with_transaction run max_retries = attempts run max_retries (suc max_retries) zero
