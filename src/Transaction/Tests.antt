-- ===== src/Transaction/Tests.antt =====
-- Two attempts that conflict, and one that commits.
use howlow.Prelude.{ℕ, zero, suc, ◌≡◌, refl, some}
use howlow.Errors.{conflict, Result, ok, err}
use howlow.Transaction.{with_transaction, attempts}
use howlow.Transaction.Attempts.{IsEnd, with_transaction-IsEnd}

abbrev run : ℕ → Result ℕ
run zero = err conflict
run (suc zero) = err conflict
run (suc (suc n)) = ok 7

third_commits : with_transaction run 3 ≡ some (ok 7, 2)
unfolding with_transaction attempts
third_commits = refl

no_retry_left : with_transaction run 1 ≡ some (err conflict, 1)
unfolding with_transaction attempts
no_retry_left = refl

with_transaction-IsEnd_example :
    (n : ℕ) × (with_transaction run 3 ≡ some (run n, n)) × IsEnd run 3 n
with_transaction-IsEnd_example = with_transaction-IsEnd run 3
