-- ===== src/Transaction/Attempts.antt =====
-- The loop of withTransaction ends, and how.
use howlow.Prelude.{
  ℕ, zero, suc, ◌+◌, ◌≤◌, ◌<◌, ◌≡◌, ◌⊎◌, inl, inr, true, false, some, ltb, arith, Bool-cases, ◌==◌,
  ==_iff, subst, sym,
}
use howlow.Errors.{Result}
use howlow.Transaction.{fails_retryably, attempts, with_transaction}

-- The loop has ended at attempt `n`: each one before failed in a way that is retried, and this one did
-- not, or was the last.
pub record IsEnd {ℓ} {A : Type ℓ} (run : ℕ → Result A) (max_retries n : ℕ) : Type ℓ where
  pub within : n ≤ max_retries
  pub before : (k : ℕ) → k < n → fails_retryably (run k) ≡ true
  pub last : (fails_retryably (run n) ≡ false) ⊎ (n ≡ max_retries)

module _ {ℓ} {A : Type ℓ} (run : ℕ → Result A) (max_retries : ℕ) where
  attempts-IsEnd :
      (fuel attempt : ℕ)
      → attempt + fuel ≡ suc max_retries
      → attempt ≤ max_retries
      → ((k : ℕ) → k < attempt → fails_retryably (run k) ≡ true)
      → (n : ℕ) × (attempts run max_retries fuel attempt ≡ some (run n, n))
        × IsEnd run max_retries n
  unfolding attempts
  attempts-IsEnd zero attempt total within before = absurd (omega (arith, total, within))
  attempts-IsEnd (suc fuel) attempt total within before =
      elim (Bool-cases (fails_retryably (run attempt))) [
        | inr n ↦
            (attempt, ground (arith, n), record { within = within; before = before; last = inl n })
        | inl t ↦ elim (Bool-cases (ltb attempt max_retries)) [
          | inr done ↦ (
            attempt,
            ground (arith, done),
            record { within = within; before = before; last = inr (ground (arith, done, within)) },
          )
          | inl more ↦
              let (n, e, end) =
                attempts-IsEnd fuel (suc attempt) (omega (arith, total)) (ground (arith, more))
                  (λ k h. elim (Bool-cases (k == attempt)) [
                    | inl same ↦
                        subst (λ i. fails_retryably (run i) ≡ true) (sym ((==_iff _ _).0 same)) t
                    | inr apart ↦ before k (ground (arith, h, apart))
                  ]) in
              (n, rw (more, t) e, end)
        ]
      ]

  -- withTransaction ends after at most `maxRetries` + 1 attempts, whatever they do: it returns or
  -- throws what the last one did, each attempt before failed with a conflict, and the last one did
  -- not, unless no retry was left.
  pub with_transaction-IsEnd :
      (n : ℕ) × (with_transaction run max_retries ≡ some (run n, n)) × IsEnd run max_retries n
  unfolding with_transaction
  with_transaction-IsEnd =
      attempts-IsEnd (suc max_retries) zero (omega arith) (omega arith)
        (λ k h. absurd (omega (arith, h)))
