-- ===== src/Bidding/Validation/Repeats.antt =====
-- The amounts that a request asks for twice.
use howlow.Prelude.{
  ℕ, ◌+◌, ◌≤◌, ◌≡◌, refl, ◌⊎◌, inl, inr, not, ◌&&◌, ◌||◌, List, [], ◌∷◌, ◌++◌, ◌==◌, leb, arith,
  count_where, if◌then◌else◌,
}
use howlow.Errors.{duplicate_amount, ok, err}
use howlow.Bidding.Validation.{has, find_repeats, assert_no_repeats}

has-++ : (a : ℕ) (xs : List ℕ) (x : ℕ) → has a (xs ++ x ∷ []) ≡ (has a xs || x == a)
unfolding has
has-++ a [] x = ground arith
has-++ a (y ∷ xs) x = ground (arith, has-++ a xs x)

-- How often an amount is asked for.
abbrev pub times : ℕ → List ℕ → ℕ
times a xs = count_where (λ x. x == a) xs

-- The loop has found what it had found, and what it has come upon twice.
found :
    (a : ℕ) (xs seen repeated : List ℕ)
    → has a (find_repeats xs seen repeated)
      ≡ (has a repeated || leb 2 (times a xs + (if has a seen then 1 else 0)))
unfolding has find_repeats count_where
found a [] seen repeated = ground arith
found a (x ∷ xs) seen repeated = ground (
  arith,
  found a xs (x ∷ seen)
      (if has x seen && not (has x repeated) then repeated ++ x ∷ [] else repeated),
  has-++ a repeated x,
)

-- A request passes exactly when it asks for each amount once at most, and otherwise the error names the
-- amounts that it asks for twice or more, those and no others.
pub assert_no_repeats_lem :
    (xs : List ℕ)
    → ((assert_no_repeats xs ≡ ok tt) × ((a : ℕ) → times a xs ≤ 1))
      ⊎ ((x : ℕ) × (rest : List ℕ) × (assert_no_repeats xs ≡ err (duplicate_amount (x ∷ rest)))
          × (2 ≤ times x xs)
          × ((a : ℕ) → has a (x ∷ rest) ≡ leb 2 (times a xs)))
unfolding assert_no_repeats has
assert_no_repeats_lem xs = decide (find_repeats xs [] []) refl
  where
    decide :
        (ds : List ℕ)
        → find_repeats xs [] [] ≡ ds
        → ((assert_no_repeats xs ≡ ok tt) × ((a : ℕ) → times a xs ≤ 1))
          ⊎ ((x : ℕ) × (rest : List ℕ) × (assert_no_repeats xs ≡ err (duplicate_amount (x ∷ rest)))
              × (2 ≤ times x xs)
              × ((a : ℕ) → has a (x ∷ rest) ≡ leb 2 (times a xs)))
    decide [] e = inl (rw e refl, λ a. let k = found a xs [] [] in ground (arith, has, rw e at k))
    decide (x ∷ rest) e = inr (
      x,
      rest,
      rw e refl,
      (let k = found x xs [] [] in ground (arith, rw e at k)),
      λ a. let k = found a xs [] [] in ground (arith, rw e at k),
    )
