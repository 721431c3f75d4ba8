-- ===== src/Prelude/Tables.antt =====
-- A database table as the list of its rows: WHERE, COUNT, SUM, UPDATE, and the lists' lengths.
use Prim.Native.Nat.{ℕ, suc, ◌+◌, ◌≤◌, ◌<◌}
use mathlib.Core.Path.{◌≡◌, refl, subst}
use mathlib.Core.Bool.{Bool, true, false, ◌&&◌}
use mathlib.Core.List.{List, [], ◌∷◌, ◌++◌}
use mathlib.Core.Option.{Option, none, some}
use native.Mathlib.Omega.{arith}
use mathlib.Core.Logic.{◌≢◌, inl, inr}
use howlow.Prelude.Tests.{if◌then◌else◌, Bool-cases, ◌==◌}

module _ {ℓ} {A : Type ℓ} where
  abbrev pub length : List A → ℕ
  length [] = 0
  length (x ∷ xs) = suc (length xs)

  abbrev pub All {κ} : (A → Type κ) → List A → Type κ
  All P [] = Unit
  All P (x ∷ xs) = P x × All P xs

  -- `SELECT … WHERE p`
  unfoldable pub rows_where : (A → Bool) → List A → List A
  rows_where p [] = []
  rows_where p (x ∷ xs) = let rest = rows_where p xs in if p x then x ∷ rest else rest

  -- `rows[0]` of such a query
  unfoldable pub first_where : (A → Bool) → List A → Option A
  first_where p [] = none
  first_where p (x ∷ xs) = if p x then some x else first_where p xs

  -- `SELECT count(*) … WHERE p`
  unfoldable pub count_where : (A → Bool) → List A → ℕ
  count_where p [] = 0
  count_where p (x ∷ xs) = (if p x then 1 else 0) + count_where p xs

  -- `UPDATE … SET … WHERE p`
  unfoldable pub update_where : (A → Bool) → (A → A) → List A → List A
  update_where p f [] = []
  update_where p f (x ∷ xs) = (if p x then f x else x) ∷ update_where p f xs

  pub length-rows_where : (p : A → Bool) (xs : List A) → length (rows_where p xs) ≡ count_where p xs
  unfolding rows_where count_where
  length-rows_where p [] = refl
  length-rows_where p (x ∷ xs) = ground (arith, length-rows_where p xs)

  pub count_where-le : (p : A → Bool) (xs : List A) → count_where p xs ≤ length xs
  unfolding count_where
  count_where-le p [] = omega arith
  count_where-le p (x ∷ xs) = ground (arith, count_where-le p xs)

  pub length-append : (xs ys : List A) → length (xs ++ ys) ≡ length xs + length ys
  length-append [] ys = omega arith
  length-append (x ∷ xs) ys = omega (arith, length-append xs ys)

  pub first_where_holds :
      (p : A → Bool) (xs : List A) (a : A) → first_where p xs ≡ some a → p a ≡ true
  unfolding first_where
  first_where_holds p [] a h = cc
  first_where_holds p (x ∷ xs) a h = ground (arith, first_where_holds p xs a)

  -- A row that is counted is found.
  pub first_of_count :
      (p : A → Bool) (xs : List A) → count_where p xs ≢ 0 → (a : A) × (first_where p xs ≡ some a)
  unfolding count_where first_where
  first_of_count p [] h = absurd (h refl)
  first_of_count p (x ∷ xs) h = elim (Bool-cases (p x)) [
    | inl e ↦ (x, rw e)
    | inr e ↦ rw e (first_of_count p xs (λ z. h (rw e (omega (arith, z)))))
  ]

  pub count_of_none :
      (p q : A → Bool) (xs : List A) → count_where p xs ≡ 0 → count_where (λ a. p a && q a) xs ≡ 0
  unfolding count_where
  count_of_none p q [] h = refl
  count_of_none p q (x ∷ xs) h = ground (arith, count_of_none p q xs)

  -- Where one row satisfies `p`, a further test counts it exactly when that row passes.
  pub count_of_first :
      (p q : A → Bool) (xs : List A) (a : A)
      → count_where p xs ≡ 1
      → first_where p xs ≡ some a
      → count_where (λ b. p b && q b) xs ≡ (if q a then 1 else 0)
  unfolding count_where first_where
  count_of_first p q [] a h e = cc
  count_of_first p q (x ∷ xs) a h e = ground (arith, count_of_first p q xs a, count_of_none p q xs)

  -- A query on what an update keeps finds the row that it found, as updated.
  pub first_where-update_where :
      (q p : A → Bool) (f : A → A) (xs : List A) (a : A)
      → ((b : A) → q (f b) ≡ q b)
      → first_where q xs ≡ some a
      → first_where q (update_where p f xs) ≡ some (if p a then f a else a)
  unfolding first_where update_where
  first_where-update_where q p f [] a keeps h = cc
  first_where-update_where q p f (x ∷ xs) a keeps h =
      ground (arith, keeps x, first_where-update_where q p f xs a keeps)

  -- A row that no update touches, before or after, is found as before.
  pub first_where-update_where_apart :
      (q p : A → Bool) (f : A → A) (xs : List A)
      → ((b : A) → p b ≡ true → (q b ≡ false) × (q (f b) ≡ false))
      → first_where q (update_where p f xs) ≡ first_where q xs
  unfolding first_where update_where
  first_where-update_where_apart q p f [] apart = refl
  first_where-update_where_apart q p f (x ∷ xs) apart =
      let rest = first_where-update_where_apart q p f xs apart in
      elim (Bool-cases (p x)) [
        | inl t ↦ let (a, b) = apart x t in rw (t, a, b) rest
        | inr n ↦ rw (n, rest) refl
      ]

  pub update_where-none :
      (q p : A → Bool) (f : A → A) (xs : List A)
      → ((b : A) → q b ≡ false → q (f b) ≡ false)
      → first_where q xs ≡ none
      → first_where q (update_where p f xs) ≡ none
  unfolding first_where update_where
  update_where-none q p f [] keeps h = refl
  update_where-none q p f (x ∷ xs) keeps h =
      ground (arith, keeps x, update_where-none q p f xs keeps)

  -- Where no row passes the test, or none passes a weaker one, an update changes nothing.
  pub update_where_idle :
      (q p : A → Bool) (f : A → A) (xs : List A)
      → ((b : A) → p b ≡ true → q b ≡ true)
      → first_where q xs ≡ none
      → update_where p f xs ≡ xs
  unfolding first_where update_where
  update_where_idle q p f [] weaker h = refl
  update_where_idle q p f (x ∷ xs) weaker h =
      ground (arith, weaker x, update_where_idle q p f xs weaker)

  -- A row that one query finds is a row for another that it passes.
  pub found_by_other :
      (p q : A → Bool) (xs : List A) (a : A)
      → first_where p xs ≡ some a
      → q a ≡ true
      → first_where q xs ≢ none
  unfolding first_where
  found_by_other p q [] a h t = cc
  found_by_other p q (x ∷ xs) a h t = ground (arith, found_by_other p q xs a)

  -- The first row that passes a test is the first for a stronger test that it passes.
  pub first_where_stronger :
      (p q : A → Bool) (xs : List A) (a : A)
      → ((b : A) → q b ≡ true → p b ≡ true)
      → first_where p xs ≡ some a
      → q a ≡ true
      → first_where q xs ≡ some a
  unfolding first_where
  first_where_stronger p q [] a weaker h t = cc
  first_where_stronger p q (x ∷ xs) a weaker h t =
      ground (arith, weaker x, first_where_stronger p q xs a weaker)

  pub update_where_miss :
      (q p : A → Bool) (f : A → A) (xs : List A)
      → ((a : A) → q (f a) ≡ q a)
      → first_where q (update_where p f xs) ≡ none
      → first_where q xs ≡ none
  unfolding first_where update_where
  update_where_miss q p f [] keeps h = refl
  update_where_miss q p f (x ∷ xs) keeps h =
      ground (arith, keeps x, update_where_miss q p f xs keeps)

  -- What a query counts after an update of which no row passes it, or every row passes it as before.
  pub count_where-update_where-le :
      (q p : A → Bool) (f : A → A) (xs : List A)
      → ((b : A) → p b ≡ true → q (f b) ≡ true → q b ≡ true)
      → count_where q (update_where p f xs) ≤ count_where q xs
  unfolding count_where update_where
  count_where-update_where-le q p f [] weaker = omega arith
  count_where-update_where-le q p f (x ∷ xs) weaker =
      ground (arith, weaker x, count_where-update_where-le q p f xs weaker)

  -- An update that takes a row out of a query lowers its count.
  pub count_where-update_where-lt :
      (r q p : A → Bool) (f : A → A) (xs : List A) (a : A)
      → ((b : A) → p b ≡ true → q (f b) ≡ false)
      → first_where r xs ≡ some a
      → p a ≡ true
      → q a ≡ true
      → count_where q (update_where p f xs) < count_where q xs
  unfolding count_where update_where first_where
  count_where-update_where-lt r q p f [] a out found t u = cc
  count_where-update_where-lt r q p f (x ∷ xs) a out found t u = ground (
    arith,
    out x,
    count_where-update_where-le q p f xs (λ b i j. absurd (cc (out b i, j))),
    count_where-update_where-lt r q p f xs a out,
  )

  -- An update of every row that a query counts, after which the query counts none.
  pub count_where_cleared :
      (q : A → Bool) (f : A → A) (xs : List A)
      → ((b : A) → q (f b) ≡ false)
      → count_where q (update_where q f xs) ≡ 0
  unfolding count_where update_where
  count_where_cleared q f [] out = refl
  count_where_cleared q f (x ∷ xs) out = ground (arith, out x, count_where_cleared q f xs out)

  pub count_where-none :
      (q : A → Bool) (xs : List A) → first_where q xs ≡ none → count_where q xs ≡ 0
  unfolding count_where first_where
  count_where-none q [] h = refl
  count_where-none q (x ∷ xs) h = ground (arith, count_where-none q xs)

  pub first_where-none :
      (q : A → Bool) (xs : List A) → count_where q xs ≡ 0 → first_where q xs ≡ none
  unfolding count_where first_where
  first_where-none q [] h = refl
  first_where-none q (x ∷ xs) h = ground (arith, first_where-none q xs)

module _ {ℓ κ} {A : Type ℓ} where
  pub All-map {μ} :
      (P : A → Type κ) (Q : A → Type μ) (xs : List A) → ((a : A) → P a → Q a) → All P xs → All Q xs
  All-map P Q [] f h = tt
  All-map P Q (x ∷ xs) f h = (f x h.0, All-map P Q xs f h.1)

  pub All-update_where {μ} :
      (P : A → Type κ) (Q : A → Type μ) (p : A → Bool) (f : A → A) (xs : List A)
      → ((a : A) → P a → Q (if p a then f a else a))
      → All P xs
      → All Q (update_where p f xs)
  unfolding update_where
  All-update_where P Q p f [] step h = tt
  All-update_where P Q p f (x ∷ xs) step h = (step x h.0, All-update_where P Q p f xs step h.1)

  -- A row that a query finds has what every row has.
  pub All-first_where :
      (P : A → Type κ) (p : A → Bool) (xs : List A) (a : A)
      → All P xs
      → first_where p xs ≡ some a
      → P a
  unfolding first_where
  All-first_where P p [] a h e = absurd (cc e)
  All-first_where P p (x ∷ xs) a h e = elim (Bool-cases (p x)) [
    | inl t ↦ subst P (cc (rw (t, first_where) at e)) h.0
    | inr f ↦ All-first_where P p xs a h.1 (rw (f, first_where) at e)
  ]

  pub All-zip {μ} :
      (P : A → Type κ) (Q : A → Type μ) (xs : List A)
      → All P xs
      → All Q xs
      → All (λ a. P a × Q a) xs
  All-zip P Q [] h k = tt
  All-zip P Q (x ∷ xs) h k = ((h.0, k.0), All-zip P Q xs h.1 k.1)

-- A primary key: each row is the one that its key finds.
module _ {ℓ} {A : Type ℓ} (key : A → ℕ) where
  abbrev pub Keyed : List A → Type ℓ
  Keyed xs = All (λ a. first_where (λ b. key b == key a) xs ≡ some a) xs

  pub Keyed-update_where :
      (p : A → Bool) (f : A → A) (xs : List A)
      → ((a : A) → key (f a) ≡ key a)
      → Keyed xs
      → Keyed (update_where p f xs)
  Keyed-update_where p f xs keeps keyed = All-update_where _ _ p f xs step keyed
    where
      step :
          (a : A)
          → first_where (λ b. key b == key a) xs ≡ some a
          → let a' = if p a then f a else a in
            first_where (λ b. key b == key a') (update_where p f xs) ≡ some a'
      step a h =
          let e = first_where-update_where (λ b. key b == key a) p f xs a (λ b. rw (keeps b)) h in
          elim (Bool-cases (p a)) [ inl t ↦ rw (t, keeps a) (rw t at e) | inr n ↦ rw n (rw n at e) ]
