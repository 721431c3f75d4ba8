-- ===== src/Wallet/Reconciliation/Sweep/Keyset.antt =====
-- Paging by the last id: in a list in strict order, what comes after the last id of a page is the rest.
use howlow.Prelude.{
  ℕ, zero, suc, ◌+◌, ◌≤◌, ◌<◌, ◌≡◌, ◌≢◌, refl, ap, Bool, true, false, some, List, [], ◌∷◌, ltb, leb,
  length, All, All-map, Bool-cases, inl, inr, rows_where, arith,
}
use howlow.Wallet.Reconciliation.Sweep.{insert_id, sort_ids, is_after, take, last_id}

abbrev pub Strict : List ℕ → Type 0
Strict [] = Unit {0}
Strict (x ∷ xs) = All (λ y. x < y) xs × Strict xs

-- A primary key.
abbrev pub Unique : List ℕ → Type 0
Unique [] = Unit {0}
Unique (x ∷ xs) = All (λ y. x ≢ y) xs × Unique xs

unfoldable pub drop : ℕ → List ℕ → List ℕ
drop zero xs = xs
drop (suc n) [] = []
drop (suc n) (x ∷ xs) = drop n xs

pub All-insert_id {ℓ} :
    (P : ℕ → Type ℓ) (x : ℕ) (xs : List ℕ) → P x → All P xs → All P (insert_id x xs)
unfolding insert_id
All-insert_id P x [] p h = (p, tt)
All-insert_id P x (y ∷ ys) p h = elim (Bool-cases (leb x y)) [
  | inl before ↦ rw before (p, h)
  | inr behind ↦ rw behind (h.0, All-insert_id P x ys p h.1)
]

pub All-sort_ids {ℓ} : (P : ℕ → Type ℓ) (xs : List ℕ) → All P xs → All P (sort_ids xs)
unfolding sort_ids
All-sort_ids P [] h = tt
All-sort_ids P (x ∷ xs) h = All-insert_id P x (sort_ids xs) h.0 (All-sort_ids P xs h.1)

insert_id-Strict : (x : ℕ) (xs : List ℕ) → All (λ y. x ≢ y) xs → Strict xs → Strict (insert_id x xs)
unfolding insert_id
insert_id-Strict x [] new s = (tt, tt)
insert_id-Strict x (y ∷ ys) new s = elim (Bool-cases (leb x y)) [
  | inl before ↦
      let lt : x < y = ground (arith, new.0) in
      rw before ((lt, All-map _ _ ys (λ z h. omega arith) s.0), s)
  | inr behind ↦
      rw behind (All-insert_id _ x ys (ground arith) s.0, insert_id-Strict x ys new.1 s.1)
]

pub sort_ids-Strict : (xs : List ℕ) → Unique xs → Strict (sort_ids xs)
unfolding sort_ids
sort_ids-Strict [] u = tt
sort_ids-Strict (x ∷ xs) u =
    insert_id-Strict x (sort_ids xs) (All-sort_ids _ xs u.0) (sort_ids-Strict xs u.1)

length-insert_id : (x : ℕ) (xs : List ℕ) → length (insert_id x xs) ≡ length xs + 1
unfolding insert_id
length-insert_id x [] = refl
length-insert_id x (y ∷ ys) = ground (arith, length-insert_id x ys)

pub length-sort_ids : (xs : List ℕ) → length (sort_ids xs) ≡ length xs
unfolding sort_ids
length-sort_ids [] = refl
length-sort_ids (x ∷ xs) = omega (arith, length-insert_id x (sort_ids xs), length-sort_ids xs)

pub rows_where_all : (p : ℕ → Bool) (xs : List ℕ) → All (λ x. p x ≡ true) xs → rows_where p xs ≡ xs
unfolding rows_where
rows_where_all p [] h = refl
rows_where_all p (x ∷ xs) h = ground (arith, rows_where_all p xs h.1)

-- A stronger test after a weaker one.
pub rows_where-rows_where :
    (p q : ℕ → Bool) (xs : List ℕ)
    → ((x : ℕ) → q x ≡ true → p x ≡ true)
    → rows_where q (rows_where p xs) ≡ rows_where q xs
unfolding rows_where
rows_where-rows_where p q [] weaker = refl
rows_where-rows_where p q (x ∷ xs) weaker =
    ground (arith, weaker x, rows_where-rows_where p q xs weaker)

-- A selection keeps what all rows have.
pub All-kept {ℓ} :
    (P : ℕ → Type ℓ) (p : ℕ → Bool) (xs : List ℕ) → All P xs → All P (rows_where p xs)
unfolding rows_where
All-kept P p [] h = tt
All-kept P p (x ∷ xs) h = elim (Bool-cases (p x)) [
  | inl t ↦ rw t (h.0, All-kept P p xs h.1)
  | inr f ↦ rw f (All-kept P p xs h.1)
]

pub All-take {ℓ} : (P : ℕ → Type ℓ) (b : ℕ) (xs : List ℕ) → All P xs → All P (take b xs)
unfolding take
All-take P zero xs h = tt
All-take P (suc b) [] h = tt
All-take P (suc b) (x ∷ xs) h = (h.0, All-take P b xs h.1)

pub All-rows_where : (p : ℕ → Bool) (xs : List ℕ) → All (λ x. p x ≡ true) (rows_where p xs)
unfolding rows_where
All-rows_where p [] = tt
All-rows_where p (x ∷ xs) = elim (Bool-cases (p x)) [
  | inl t ↦ rw t (t, All-rows_where p xs)
  | inr f ↦ rw f (All-rows_where p xs)
]

pub Strict-rows_where : (p : ℕ → Bool) (xs : List ℕ) → Strict xs → Strict (rows_where p xs)
unfolding rows_where
Strict-rows_where p [] s = tt
Strict-rows_where p (x ∷ xs) s = elim (Bool-cases (p x)) [
  | inl t ↦ rw t (All-kept _ p xs s.0, Strict-rows_where p xs s.1)
  | inr f ↦ rw f (Strict-rows_where p xs s.1)
]

-- A full page of a list in strict order, its last id, and what comes after that id.
pub page_full :
    (b x : ℕ) (xs : List ℕ)
    → Strict (x ∷ xs)
    → suc b ≤ length (x ∷ xs)
    → (l : ℕ) × (last_id (take (suc b) (x ∷ xs)) ≡ some l)
      × (x ≤ l)
      × (rows_where (is_after (some l)) (x ∷ xs) ≡ drop (suc b) (x ∷ xs))
unfolding take last_id drop rows_where
page_full zero x xs s h = (
  x,
  refl,
  omega arith,
  ground (arith, rows_where_all (ltb x) xs (All-map _ _ xs (λ y t. ground arith) s.0)),
)
page_full (suc b) x [] s h = absurd (omega arith)
page_full (suc b) x (y ∷ ys) s h =
    let (l, last, above, rest) = page_full b y ys s.1 (omega arith) in
    (
      l,
      last,
      omega (arith, s.0.0),
      let skipped : ltb l x ≡ false = ground (arith, s.0.0) in rw skipped rest,
    )

pub length-take : (b : ℕ) (xs : List ℕ) → b ≤ length xs → length (take b xs) ≡ b
unfolding take
length-take zero xs h = refl
length-take (suc b) [] h = absurd (omega arith)
length-take (suc b) (x ∷ xs) h = omega (arith, length-take b xs)

pub take_all : (b : ℕ) (xs : List ℕ) → length xs < b → take b xs ≡ xs
unfolding take
take_all zero xs h = absurd (omega arith)
take_all (suc b) [] h = refl
take_all (suc b) (x ∷ xs) h = ap (λ ys. x ∷ ys) (take_all b xs (omega arith))

pub length-drop : (b : ℕ) (xs : List ℕ) → b ≤ length xs → length (drop b xs) + b ≡ length xs
unfolding drop
length-drop zero xs h = omega arith
length-drop (suc b) [] h = absurd (omega arith)
length-drop (suc b) (x ∷ xs) h = omega (arith, length-drop b xs)
