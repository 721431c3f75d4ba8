-- ===== src/Results/Lub/Order.antt =====
-- The winner depends on the set of bids and on nothing else: neither the order in which the rows come
-- nor the channel of a bid.
use mathlib.Core.List.{Perm, Permᴰ}
use mathlib.Core.Logic.{∥∥₁_elim}
use native.Mathlib.Nat.{ℕ_set}
use howlow.Prelude.{ℕ, ◌≡◌, ◌∙◌, sym, refl, List, Bool, inl, inr, arith, Option-cases, count_where}
use howlow.Bidding.Rows.{BidRecord}
use howlow.Results.Lub.{calculate_lub_v1}
use howlow.Results.Lub.Groups.{bidders_at}
use howlow.Results.Lub.Winner.{
  calculate_lub_v1-IsLub, IsLub-calculate_lub_v1, calculate_lub_v1-none,
}

count_where-permᴰ {ℓ} :
    {A : Type ℓ} (p : A → Bool) {xs ys : List A} → Permᴰ xs ys → count_where p xs ≡ count_where p ys
unfolding count_where
count_where-permᴰ p Permᴰ.nil = refl
count_where-permᴰ p (Permᴰ.cons e r) = rw (e, count_where-permᴰ p r)
count_where-permᴰ p (Permᴰ.swap e f) = rw (e, f) (omega arith)
count_where-permᴰ p (Permᴰ.trans r s) = count_where-permᴰ p r ∙ count_where-permᴰ p s

count_where-perm {ℓ} :
    {A : Type ℓ} (p : A → Bool) {xs ys : List A} → Perm xs ys → count_where p xs ≡ count_where p ys
count_where-perm p r = ∥∥₁_elim r (ℕ_set _ _) (count_where-permᴰ p)

bidders_at-perm :
    (auction_id : ℕ) {bids rows : List BidRecord} (m : ℕ)
    → Perm bids rows
    → bidders_at auction_id bids m ≡ bidders_at auction_id rows m
unfolding bidders_at
bidders_at-perm auction_id m r = count_where-perm _ r

-- Two lists that hold the same rows, in whatever order, have the same winner or none.
pub calculate_lub_v1-perm :
    (auction_id : ℕ) (bids rows : List BidRecord)
    → Perm bids rows
    → calculate_lub_v1 auction_id bids ≡ calculate_lub_v1 auction_id rows
calculate_lub_v1-perm auction_id bids rows r =
    elim (Option-cases (calculate_lub_v1 auction_id bids)) [
      | inl e ↦
          e
          ∙ sym (
              (calculate_lub_v1-none auction_id rows).1 λ m h.
                (calculate_lub_v1-none auction_id bids).0 e m (bidders_at-perm auction_id m r ∙ h))
      | inr (w, e) ↦
          let v = calculate_lub_v1-IsLub auction_id bids w e in
          e
          ∙ sym (
              IsLub-calculate_lub_v1 auction_id rows w (record {
                alone = sym (bidders_at-perm auction_id w.amount_minor r) ∙ v.alone;
                lowest = λ m h k. v.lowest m h (bidders_at-perm auction_id m r ∙ k);
                placed = sym (count_where-perm _ r) ∙ v.placed;
              }))
    ]
