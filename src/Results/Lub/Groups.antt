-- ===== src/Results/Lub/Groups.antt =====
-- The groups of a bid set: in ascending order, and each with the number of bids at its amount.
use howlow.Prelude.{
  ℕ, ◌+◌, ◌≤◌, ◌<◌, ◌≡◌, ◌≢◌, refl, List, [], ◌∷◌, none, some, ◌==◌, arith, ◌&&◌, if◌then◌else◌,
  count_where, rows_where, first_where,
}
use howlow.Bidding.Rows.{BidRecord, takes_part}
use howlow.Results.Lub.{
  AmountGroup, add_to_groups, group_by_amount, amount_distribution, stands_alone,
}

-- The number of bids of the auction that take part and stand at the amount.
unfoldable pub bidders_at : ℕ → List BidRecord → ℕ → ℕ
unfolding count_where
bidders_at auction_id bids amount =
    count_where (λ b. takes_part auction_id b && b.amount_minor == amount) bids

-- The number that the groups give for an amount; 0 where there is no group.
pub group_count : ℕ → List AmountGroup → ℕ
group_count amount [] = 0
group_count amount (g ∷ gs) = if g.amount_minor == amount then g.bidders else group_count amount gs

-- Amounts rise along the list from the bound on, and no group is empty.
abbrev pub Ascending : ℕ → List AmountGroup → Type 0
Ascending low [] = Unit {0}
Ascending low (g ∷ gs) =
    (low ≤ g.amount_minor) × (0 < g.bidders) × Ascending (g.amount_minor + 1) gs

pub add_to_groups-Ascending :
    (low amount : ℕ) (gs : List AmountGroup)
    → low ≤ amount
    → Ascending low gs
    → Ascending low (add_to_groups amount gs)
unfolding add_to_groups
add_to_groups-Ascending low amount [] h s = (h, omega arith, tt)
add_to_groups-Ascending low amount (g ∷ gs) h s =
    ground (arith, add_to_groups-Ascending (g.amount_minor + 1) amount gs)

pub group_by_amount-Ascending : (bs : List BidRecord) → Ascending 0 (group_by_amount bs)
unfolding group_by_amount
group_by_amount-Ascending [] = tt
group_by_amount-Ascending (b ∷ bs) =
    add_to_groups-Ascending 0 b.amount_minor (group_by_amount bs) (omega arith)
      (group_by_amount-Ascending bs)

-- Below its bound an ascending list has no group.
pub group_count_below :
    (low amount : ℕ) (gs : List AmountGroup)
    → Ascending low gs
    → amount < low
    → group_count amount gs ≡ 0
unfolding group_count
group_count_below low amount [] s h = refl
group_count_below low amount (g ∷ gs) s h =
    ground (arith, group_count_below (g.amount_minor + 1) amount gs s.2)

pub group_count-add :
    (low a m : ℕ) (gs : List AmountGroup)
    → Ascending low gs
    → group_count m (add_to_groups a gs) ≡ (if a == m then 1 else 0) + group_count m gs
unfolding group_count add_to_groups
group_count-add low a m [] s = ground arith
group_count-add low a m (g ∷ gs) s = ground (
  arith,
  group_count-add (g.amount_minor + 1) a m gs s.2,
  group_count_below (g.amount_minor + 1) a gs s.2,
)

pub group_count-distribution :
    (auction_id amount : ℕ) (bids : List BidRecord)
    → group_count amount (amount_distribution auction_id bids) ≡ bidders_at auction_id bids amount
unfolding amount_distribution group_count bidders_at
group_count-distribution auction_id amount [] = refl
group_count-distribution auction_id amount (b ∷ bs) = ground (
  arith,
  group_count-distribution auction_id amount bs,
  group_count-add 0 b.amount_minor amount (amount_distribution auction_id bs)
      (group_by_amount-Ascending (rows_where (takes_part auction_id) bs)),
)

-- The first lonely group is the lowest amount whose count is one.
pub first_alone :
    (low : ℕ) (gs : List AmountGroup) (g : AmountGroup)
    → Ascending low gs
    → first_where stands_alone gs ≡ some g
    → (group_count g.amount_minor gs ≡ 1)
      × (low ≤ g.amount_minor)
      × ((m : ℕ) → m < g.amount_minor → group_count m gs ≢ 1)
unfolding first_where group_count
first_alone low [] g s e = cc
first_alone low (x ∷ gs) g s e = (
  ground (arith, first_alone (x.amount_minor + 1) gs g s.2),
  ground (arith, first_alone (x.amount_minor + 1) gs g s.2),
  λ m h. grind (
    arith,
    first_alone (x.amount_minor + 1) gs g s.2,
    group_count_below (x.amount_minor + 1) m gs s.2,
  ),
)

pub no_first_alone :
    (gs : List AmountGroup) → first_where stands_alone gs ≡ none → (m : ℕ) → group_count m gs ≢ 1
unfolding first_where group_count
no_first_alone [] e m = ground arith
no_first_alone (g ∷ gs) e m = grind (arith, no_first_alone gs)
