-- ===== src/Results/Close/Verdict.antt =====
-- What a decision says and does, against the description of the winner that README.md gives.
use howlow.Prelude.{
  ℕ, ◌≡◌, ◌≢◌, refl, sym, ◌∙◌, ◌⊎◌, inl, inr, Bool, true, false, Option, none, some, List, ◌==◌,
  Bool-cases, Option-cases, if◌then◌else◌,
}
use howlow.Errors.{ok}
use howlow.Catalog.Inventory.{find_held_reservation}
use howlow.Catalog.Inventory.Invariant.{IsValid}
use howlow.Auctions.Transitions.{status_eq}
use howlow.Auctions.Transitions
use howlow.Auctions.Rows.{AuctionRecord}
use howlow.Bidding.Rows.{BidRecord}
use howlow.Orders.{OrderRecord, find_by_auction}
use howlow.Results.Lub.{LubWinner, count_frozen_bids, calculate_lub_v1}
use howlow.Results.Lub.Groups.{bidders_at}
use howlow.Results.Lub.Winner.{IsLub, calculate_lub_v1-IsLub, calculate_lub_v1-none}
use howlow.Results.Checksum.{Postgres}
use howlow.Results.Rows.{winner, no_unique_bid, no_bids, cancelled, ResultRecord, ResultDb}
use howlow.Results.Repository.{new_result}
use howlow.Results.Close.{Seeds, Decision, is_winner, decide, result_input}
use howlow.Results.Close.Consequence.{Consequence, owed, free}
use howlow.Results.Close.Decided.{decide-IsDecided}

-- The auction was pulled: its result names no winner, and no unit is held for it.
pub record IsPulled (d : Decision) (after : ResultDb) : Type 0 where
  pub status : status_eq d.auction.status Transitions.cancelled ≡ true
  pub outcome : d.result.outcome ≡ cancelled
  pub no_winner : d.result.winner_user_id ≡ none
  pub no_order : d.order ≡ none
  pub no_unit : find_held_reservation d.auction.id after.tables.auctions.inventory ≡ none

-- One bid stands alone at the lowest such amount: the result names it, and an order is there for it.
pub record IsWon (d : Decision) (bids : List BidRecord) (after : ResultDb) : Type 0 where
  pub lub : LubWinner
  pub lowest : IsLub d.auction.id bids lub
  pub outcome : d.result.outcome ≡ winner
  pub bid : d.result.winning_bid_id ≡ some lub.bid_id
  pub user : d.result.winner_user_id ≡ some lub.user_id
  pub amount : d.result.winning_amount_minor ≡ some lub.amount_minor
  pub order : find_by_auction d.auction.id after.orders ≢ none
  pub reported : d.order ≡ find_by_auction d.auction.id after.orders

-- No amount was chosen by exactly one bid: nobody won, and no unit is held for the auction.
pub record IsUnsold (d : Decision) (bids : List BidRecord) (after : ResultDb) : Type 0 where
  pub nowhere_alone : (m : ℕ) → bidders_at d.auction.id bids m ≢ 1
  pub outcome : d.result.outcome ≡ (
      if (count_frozen_bids d.auction.id bids).total_valid_bids == 0
      then no_bids
      else no_unique_bid)
  pub no_winner : d.result.winner_user_id ≡ none
  pub no_order : d.order ≡ none
  pub no_unit : find_held_reservation d.auction.id after.tables.auctions.inventory ≡ none

free_of :
    (a : AuctionRecord) (r : ResultRecord) (order : Option OrderRecord) (db : ResultDb)
    → is_winner r.outcome ≡ false
    → Consequence a r order db
    → (order ≡ none) × (find_held_reservation a.id db.tables.auctions.inventory ≡ none)
free_of a r order db n (owed user amount o w u m hours own found) = absurd (cc (rw w at n))
free_of a r order db n (free _ own none_held) = (own, none_held)

order_of :
    (a : AuctionRecord) (r : ResultRecord) (order : Option OrderRecord) (db : ResultDb)
    → is_winner r.outcome ≡ true
    → Consequence a r order db
    → (find_by_auction a.id db.orders ≢ none) × (order ≡ find_by_auction a.id db.orders)
order_of a r order db t (owed user amount o w u m hours own found) =
    (λ z. cc (sym found ∙ z), own ∙ sym found)
order_of a r order db t (free n own none_held) = absurd (cc (sym t ∙ n))

not_winner : (b : Bool) → is_winner (if b then no_bids else no_unique_bid) ≡ false
not_winner true = refl
not_winner false = refl

module _ (pg : Postgres) (seeds : Seeds) (db after : ResultDb) (d : Decision)
    (own : d.result ≡ new_result seeds.result (result_input pg d.auction db.tables.bids))
    (c : Consequence d.auction d.result d.order after) where
  pulled : status_eq d.auction.status Transitions.cancelled ≡ true → IsPulled d after
  pulled t =
      let e : d.result.outcome ≡ cancelled = rw (own, t) refl in
      let f = free_of d.auction d.result d.order after (rw e refl) c in
      record {
        status = t;
        outcome = e;
        no_winner = rw (own, t) refl;
        no_order = f.0;
        no_unit = f.1;
      }

  won :
      (w : LubWinner)
      → status_eq d.auction.status Transitions.cancelled ≡ false
      → calculate_lub_v1 d.auction.id db.tables.bids ≡ some w
      → IsWon d db.tables.bids after
  won w n e =
      let o : d.result.outcome ≡ winner = rw (own, n, e) refl in
      let f = order_of d.auction d.result d.order after (rw o refl) c in
      record {
        lub = w;
        lowest = calculate_lub_v1-IsLub d.auction.id db.tables.bids w e;
        outcome = o;
        bid = rw (own, n, e) refl;
        user = rw (own, n, e) refl;
        amount = rw (own, n, e) refl;
        order = f.0;
        reported = f.1;
      }

  unsold :
      status_eq d.auction.status Transitions.cancelled ≡ false
      → calculate_lub_v1 d.auction.id db.tables.bids ≡ none
      → IsUnsold d db.tables.bids after
  unsold n e =
      let o : d.result.outcome ≡ (
          if (count_frozen_bids d.auction.id db.tables.bids).total_valid_bids == 0
          then no_bids
          else no_unique_bid) =
        rw (own, n, e) refl in
      let f = free_of d.auction d.result d.order after (rw o (not_winner _)) c in
      record {
        nowhere_alone = (calculate_lub_v1-none d.auction.id db.tables.bids).0 e;
        outcome = o;
        no_winner = rw (own, n, e) refl;
        no_order = f.0;
        no_unit = f.1;
      }

-- The call that decides an auction refines the rules of the README. A cancelled auction has no winner
-- and no unit. In any other, the bid that stands alone at the lowest amount wins, with an order for
-- the auction; where no bid stands alone nobody wins, and no unit stays held. The stock's counts are
-- those that the lifecycle keeps.
pub decide_cases :
    (pg : Postgres) (seeds : Seeds) (id : ℕ) (db after : ResultDb) (d : Decision)
    → IsValid db.tables.auctions.inventory
    → decide pg seeds id db ≡ ok (d, after)
    → d.inserted ≡ true
    → IsPulled d after ⊎ (IsWon d db.tables.bids after ⊎ IsUnsold d db.tables.bids after)
decide_cases pg seeds id db after d v h fresh =
    let (x, named) = decide-IsDecided pg seeds id db after d v h in
    elim x.written [
      | inl (_, stale, _) ↦ absurd (cc (sym fresh ∙ stale))
      | inr (_, _, own, _) ↦ elim (Bool-cases (status_eq d.auction.status Transitions.cancelled)) [
        | inl t ↦ inl (pulled pg seeds db after d own x.consequence t)
        | inr n ↦ elim (Option-cases (calculate_lub_v1 d.auction.id db.tables.bids)) [
          | inl e ↦ inr (inr (unsold pg seeds db after d own x.consequence n e))
          | inr (w, e) ↦ inr (inl (won pg seeds db after d own x.consequence w n e))
        ]
      ]
    ]
