-- ===== src/Results/Close/Effect.antt =====
-- What a committed decision has done to the tables.
use howlow.Prelude.{
  ℕ, ◌≡◌, refl, sym, ◌∙◌, ◌⊎◌, inl, inr, Bool, true, false, none, some, ◌∷◌, ◌==◌, arith,
  Bool-cases, Option-cases, first_where, first_where-update_where, ==_refl, ltb,
}
use howlow.Errors.{invalid_transition, ok, err}
use howlow.Auctions.Transitions.{calculating, completed, status_eq, can_transition, AuctionAction}
use howlow.Auctions.Lifecycle.Moves.{status_eq_sound, moved_rows, moved_result, transition_moves}
use howlow.Auctions.Rows.{AuctionRecord, AuctionDb, AuctionAudit, find_auction, stands_at}
use howlow.Auctions.Lifecycle.{
  TransitionResult, begin_transition, continue_with, complete, complete_begun, set_completed,
  unchanged,
}
use howlow.Orders.{
  OrderSeed, InsertAuctionOrderInput, new_order, OrderRecord, OrderDb, insert_auction_order,
  insert_or_find, create_winner_order, audit_created, find_by_auction,
}
use howlow.Results.Rows.{ResultRecord, ResultDb, find_result}
use howlow.Results.Repository.{
  InsertResultInput, ResultSeed, new_result, insert_result, passes_checks,
}
use howlow.Results.Close.{is_closable, load_closable}

pub load_closable_cases :
    (id : ℕ) (db after : ResultDb) (a : AuctionRecord)
    → load_closable id db ≡ ok (a, after)
    → (find_auction id db.tables.auctions.auctions ≡ some a)
      × (is_closable a.status ≡ true)
      × (after ≡ db)
unfolding load_closable
load_closable_cases id db after a h =
    elim (Option-cases (find_auction id db.tables.auctions.auctions)) [
      | inl e ↦ absurd (ground arith)
      | inr (b, e) ↦ (ground arith, ground arith, ground arith)
    ]

pub insert_result_cases :
    (seed : ResultSeed) (i : InsertResultInput) (db after : ResultDb) (r : ResultRecord) (b : Bool)
    → insert_result seed i db ≡ ok ((r, b), after)
    → (passes_checks i ≡ true)
      × (((find_result i.auction_id db.results ≡ some r) × (b ≡ false) × (after ≡ db))
          ⊎ ((find_result i.auction_id db.results ≡ none)
              × (b ≡ true)
              × (r ≡ new_result seed i)
              × (after ≡ record db { results = new_result seed i ∷ db.results })))
unfolding insert_result
insert_result_cases seed i db after r b h = elim (Bool-cases (passes_checks i)) [
  | inl t ↦ (
    t,
    elim (Option-cases (find_result i.auction_id db.results)) [
      | inl e ↦ inr (e, ground arith, ground arith, ground arith)
      | inr (x, e) ↦ inl (ground arith, ground arith, ground arith)
    ],
  )
  | inr n ↦ absurd (ground arith)
]

pub create_winner_order-found :
    (seed : OrderSeed) (i : InsertAuctionOrderInput) (db : OrderDb) (o : OrderRecord)
    → ltb 0 i.payment_window_hours ≡ true
    → find_by_auction i.auction_id db ≡ some o
    → create_winner_order seed i db ≡ ok ((o, false), db)
unfolding create_winner_order insert_auction_order insert_or_find audit_created
create_winner_order-found seed i db o t e = ground (arith, t, e)

-- An order that was made or found is the auction's order from then on.
pub create_winner_order_cases :
    (seed : OrderSeed) (i : InsertAuctionOrderInput) (db after : OrderDb) (o : OrderRecord)
    (b : Bool)
    → create_winner_order seed i db ≡ ok ((o, b), after)
    → (ltb 0 i.payment_window_hours ≡ true) × (find_by_auction i.auction_id after ≡ some o)
unfolding create_winner_order insert_auction_order insert_or_find first_where audit_created
create_winner_order_cases seed i db after o b h = elim (Bool-cases (ltb 0 i.payment_window_hours)) [
  | inl t ↦ (
    t,
    elim (Option-cases (find_by_auction i.auction_id db)) [
      | inl e ↦
          let same : after
              ≡ record { orders = new_order seed i ∷ db.orders; audit = seed.id ∷ db.audit } =
            ground arith in
          let own : o ≡ new_order seed i = ground arith in rw (same, own, ==_refl i.auction_id) refl
      | inr (x, e) ↦ ground arith
    ],
  )
  | inr n ↦ absurd (ground arith)
]

pub complete_calculating :
    (db : AuctionDb) (a : AuctionRecord)
    → find_auction a.id db.auctions ≡ some a
    → a.status ≡ calculating
    → complete a.id db
      ≡ ok (
        moved_result a set_completed none,
        moved_rows a set_completed AuctionAudit.completed_audit db.inventory db,
      )
unfolding complete begin_transition continue_with complete_begun
complete_calculating db a e at =
    ground (arith, at, e, transition_moves a set_completed AuctionAudit.completed_audit none db e)

pub complete_completed :
    (db : AuctionDb) (a : AuctionRecord)
    → find_auction a.id db.auctions ≡ some a
    → a.status ≡ completed
    → complete a.id db ≡ ok (unchanged a, db)
unfolding complete begin_transition continue_with
complete_completed db a e at = ground (arith, at, e)

complete_refused :
    (db : AuctionDb) (a : AuctionRecord)
    → find_auction a.id db.auctions ≡ some a
    → status_eq a.status completed ≡ false
    → can_transition AuctionAction.complete a.status ≡ false
    → complete a.id db ≡ err invalid_transition
unfolding complete begin_transition
complete_refused db a e n m = ground (arith, n, m, e)

-- A run of `complete` that succeeds leaves the auction completed and the stock alone.
pub complete_cases :
    (db after : AuctionDb) (a : AuctionRecord) (r : TransitionResult)
    → find_auction a.id db.auctions ≡ some a
    → complete a.id db ≡ ok (r, after)
    → (find_auction a.id after.auctions ≡ some (set_completed a))
      × (after.inventory ≡ db.inventory)
      × ((a.status ≡ calculating) ⊎ (a.status ≡ completed))
complete_cases db after a r e h = elim (Bool-cases (status_eq a.status completed)) [
  | inl t ↦
      let at : a.status ≡ completed = status_eq_sound a.status completed t in
      let run = sym h ∙ complete_completed db a e at in
      let same : after ≡ db = ground arith in
      (rw same (e ∙ ground (arith, at)), rw same refl, inr at)
  | inr n ↦ elim (Bool-cases (can_transition AuctionAction.complete a.status)) [
    | inr m ↦ absurd (ground (arith, complete_refused db a e n m))
    | inl m ↦
        let at : a.status ≡ calculating = status_eq_sound a.status calculating (ground arith) in
        let run = sym h ∙ complete_calculating db a e at in
        let same : after ≡ moved_rows a set_completed AuctionAudit.completed_audit db.inventory db =
          ground arith in
        let f =
          first_where-update_where (λ (b : AuctionRecord). b.id == a.id) (stands_at a.id a.status)
            set_completed db.auctions a (λ b. refl) e in
        let stands : stands_at a.id a.status a ≡ true = ground arith in
        (rw (same, f, stands) refl, rw same refl, inl at)
  ]
]
