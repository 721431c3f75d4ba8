-- ===== src/Results/Workflow/Liveness.antt =====
-- A closed auction is decided by one run of `closeAuction`.
use howlow.Prelude.{
  ℕ, ◌≡◌, refl, sym, ◌∙◌, ◌⊎◌, inl, inr, true, none, some, ◌==◌, arith, first_where-update_where,
  or_else, subst,
}
use howlow.Errors.{ok, >>=-ok}
use howlow.Auctions.Transitions.{closing, calculating, completed}
use howlow.Auctions.Rows.{AuctionRecord, AuctionDb, AuctionAudit, find_auction, stands_at}
use howlow.Auctions.Lifecycle.{
  begin_calculating, calculate_begun, set_calculating, begin_transition, continue_with,
}
use howlow.Auctions.Lifecycle.Moves.{moved_rows, moved_result, transition_moves}
use howlow.Results.Checksum.{Postgres}
use howlow.Results.Rows.{ResultDb, find_result}
use howlow.Results.Close.{Seeds, Decision, decide, load_closable}
use howlow.Results.Close.Decided.{IsDecided, stored_after, decide-IsDecided}
use howlow.Results.Close.Again.{load_closable-found}
use howlow.Results.Refunds.{RefundSeeds, settle_money}
use howlow.Results.Refunds.Frame.{settle_money-PaysOnly}
use howlow.Results.Workflow.{
  CloseOutcome, prepare, start_counting, decide_and_settle, close_auction, describe,
}
use howlow.Results.Workflow.Progress.{IsUndecided}
use howlow.Results.Workflow.Deciding.{decide_succeeds}

begin_calculating_closing :
    (now : ℕ) (db : AuctionDb) (a : AuctionRecord)
    → find_auction a.id db.auctions ≡ some a
    → a.status ≡ closing
    → begin_calculating a.id now db
      ≡ ok (
        moved_result a (set_calculating (or_else a.closing_at now)) none,
        moved_rows a
            (set_calculating (or_else a.closing_at now))
            AuctionAudit.calculating_audit
            db.inventory
            db,
      )
unfolding begin_calculating begin_transition continue_with calculate_begun
begin_calculating_closing now db a e at = ground (
  arith,
  at,
  e,
  transition_moves a (set_calculating (or_else a.closing_at now)) AuctionAudit.calculating_audit
      none db e,
)

-- The tables after the first transaction has moved a closing auction.
abbrev counting_rows : ℕ → AuctionRecord → ResultDb → ResultDb
counting_rows now a db = record db {
  tables = record (db.tables) {
    auctions =
        moved_rows a (set_calculating (or_else a.closing_at now)) AuctionAudit.calculating_audit
          db.tables.auctions.inventory db.tables.auctions;
  };
}

counting_rows-IsUndecided :
    (now : ℕ) (a : AuctionRecord) (db : ResultDb)
    → IsUndecided a db
    → IsUndecided (set_calculating (or_else a.closing_at now) a) (counting_rows now a db)
counting_rows-IsUndecided now a db u =
    let stands : stands_at a.id a.status a ≡ true = ground arith in
    let f =
      first_where-update_where (λ (b : AuctionRecord). b.id == a.id) (stands_at a.id a.status)
        (set_calculating (or_else a.closing_at now)) db.tables.auctions.auctions a (λ b. refl)
        u.found in
    record {
      found = f ∙ rw stands refl;
      hours = u.hours;
      stock = u.stock;
      product = u.product;
      positive = u.positive;
      undecided = u.undecided;
    }

start_counting_closing :
    (now : ℕ) (a : AuctionRecord) (db : ResultDb)
    → find_auction a.id db.tables.auctions.auctions ≡ some a
    → a.status ≡ closing
    → start_counting now a db ≡ ok ((a, true), counting_rows now a db)
unfolding start_counting
start_counting_closing now a db found at =
    ground (arith, at, begin_calculating_closing now db.tables.auctions a found at)

start_counting_resumed :
    (now : ℕ) (a : AuctionRecord) (db : ResultDb)
    → a.status ≡ calculating
    → start_counting now a db ≡ ok ((a, true), db)
unfolding start_counting
start_counting_resumed now a db at = ground (arith, at)

-- The first transaction goes on to the second, which finds the auction being counted.
prepare_succeeds :
    (now : ℕ) (a : AuctionRecord) (db : ResultDb)
    → IsUndecided a db
    → (a.status ≡ closing) ⊎ (a.status ≡ calculating)
    → (b : AuctionRecord) × (mid : ResultDb) × (prepare now a.id db ≡ ok ((a, true), mid))
      × IsUndecided b mid
      × (b.status ≡ calculating)
      × (b.id ≡ a.id)
unfolding prepare
prepare_succeeds now a db u (inl at) = (
  set_calculating (or_else a.closing_at now) a,
  counting_rows now a db,
  >>=-ok (load_closable a.id) _ db db a (load_closable-found a db u.found (rw at refl))
      ∙ start_counting_closing now a db u.found at,
  counting_rows-IsUndecided now a db u,
  refl,
  refl,
)
prepare_succeeds now a db u (inr at) = (
  a,
  db,
  >>=-ok (load_closable a.id) _ db db a (load_closable-found a db u.found (rw at refl))
      ∙ start_counting_resumed now a db at,
  u,
  at,
  refl,
)

close_auction_runs :
    (pg : Postgres) (seeds : Seeds) (refunds : RefundSeeds) (id : ℕ) (a : AuctionRecord)
    (db mid after : ResultDb) (d : Decision)
    → prepare seeds.now id db ≡ ok ((a, true), mid)
    → decide pg seeds id mid ≡ ok (d, after)
    → close_auction pg seeds refunds id db ≡ (
      ok (describe d.result d.auction d.order d.inserted),
      settle_money pg refunds d.result after,
    )
unfolding close_auction decide_and_settle
close_auction_runs pg seeds refunds id a db mid after d first second =
    rw (close_auction, first, decide_and_settle, second) refl

status_of_found :
    (db : ResultDb) (x b : AuctionRecord)
    → x.id ≡ b.id
    → find_auction x.id db.tables.auctions.auctions ≡ some x
    → find_auction b.id db.tables.auctions.auctions ≡ some b
    → b.status ≡ calculating
    → x.status ≡ calculating
status_of_found db x b same e f at =
    let twins : some x ≡ some b = sym e ∙ rw same f in let w : x ≡ b = ground arith in rw w at

completed_row :
    (pg : Postgres) (seeds : Seeds) (db after : ResultDb) (d : Decision)
    → IsDecided pg seeds db after d
    → d.auction.status ≡ calculating
    → (b : AuctionRecord) × (find_auction d.auction.id after.tables.auctions.auctions ≡ some b)
      × (b.status ≡ completed)
completed_row pg seeds db after d x at =
    let (c, row, settled) = x.settled in
    (
      c,
      row,
      elim settled [ inl (t, _) ↦ absurd (cc (rw at at t)) | inr (_, same, _) ↦ rw same refl ],
    )

-- One run of `closeAuction` decides a closing auction, and one whose count was interrupted: it returns
-- an outcome of its own decision, the result is stored, and the auction is completed. It does so where
-- nothing has decided the auction, its unit's product is there, the stock's counts are those that the
-- lifecycle keeps, and the columns of the auction and of the bids pass their CHECKs.
pub close_auction-decides :
    (pg : Postgres) (seeds : Seeds) (refunds : RefundSeeds) (a : AuctionRecord) (db : ResultDb)
    → IsUndecided a db
    → (a.status ≡ closing) ⊎ (a.status ≡ calculating)
    → (o : CloseOutcome) × (after : ResultDb) × (close_auction pg seeds refunds a.id db
        ≡ (ok o, after))
      × (o.decided ≡ true)
      × (find_result a.id after.results ≡ some o.result)
      × ((b : AuctionRecord) × (find_auction a.id after.tables.auctions.auctions ≡ some b)
          × (b.status ≡ completed))
close_auction-decides pg seeds refunds a db u at =
    let (b, mid, first, ready, counting, same) = prepare_succeeds seeds.now a db u at in
    let (d, last, run, fresh) = decide_succeeds pg seeds b mid ready counting in
    let (x, named) = decide-IsDecided pg seeds b.id mid last d ready.stock run in
    let paid = settle_money-PaysOnly pg refunds d.result last in
    let own : d.auction.id ≡ a.id = named ∙ same in
    (
      describe d.result d.auction d.order d.inserted,
      settle_money pg refunds d.result last,
      close_auction_runs pg seeds refunds a.id a db mid last d first
          (subst (λ i. decide pg seeds i mid ≡ ok (d, last)) same run),
      fresh,
      rw (paid.results, ← own) (stored_after pg seeds mid last d x.written),
      rw (paid.auctions, ← own)
          (completed_row pg seeds mid last d x
            (status_of_found mid d.auction b (named) x.found ready.found counting)),
    )
