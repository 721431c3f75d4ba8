-- ===== src/Results/Workflow/Deciding.antt =====
-- Deciding an auction that is being counted does not fail.
use howlow.Prelude.{◌≡◌, refl, ◌∙◌, true, false, none, some, List, ◌∷◌, arith}
use howlow.Errors.{ok, >>=-ok}
use howlow.Auctions.Transitions.{closing, calculating, completed, status_eq, AuctionAction}
use howlow.Auctions.Transitions
use howlow.Auctions.Rows.{AuctionRecord, AuctionAudit, find_auction}
use howlow.Auctions.Lifecycle.{set_completed}
use howlow.Auctions.Lifecycle.Moves.{moved_rows}
use howlow.Results.Checksum.{Postgres}
use howlow.Results.Rows.{ResultAudit, ResultRecord, ResultDb, find_result}
use howlow.Results.Repository.{
  ResultSeed, InsertResultInput, insert_result, new_result, passes_checks,
}
use howlow.Results.Close.{
  Seeds, Decision, result_input, apply_consequences, audit_decision, complete_open, settle_decision,
  decide, load_closable, outcome_action,
}
use howlow.Results.Close.Checks.{passes_checks-result_input}
use howlow.Results.Close.Effect.{complete_calculating}
use howlow.Results.Close.Consequence.{apply_consequences_cases}
use howlow.Results.Close.Again.{load_closable-found}
use howlow.Results.Workflow.Progress.{
  IsUndecided, IsWhole, apply_consequences_succeeds, new_result-IsWhole,
}

insert_result_fresh :
    (seed : ResultSeed) (i : InsertResultInput) (db : ResultDb)
    → passes_checks i ≡ true
    → find_result i.auction_id db.results ≡ none
    → insert_result seed i db
      ≡ ok ((new_result seed i, true), record db { results = new_result seed i ∷ db.results })
unfolding insert_result
insert_result_fresh seed i db checks free = rw (checks, free) refl

complete_open_succeeds :
    (a : AuctionRecord) (db : ResultDb)
    → find_auction a.id db.tables.auctions.auctions ≡ some a
    → a.status ≡ calculating
    → (after : ResultDb) × (complete_open a db ≡ ok (tt, after))
unfolding complete_open
complete_open_succeeds a db found at =
    let e = complete_calculating db.tables.auctions a found at in
    (
      record db {
        tables = record (db.tables) {
          auctions =
              moved_rows a set_completed AuctionAudit.completed_audit db.tables.auctions.inventory
                db.tables.auctions;
        };
      },
      ground (arith, e, at),
    )

settle_decision_succeeds :
    (pg : Postgres) (seeds : Seeds) (a : AuctionRecord) (r : ResultRecord)
    (rows : List ResultRecord) (db : ResultDb)
    → IsUndecided a db
    → a.status ≡ calculating
    → IsWhole r
    → (d : Decision) × (after : ResultDb) × (settle_decision seeds a
          (r, true)
          (record db { results = rows })
        ≡ ok (d, after))
      × (d.inserted ≡ true)
unfolding settle_decision audit_decision
settle_decision_succeeds pg seeds a r rows db u at whole =
    let (order, db1, run) = apply_consequences_succeeds seeds a r db u whole rows in
    let (_, _, _, auctions) =
      apply_consequences_cases seeds a r (record db { results = rows }) db1 order u.stock run in
    let db2 : ResultDb = record db1 {
      audit =
          (outcome_action r.outcome, a.id) ∷ ((ResultAudit.result_calculated, a.id) ∷ db1.audit);
    } in
    let (db3, last) = complete_open_succeeds a db2 (rw auctions u.found) at in
    (
      record { auction = a; result = r; order = order; inserted = true },
      db3,
      >>=-ok (apply_consequences seeds a r) _ (record db { results = rows }) db1 order run
          ∙ >>=-ok (complete_open a) _ db2 db3 tt last,
      refl,
    )

-- Deciding an auction that is being counted and has no result does not fail.
pub decide_succeeds :
    (pg : Postgres) (seeds : Seeds) (a : AuctionRecord) (db : ResultDb)
    → IsUndecided a db
    → a.status ≡ calculating
    → (d : Decision) × (after : ResultDb) × (decide pg seeds a.id db ≡ ok (d, after))
      × (d.inserted ≡ true)
unfolding decide
decide_succeeds pg seeds a db u at =
    let i = result_input pg a db.tables.bids in
    let r = new_result seeds.result i in
    let open_still : status_eq a.status Transitions.cancelled ≡ false = rw at refl in
    let (d, after, run, fresh) =
      settle_decision_succeeds pg seeds a r (r ∷ db.results) db u at
        (new_result-IsWhole pg seeds.result a db.tables.bids open_still) in
    (
      d,
      after,
      >>=-ok (load_closable a.id) _ db db a (load_closable-found a db u.found (rw at refl))
          ∙ >>=-ok (insert_result seeds.result i) _ db (record db { results = r ∷ db.results })
              (r, true)
              (insert_result_fresh seeds.result i db
                (passes_checks-result_input pg a db.tables.bids u.positive open_still) u.undecided)
          ∙ run,
      fresh,
    )
