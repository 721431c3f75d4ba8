-- ===== src/Results/Trust/Decision.antt =====
-- What deciding an auction does to the table of auctions.
use howlow.Prelude.{
  ℕ, ◌≡◌, ap, subst, refl, sym, ◌∙◌, inl, inr, Bool, false, Option, none, arith, Bool-cases,
}
use howlow.Errors.{ok_state, ok, >>=-eq-ok, Result-cases}
use howlow.Catalog.Inventory.{release_unit}
use howlow.Catalog.Inventory.Invariant
use howlow.Catalog.Inventory.Release.{release_unit-IsValid}
use howlow.Auctions.Transitions.{status_eq}
use howlow.Auctions.Transitions
use howlow.Auctions.Rows.{AuctionRecord, AuctionDb}
use howlow.Auctions.Lifecycle.{TransitionResult, complete}
use howlow.Auctions.Lifecycle.Moves.{Outcome, stayed}
use howlow.Auctions.Lifecycle.Moves.Handlers.{complete-Outcome}
use howlow.Auctions.Lifecycle.Orderly.{IsOrderly}
use howlow.Orders.{OrderRecord}
use howlow.Results.Checksum.{Postgres}
use howlow.Results.Rows.{ResultRecord, ResultDb}
use howlow.Results.Repository.{insert_result}
use howlow.Results.Close.{
  Seeds, Decision, load_closable, result_input, apply_consequences, is_winner, audit_decision,
  complete_open, settle_decision, decide,
}
use howlow.Results.Close.Effect.{load_closable_cases, insert_result_cases}
use howlow.Results.Close.Consequence.{owe_order_cases, is_winner_sound, apply_consequences_cases}
use howlow.Results.Close.Decided.{audit_decision_cases}

apply_consequences-IsValid :
    (seeds : Seeds) (a : AuctionRecord) (r : ResultRecord) (db after : ResultDb)
    (order : Option OrderRecord)
    → Invariant.IsValid db.tables.auctions.inventory
    → apply_consequences seeds a r db ≡ ok (order, after)
    → Invariant.IsValid after.tables.auctions.inventory
unfolding apply_consequences
apply_consequences-IsValid seeds a r db after order v h = elim (Bool-cases (is_winner r.outcome)) [
  | inl t ↦
      let (_, _, _, auctions) =
        owe_order_cases seeds a r db after order (is_winner_sound r.outcome t) (rw t at h) in
      rw auctions v
  | inr n ↦
      elim (Result-cases
        (release_unit a.id (seeds.reasons r.outcome) seeds.now db.tables.auctions.inventory)) [
          | inl (e, f) ↦ absurd (ground arith)
          | inr ((o, inv), f) ↦
              let same : after.tables.auctions.inventory ≡ inv = ground arith in
              rw same (
                release_unit-IsValid a.id seeds.now (seeds.reasons r.outcome)
                  db.tables.auctions.inventory inv o v f)
        ]
]

complete_open_moves :
    (a : AuctionRecord) (db after : ResultDb) (u : Unit {0})
    → complete_open a db ≡ ok (u, after)
    → (r : TransitionResult) × Outcome db.tables.auctions r after.tables.auctions
unfolding complete_open
complete_open_moves a db after u h = elim (Bool-cases (status_eq a.status Transitions.cancelled)) [
  | inl t ↦ (record { auction = a; changed = false; pending = none }, stayed (ground arith) refl)
  | inr n ↦ elim (Result-cases (complete a.id db.tables.auctions)) [
    | inl (e, f) ↦ absurd (ground arith)
    | inr ((r, t), f) ↦
        let same : after.tables.auctions ≡ t = ground arith in
        (r, rw same (complete-Outcome a.id db.tables.auctions t r f))
  ]
]

IsOrderly-with :
    (db mid : AuctionDb)
    → mid.auctions ≡ db.auctions
    → IsOrderly db
    → Invariant.IsValid mid.inventory
    → IsOrderly mid
IsOrderly-with db mid same v stock = record {
  keyed = rw same v.keyed;
  resumable = rw same v.resumable;
  inventory = stock;
}

Outcome-between :
    (mid mid' t t' : AuctionDb) (r : TransitionResult)
    → mid' ≡ mid
    → t' ≡ t
    → Outcome mid' r t
    → Outcome mid r t'
Outcome-between mid mid' t t' r e f out =
    subst (λ x. Outcome mid r x) (sym f) (subst (λ x. Outcome x r t) e out)

settle_decision_moves :
    (seeds : Seeds) (a : AuctionRecord) (row : ResultRecord × Bool) (db after : ResultDb)
    (d : Decision)
    → IsOrderly db.tables.auctions
    → settle_decision seeds a row db ≡ ok (d, after)
    → (mid : AuctionDb) × (mid.auctions ≡ db.tables.auctions.auctions)
      × IsOrderly mid
      × ((r : TransitionResult) × Outcome mid r after.tables.auctions)
unfolding settle_decision
settle_decision_moves seeds a row db after d v h =
    let (order, db2, h2, k2) = >>=-eq-ok (apply_consequences seeds a row.0) _ db (d, after) h in
    let stock = apply_consequences-IsValid seeds a row.0 db db2 order v.inventory h2 in
    let (_, _, _, same) = apply_consequences_cases seeds a row.0 db db2 order v.inventory h2 in
    let (u, db3, h3, k3) = >>=-eq-ok (audit_decision a row.0 row.1) _ db2 (d, after) k2 in
    let audited : db3.tables.auctions ≡ db2.tables.auctions =
      ap (λ (x : ResultDb). x.tables.auctions) (audit_decision_cases a row.0 row.1 db2 db3 u h3) in
    let (w, db4, h4, k4) = >>=-eq-ok (complete_open a) _ db3 (d, after) k3 in
    let (r, out) = complete_open_moves a db3 db4 w h4 in
    let last : after.tables.auctions ≡ db4.tables.auctions =
      ap (λ (x : ResultDb). x.tables.auctions) (ok_state _ d db4 after k4) in
    (
      db2.tables.auctions,
      same,
      IsOrderly-with db.tables.auctions db2.tables.auctions same v stock,
      (
        r,
        Outcome-between db2.tables.auctions db3.tables.auctions db4.tables.auctions
            after.tables.auctions r audited last out,
      ),
    )

inserted_moves :
    (seeds : Seeds) (a : AuctionRecord) (row : ResultRecord × Bool) (db db1 after : ResultDb)
    (d : Decision)
    → db1.tables ≡ db.tables
    → IsOrderly db.tables.auctions
    → settle_decision seeds a row db1 ≡ ok (d, after)
    → (mid : AuctionDb) × (mid.auctions ≡ db.tables.auctions.auctions)
      × IsOrderly mid
      × ((r : TransitionResult) × Outcome mid r after.tables.auctions)
inserted_moves seeds a row db db1 after d tables v h =
    let auctions : db1.tables.auctions ≡ db.tables.auctions = rw tables refl in
    let (mid, same, orderly, moves) =
      settle_decision_moves seeds a row db1 after d (rw auctions v) h in
    (mid, same ∙ rw auctions refl, orderly, moves)

-- A decision moves auctions as one call of the lifecycle does, from the same auctions and a stock that
-- is counted.
pub decide_moves :
    (pg : Postgres) (seeds : Seeds) (id : ℕ) (db after : ResultDb) (d : Decision)
    → IsOrderly db.tables.auctions
    → decide pg seeds id db ≡ ok (d, after)
    → (mid : AuctionDb) × (mid.auctions ≡ db.tables.auctions.auctions)
      × IsOrderly mid
      × ((r : TransitionResult) × Outcome mid r after.tables.auctions)
unfolding decide
decide_moves pg seeds id db after d v h =
    let (a, db0, h0, k0) = >>=-eq-ok (load_closable id) _ db (d, after) h in
    let (_, _, same0) = load_closable_cases id db db0 a h0 in
    let (row, db1, h1, k1) =
      >>=-eq-ok (insert_result seeds.result (result_input pg a db.tables.bids)) _ db (d, after)
        (rw same0 at k0) in
    let (_, wrote) =
      insert_result_cases seeds.result (result_input pg a db.tables.bids) db db1 row.0 row.1 h1 in
    let tables : db1.tables ≡ db.tables = elim wrote [
      | inl (_, _, same) ↦ rw same refl
      | inr (_, _, _, same) ↦ rw same refl
    ] in
    inserted_moves seeds a row db db1 after d tables v k1
