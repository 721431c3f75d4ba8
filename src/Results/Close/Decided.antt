-- ===== src/Results/Close/Decided.antt =====
-- A committed decision, whole: what it read, what it wrote, and what it left alone.
use howlow.Prelude.{
  ℕ, ◌≡◌, refl, sym, ◌∙◌, ◌⊎◌, inl, inr, Bool, true, false, Option, none, some, ◌∷◌, ◌==◌, arith,
  Bool-cases, subst, first_where, first_where_holds, ==_iff, ==_refl,
}
use howlow.Errors.{ok, >>=-eq-ok, Result-cases}
use howlow.Catalog.Inventory.Invariant.{IsValid}
use howlow.Auctions.Transitions.{calculating, completed, status_eq}
use howlow.Auctions.Transitions
use howlow.Auctions.Rows.{AuctionRecord, AuctionDb, find_auction}
use howlow.Auctions.Lifecycle.{complete, set_completed}
use howlow.Orders.{OrderRecord}
use howlow.Results.Checksum.{Postgres}
use howlow.Results.Rows.{ResultRecord, ResultDb, find_result}
use howlow.Results.Repository.{new_result, insert_result, passes_checks}
use howlow.Results.Close.{
  Seeds, Decision, is_closable, load_closable, result_input, apply_consequences, audit_decision,
  complete_open, settle_decision, decide,
}
use howlow.Results.Close.Effect.{load_closable_cases, insert_result_cases, complete_cases}
use howlow.Results.Close.Consequence.{Consequence, owed, free, Kept, apply_consequences_cases}

-- The row of the auction after a decision: a cancelled one stays, any other is completed.
abbrev pub Settled : AuctionRecord → AuctionRecord → Type 0
Settled a b =
    ((status_eq a.status Transitions.cancelled ≡ true) × (b ≡ a))
    ⊎ ((status_eq a.status Transitions.cancelled ≡ false)
        × (b ≡ set_completed a)
        × ((a.status ≡ calculating) ⊎ (a.status ≡ completed)))

-- The row was there before, or it is the one that this call has computed.
abbrev pub Written : Postgres → Seeds → Decision → ResultDb → ResultDb → Type 0
Written pg seeds d db after =
    ((find_result d.auction.id db.results ≡ some d.result)
      × (d.inserted ≡ false)
      × (after.results ≡ db.results))
    ⊎ ((find_result d.auction.id db.results ≡ none)
        × (d.inserted ≡ true)
        × (d.result ≡ new_result seeds.result (result_input pg d.auction db.tables.bids))
        × (after.results ≡ d.result ∷ db.results))

pub record IsDecided (pg : Postgres) (seeds : Seeds) (db after : ResultDb) (d : Decision)
    : Type 0 where
  pub found : find_auction d.auction.id db.tables.auctions.auctions ≡ some d.auction
  pub closable : is_closable d.auction.status ≡ true
  pub checked : passes_checks (result_input pg d.auction db.tables.bids) ≡ true
  pub written : Written pg seeds d db after
  pub consequence : Consequence d.auction d.result d.order after
  pub kept : Kept db after
  pub settled :
      (b : AuctionRecord) × (find_auction d.auction.id after.tables.auctions.auctions ≡ some b)
      × Settled d.auction b

pub audit_decision_cases :
    (a : AuctionRecord) (r : ResultRecord) (inserted : Bool) (db after : ResultDb) (u : Unit {0})
    → audit_decision a r inserted db ≡ ok (u, after)
    → after ≡ record db { audit = after.audit }
unfolding audit_decision
audit_decision_cases a r true db after u h = ground arith
audit_decision_cases a r false db after u h = ground arith

complete_open_cases :
    (a : AuctionRecord) (db after : ResultDb) (u : Unit {0})
    → find_auction a.id db.tables.auctions.auctions ≡ some a
    → complete_open a db ≡ ok (u, after)
    → (t : AuctionDb) × (after ≡ record db { tables = record (db.tables) { auctions = t } })
      × (t.inventory ≡ db.tables.auctions.inventory)
      × ((b : AuctionRecord) × (find_auction a.id t.auctions ≡ some b) × Settled a b)
unfolding complete_open
complete_open_cases a db after u found h =
    elim (Bool-cases (status_eq a.status Transitions.cancelled)) [
      | inl t ↦ (db.tables.auctions, ground arith, refl, (a, found, inl (t, refl)))
      | inr n ↦ elim (Result-cases (complete a.id db.tables.auctions)) [
        | inl (e, f) ↦ absurd (ground arith)
        | inr ((r, t), f) ↦
            let (e, inv, at) = complete_cases db.tables.auctions t a r found f in
            (t, ground arith, inv, (set_completed a, e, inr (n, refl, at)))
      ]
    ]

Consequence-carries :
    (a : AuctionRecord) (r : ResultRecord) (order : Option OrderRecord) (db after : ResultDb)
    → after.orders ≡ db.orders
    → after.tables.auctions.inventory ≡ db.tables.auctions.inventory
    → Consequence a r order db
    → Consequence a r order after
Consequence-carries a r order db after same inv (owed user amount o w u m hours own found) =
    owed user amount o w u m hours own (rw same found)
Consequence-carries a r order db after same inv (free n own none_held) =
    free n own (rw inv none_held)

settle_decision_cases :
    (seeds : Seeds) (a : AuctionRecord) (r : ResultRecord) (b : Bool) (db after : ResultDb)
    (d : Decision)
    → IsValid db.tables.auctions.inventory
    → find_auction a.id db.tables.auctions.auctions ≡ some a
    → settle_decision seeds a (r, b) db ≡ ok (d, after)
    → (order : Option OrderRecord) × (d
        ≡ record { auction = a; result = r; order = order; inserted = b })
      × Consequence a r order after
      × Kept db after
      × (after.results ≡ db.results)
      × ((x : AuctionRecord) × (find_auction a.id after.tables.auctions.auctions ≡ some x)
          × Settled a x)
unfolding settle_decision
settle_decision_cases seeds a r b db after d v found h =
    let (order, db1, h1, k1) = >>=-eq-ok (apply_consequences seeds a r) _ db (d, after) h in
    let (u, db2, h2, k2) = >>=-eq-ok (audit_decision a r b) _ db1 (d, after) k1 in
    let (w, db3, h3, k3) = >>=-eq-ok (complete_open a) _ db2 (d, after) k2 in
    let (c, kept, results, auctions) = apply_consequences_cases seeds a r db db1 order v h1 in
    let same2 = audit_decision_cases a r b db1 db2 u h2 in
    let (t, same3, inv, x) = complete_open_cases a db2 db3 w (rw (same2, auctions) found) h3 in
    let last : after ≡ db3 = ground arith in
    (
      order,
      ground arith,
      rw (last, same3)
          (Consequence-carries a r order db1 _ (rw same2 refl) (rw (inv, same2) refl) c),
      record {
        wallet = rw (last, same3, same2) kept.wallet;
        bids = rw (last, same3, same2) kept.bids;
        participants = rw (last, same3, same2) kept.participants;
      },
      rw (last, same3, same2) results,
      rw (last, same3) x,
    )

pub decide-IsDecided :
    (pg : Postgres) (seeds : Seeds) (id : ℕ) (db after : ResultDb) (d : Decision)
    → IsValid db.tables.auctions.inventory
    → decide pg seeds id db ≡ ok (d, after)
    → IsDecided pg seeds db after d × (d.auction.id ≡ id)
unfolding decide
decide-IsDecided pg seeds id db after d v h =
    let (a, db0, h0, k0) = >>=-eq-ok (load_closable id) _ db (d, after) h in
    let (read, closes, same0) = load_closable_cases id db db0 a h0 in
    let named : a.id ≡ id =
      (==_iff _ _).0 (
        first_where_holds (λ (b : AuctionRecord). b.id == id) db.tables.auctions.auctions a read) in
    let own : find_auction a.id db.tables.auctions.auctions ≡ some a =
      subst (λ i. find_auction i db.tables.auctions.auctions ≡ some a) (sym named) read in
    let ((r, b), db1, h1, k1) =
      >>=-eq-ok (insert_result seeds.result (result_input pg a db.tables.bids)) _ db (d, after)
        (rw same0 at k0) in
    let (checks, wrote) =
      insert_result_cases seeds.result (result_input pg a db.tables.bids) db db1 r b h1 in
    let tables : db1.tables ≡ db.tables = elim wrote [
      | inl (_, _, same) ↦ rw same refl
      | inr (_, _, _, same) ↦ rw same refl
    ] in
    let (order, shape, c, kept, results, settled) =
      settle_decision_cases seeds a r b db1 after d (rw tables v) (rw tables own) k1 in
    rw shape (
      record {
        found = own;
        closable = closes;
        checked = checks;
        written = elim wrote [
          | inl (e, f, same) ↦ inl (e, f, results ∙ rw same refl)
          | inr (e, f, g, same) ↦ inr (e, f, g, results ∙ rw (same, g) refl)
        ];
        consequence = c;
        kept = record {
          wallet = kept.wallet ∙ rw tables refl;
          bids = kept.bids ∙ rw tables refl;
          participants = kept.participants ∙ rw tables refl;
        };
        settled = settled;
      },
      named,
    )

-- The row is there after the decision.
pub stored_after :
    (pg : Postgres) (seeds : Seeds) (db after : ResultDb) (d : Decision)
    → Written pg seeds d db after
    → find_result d.auction.id after.results ≡ some d.result
unfolding first_where
stored_after pg seeds db after d (inl (e, _, same)) = rw same e
stored_after pg seeds db after d (inr (_, _, own, same)) = rw (same, own, ==_refl d.auction.id) refl
