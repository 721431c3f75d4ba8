-- ===== src/Results/Trust/Kept.antt =====
-- The trust rule of resultService.ts: every run of the services keeps what was decided of an auction.
use howlow.Prelude.{
  ℕ, ◌≡◌, ◌≢◌, refl, sym, ◌∙◌, ap, inl, inr, true, some, Text, List, ◌==◌, arith, Bool-cases,
  first_where, All-update_where, Keyed-update_where, first_where-update_where, first_where_holds,
  ==_iff, if◌then◌else◌,
}
use howlow.Errors.{ok, Result-cases}
use howlow.Auctions.Transitions.{AuctionStatus, live, status_eq, is_terminal}
use howlow.Auctions.Transitions.Diagram.{Edge-is_terminal}
use howlow.Auctions.Rows.{AuctionRecord, AuctionDb, find_auction}
use howlow.Auctions.Lifecycle.{TransitionResult}
use howlow.Auctions.Lifecycle.History.{Step-Outcome}
use howlow.Auctions.Lifecycle.Moves.{Outcome, IsResumable, status_eq_sound}
use howlow.Auctions.Lifecycle.Orderly.{IsOrderly, Outcome-IsOrderly, Outcome-Edge}
use howlow.Bidding.Rows.{BidRecord}
use howlow.Bidding.Tables.{BidTables, with_counters}
use howlow.Bidding.Idempotency.{KeyRow, Claim, claimed, replay, claim_key, bid_request_hash}
use howlow.Bidding.Service.{
  SubmitBidsInput, SubmitBidsOutcome, BidDb, place_bids, answer_claim, accept_bids,
}
use howlow.Results.Checksum.{Postgres}
use howlow.Results.Rows.{ResultRecord, ResultDb, find_result}
use howlow.Results.Refunds.Frame.{refund_participation_fees-PaysOnly}
use howlow.Results.Close.{Seeds, Decision, decide}
use howlow.Results.Close.Decided.{Written, decide-IsDecided}
use howlow.Results.Verify.Frozen.{frozen_rows}
use howlow.Results.Trust.Submission.{counts_bids, accept_bids-Submitted}
use howlow.Results.Trust.Decision.{decide_moves}
use howlow.Results.Trust.History.{
  Event, manages, banks, submits, decides, refunds, Later, here, next,
}

-- A decided auction in later tables: it is over, its result is `r`, and its bids are those of `bids`.
pub record IsTrusted (id : ℕ) (r : ResultRecord) (bids : List BidRecord) (db : ResultDb)
    : Type 0 where
  pub orderly : IsOrderly db.tables.auctions
  pub over :
      (b : AuctionRecord) × (find_auction id db.tables.auctions.auctions ≡ some b)
      × (is_terminal b.status ≡ true)
  pub stored : find_result id db.results ≡ some r
  pub frozen : frozen_rows id db.tables.bids ≡ frozen_rows id bids

-- One call of the lifecycle leaves a terminal auction where it is.
Outcome-over :
    (db after : AuctionDb) (r : TransitionResult) (id : ℕ)
    → IsOrderly db
    → Outcome db r after
    → (b : AuctionRecord) × (find_auction id db.auctions ≡ some b) × (is_terminal b.status ≡ true)
    → (b : AuctionRecord) × (find_auction id after.auctions ≡ some b)
      × (is_terminal b.status ≡ true)
Outcome-over db after r id v out (b, found, final) =
    let (c, g, move) = Outcome-Edge db after r id b v out found in
    (
      c,
      g,
      elim move [
        | inl same ↦ rw same final
        | inr edge ↦ absurd (cc (sym final ∙ Edge-is_terminal edge))
      ],
    )

counts_bids-IsOrderly : (x n m : ℕ) (t : AuctionDb) → IsOrderly t → IsOrderly (counts_bids x n m t)
counts_bids-IsOrderly x n m t v = record {
  keyed =
      Keyed-update_where (λ (a : AuctionRecord). a.id) (λ a. a.id == x) (with_counters n m)
        t.auctions (λ a. refl) v.keyed;
  resumable =
      All-update_where IsResumable IsResumable (λ a. a.id == x) (with_counters n m) t.auctions step
        v.resumable;
  inventory = v.inventory;
}
  where
    step :
        (a : AuctionRecord)
        → IsResumable a
        → IsResumable (if a.id == x then with_counters n m a else a)
    step a s = elim (Bool-cases (a.id == x)) [ inl t ↦ rw t s | inr f ↦ rw f s ]

counts_bids-over :
    (x n m id : ℕ) (t : AuctionDb)
    → (b : AuctionRecord) × (find_auction id t.auctions ≡ some b) × (is_terminal b.status ≡ true)
    → (b : AuctionRecord) × (find_auction id (counts_bids x n m t).auctions ≡ some b)
      × (is_terminal b.status ≡ true)
counts_bids-over x n m id t (b, found, final) =
    let f =
      first_where-update_where (λ (a : AuctionRecord). a.id == id) (λ a. a.id == x)
        (with_counters n m) t.auctions b (λ a. refl) found in
    elim (Bool-cases (b.id == x)) [
      | inl e ↦ (with_counters n m b, f ∙ rw e refl, final)
      | inr e ↦ (b, f ∙ rw e refl, final)
    ]

-- The auction that a submission finds live is not one that is over.
live_elsewhere :
    (id : ℕ) (db : AuctionDb)
    → IsOrderly db
    → (b : AuctionRecord) × (find_auction id db.auctions ≡ some b) × (is_terminal b.status ≡ true)
    → (x : ℕ) (a : AuctionRecord) → find_auction x db.auctions ≡ some a
    → status_eq a.status live ≡ true
    → a.id ≢ id
live_elsewhere id db v (b, found, final) x a e is_live same =
    let named : a.id ≡ x =
      (==_iff _ _).0 (first_where_holds (λ (c : AuctionRecord). c.id == x) db.auctions a e) in
    let twins : some a ≡ some b =
      sym e ∙ ap (λ i. find_auction i db.auctions) (sym named ∙ same) ∙ found in
    let one : a ≡ b = cc twins in
    let at : a.status ≡ live = status_eq_sound a.status live is_live in
    not_live (sym at ∙ ap (λ (c : AuctionRecord). c.status) one) final
  where
    not_live : {s : AuctionStatus} → live ≡ s → is_terminal s ≡ true → ⊥
    not_live h t = cc (rw (← h) at t)

accepted-IsTrusted :
    (id : ℕ) (r : ResultRecord) (bids : List BidRecord) (db : ResultDb) (show : ℕ → Text)
    (auction : AuctionRecord) (i : SubmitBidsInput) (amounts : List ℕ) (o : SubmitBidsOutcome)
    (t : BidTables)
    → IsTrusted id r bids db
    → accept_bids show auction i amounts db.tables ≡ ok (o, t)
    → IsTrusted id r bids (record db { tables = t })
accepted-IsTrusted id r bids db show auction i amounts o t v h =
    let (x, s) =
      accept_bids-Submitted id show auction i amounts db.tables t o
        (live_elsewhere id db.tables.auctions v.orderly v.over auction.id) h in
    record {
      orderly =
          rw s.auctions (counts_bids-IsOrderly x s.added s.joined db.tables.auctions v.orderly);
      over = rw s.auctions (counts_bids-over x s.added s.joined id db.tables.auctions v.over);
      stored = v.stored;
      frozen = s.bids ∙ v.frozen;
    }

answered-IsTrusted :
    (id : ℕ) (r : ResultRecord) (bids : List BidRecord) (db : ResultDb) (show : ℕ → Text)
    (auction : AuctionRecord) (i : SubmitBidsInput) (amounts : List ℕ) (claim : Claim)
    (keys : List KeyRow) (o : SubmitBidsOutcome) (written : BidDb)
    → IsTrusted id r bids db
    → answer_claim show auction i amounts claim (record { keys = keys; tables = db.tables })
      ≡ ok (o, written)
    → IsTrusted id r bids (record db { tables = written.tables })
unfolding answer_claim
answered-IsTrusted id r bids db show auction i amounts (replay snapshot) keys o written v h =
    let same : written.tables ≡ db.tables = ground arith in rw same v
answered-IsTrusted id r bids db show auction i amounts (claimed k) keys o written v h =
    elim (Result-cases (accept_bids show auction i amounts db.tables)) [
      | inl (e, f) ↦ absurd (ground arith)
      | inr ((p, t), f) ↦
          let same : written.tables ≡ t = ground arith in
          rw same (accepted-IsTrusted id r bids db show auction i amounts p t v f)
    ]

submitted-IsTrusted :
    (id : ℕ) (r : ResultRecord) (bids : List BidRecord) (db : ResultDb)
    (hash : ℕ → ℕ → List ℕ → Text) (show : ℕ → Text) (auction : AuctionRecord) (i : SubmitBidsInput)
    (amounts : List ℕ) (keys : List KeyRow) (o : SubmitBidsOutcome) (written : BidDb)
    → IsTrusted id r bids db
    → place_bids hash show auction i amounts (record { keys = keys; tables = db.tables })
      ≡ ok (o, written)
    → IsTrusted id r bids (record db { tables = written.tables })
unfolding place_bids
submitted-IsTrusted id r bids db hash show auction i amounts keys o written v h =
    elim (Result-cases (
      claim_key i.key_id i.idempotency_key i.user_id
        (bid_request_hash hash auction.id i.user_id amounts) keys)) [
          | inl (e, f) ↦ absurd (ground arith)
          | inr ((claim, rest), f) ↦
              answered-IsTrusted id r bids db show auction i amounts claim rest o written v
                (ground (arith, f))
        ]

decided-IsTrusted :
    (id : ℕ) (r : ResultRecord) (bids : List BidRecord) (db after : ResultDb) (pg : Postgres)
    (seeds : Seeds) (x : ℕ) (d : Decision)
    → IsTrusted id r bids db
    → decide pg seeds x db ≡ ok (d, after)
    → IsTrusted id r bids after
unfolding first_where
decided-IsTrusted id r bids db after pg seeds x d v h =
    let (mid, same, orderly, (move, out)) = decide_moves pg seeds x db after d v.orderly h in
    let (e, _) = decide-IsDecided pg seeds x db after d v.orderly.inventory h in
    record {
      orderly = Outcome-IsOrderly mid after.tables.auctions move orderly out;
      over = Outcome-over mid after.tables.auctions move id orderly out (rw same v.over);
      stored = still e.written;
      frozen = rw e.kept.bids v.frozen;
    }
  where
    still : Written pg seeds d db after → find_result id after.results ≡ some r
    still (inl (_, _, kept)) = rw kept v.stored
    still (inr (absent, _, own, rows)) = elim (Bool-cases (d.auction.id == id)) [
      | inl t ↦
          let named : d.auction.id ≡ id = (==_iff _ _).0 t in
          absurd (cc (sym (rw named at absent) ∙ v.stored))
      | inr n ↦ rw (rows, own, n) v.stored
    ]

-- Every event keeps what is trusted of a decided auction.
Event-IsTrusted :
    (id : ℕ) (r : ResultRecord) (bids : List BidRecord) (db after : ResultDb)
    → IsTrusted id r bids db
    → Event db after
    → IsTrusted id r bids after
Event-IsTrusted id r bids db after v (manages t step same) =
    let (move, out) = Step-Outcome db.tables.auctions t v.orderly step in
    rw same (record {
      orderly = Outcome-IsOrderly db.tables.auctions t move v.orderly out;
      over = Outcome-over db.tables.auctions t move id v.orderly out v.over;
      stored = v.stored;
      frozen = v.frozen;
    })
Event-IsTrusted id r bids db after v (banks w step same) =
    rw same (record { orderly = v.orderly; over = v.over; stored = v.stored; frozen = v.frozen })
Event-IsTrusted id r bids db after v (submits hash show auction i amounts keys o written run same) =
    rw same (submitted-IsTrusted id r bids db hash show auction i amounts keys o written v run)
Event-IsTrusted id r bids db after v (decides pg seeds x d run) =
    decided-IsTrusted id r bids db after pg seeds x d v run
Event-IsTrusted id r bids db after v (refunds pg seeds x same) =
    let paid = refund_participation_fees-PaysOnly pg seeds x db in
    rw same (record {
      orderly = rw paid.auctions v.orderly;
      over = rw paid.auctions v.over;
      stored = rw paid.results v.stored;
      frozen = rw paid.bids v.frozen;
    })

pub Later-IsTrusted :
    (id : ℕ) (r : ResultRecord) (bids : List BidRecord) (start db : ResultDb)
    → IsTrusted id r bids start
    → Later start db
    → IsTrusted id r bids db
Later-IsTrusted id r bids start db v here = v
Later-IsTrusted id r bids start after v (next {db = db} way event) =
    Event-IsTrusted id r bids db after (Later-IsTrusted id r bids start db v way) event
