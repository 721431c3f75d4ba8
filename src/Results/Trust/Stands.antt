-- ===== src/Results/Trust/Stands.antt =====
-- A published result stands.
use howlow.Prelude.{ℕ, ◌≡◌, refl, sym, ◌∙◌, ap, inl, inr, true, some, List, subst}
use howlow.Errors.{ok}
use howlow.Auctions.Transitions.{AuctionStatus, live, status_eq, is_terminal, completed}
use howlow.Auctions.Transitions
use howlow.Auctions.Rows.{AuctionRecord, find_auction}
use howlow.Auctions.Lifecycle.Moves.{status_eq_sound}
use howlow.Auctions.Lifecycle.Orderly.{IsOrderly, Outcome-IsOrderly}
use howlow.Bidding.Rows.{BidRecord}
use howlow.Results.Checksum.{Postgres}
use howlow.Results.Rows.{ResultRecord, ResultDb, find_result}
use howlow.Results.Close.{Seeds, Decision, decide}
use howlow.Results.Close.Decided.{Settled, decide-IsDecided, stored_after}
use howlow.Results.Verify.{verify_result, report_on}
use howlow.Results.Verify.Frozen.{frozen_rows}
use howlow.Results.Trust.Decision.{decide_moves}
use howlow.Results.Verify.Published.{verify_result-stored, report_on-new_result}
use howlow.Results.Verify.Frozen.{same_winner, same_statistics, same_checksum}
use howlow.Results.Lub.{calculate_lub_v1}
use howlow.Results.Verify.{recomputed_winner}
use howlow.Results.Rows.{AuctionOutcome, winner, no_unique_bid, no_bids, cancelled}
use howlow.Results.Trust.History.{Later}
use howlow.Results.Trust.Kept.{IsTrusted, Later-IsTrusted}

Settled-over : (a b : AuctionRecord) → Settled a b → is_terminal b.status ≡ true
Settled-over a b (inl (t, same)) =
    let at : a.status ≡ Transitions.cancelled = status_eq_sound a.status Transitions.cancelled t in
    rw (same, at) refl
Settled-over a b (inr (_, same, _)) = rw same refl

decide-IsTrusted :
    (pg : Postgres) (seeds : Seeds) (id : ℕ) (db after : ResultDb) (d : Decision)
    → IsOrderly db.tables.auctions
    → decide pg seeds id db ≡ ok (d, after)
    → IsTrusted id d.result db.tables.bids after
decide-IsTrusted pg seeds id db after d v h =
    let (mid, _, orderly, (move, out)) = decide_moves pg seeds id db after d v h in
    let (e, named) = decide-IsDecided pg seeds id db after d v.inventory h in
    let (b, found, settled) = e.settled in
    record {
      orderly = Outcome-IsOrderly mid after.tables.auctions move orderly out;
      over = (
        b,
        subst (λ i. find_auction i after.tables.auctions.auctions ≡ some b) named found,
        Settled-over d.auction b settled,
      );
      stored =
          subst (λ i. find_result i after.results ≡ some d.result) named
            (stored_after pg seeds db after d e.written);
      frozen = ap (frozen_rows id) e.kept.bids;
    }

recomputed_by :
    (o : AuctionOutcome) (r : ResultRecord) (bids rows : List BidRecord)
    → calculate_lub_v1 r.auction_id rows ≡ calculate_lub_v1 r.auction_id bids
    → recomputed_winner (record r { outcome = o }) rows
      ≡ recomputed_winner (record r { outcome = o }) bids
recomputed_by winner r bids rows same = same
recomputed_by no_unique_bid r bids rows same = same
recomputed_by no_bids r bids rows same = same
recomputed_by cancelled r bids rows same = refl

-- A report depends on the bids by their frozen rows.
report_on_frozen :
    (pg : Postgres) (r : ResultRecord) (bids rows : List BidRecord)
    → frozen_rows r.auction_id rows ≡ frozen_rows r.auction_id bids
    → (report_on pg r rows).is_ok ≡ (report_on pg r bids).is_ok
report_on_frozen pg r bids rows same =
    rw
      (
        recomputed_by r.outcome r bids rows (same_winner pg r.auction_id bids rows same),
        same_statistics pg r.auction_id bids rows same,
        same_checksum pg r.auction_id bids rows same,
      )
      refl

-- Once an auction is decided, whatever runs of the lifecycle, of the wallet, of submissions, of
-- decisions and of refunds follow, in any order: its stored result is the one that was published, and
-- verifyResult returns a report on it that nothing disagrees. The tables that it is decided from have
-- ids as keys, know where a suspended auction was, and count the stock as the lifecycle keeps it.
pub Later-verify_result :
    (pg : Postgres) (seeds : Seeds) (id : ℕ) (db after last : ResultDb) (d : Decision)
    → IsOrderly db.tables.auctions
    → decide pg seeds id db ≡ ok (d, after)
    → d.inserted ≡ true
    → Later after last
    → (verify_result pg id last ≡ ok (report_on pg d.result last.tables.bids))
      × ((report_on pg d.result last.tables.bids).is_ok ≡ true)
      × (find_result id last.results ≡ some d.result)
Later-verify_result pg seeds id db after last d v h fresh way =
    let t =
      Later-IsTrusted id d.result db.tables.bids after last
        (decide-IsTrusted pg seeds id db after d v h) way in
    let (e, named) = decide-IsDecided pg seeds id db after d v.inventory h in
    (
      verify_result-stored pg id last d.result t.stored,
      elim e.written [
        | inl (_, stale, _) ↦ absurd (cc (sym fresh ∙ stale))
        | inr (_, _, own, _) ↦
            let of_id : d.result.auction_id ≡ id = rw own named in
            report_on_frozen pg d.result db.tables.bids last.tables.bids (rw of_id t.frozen)
            ∙ rw own (report_on-new_result pg seeds.result d.auction db.tables.bids)
      ],
      t.stored,
    )
