-- ===== src/Results/Trust/Submission.antt =====
-- A submission of bids to one auction, seen from another.
use howlow.Prelude.{
  ℕ, zero, suc, ◌≡◌, ◌≢◌, refl, ◌∙◌, inl, inr, Bool, true, some, Text, List, [], ◌∷◌, ◌==◌, arith,
  Option-cases, rows_where, first_where, update_where, length, if◌then◌else◌,
}
use howlow.Prelude.Int.{ℤ}
use howlow.Errors.{ok, Result-cases, >>=-eq-ok}
use howlow.Wallet.Rows.{bid_fee}
use howlow.Wallet.Service.{get_wallet, move}
use howlow.Auctions.Transitions.{live, status_eq}
use howlow.Auctions.Rows.{AuctionRecord, AuctionDb, find_auction}
use howlow.Bidding.Rows.{BidRecord}
use howlow.Bidding.Validation.{total_fee}
use howlow.Bidding.Tables.{
  BidTables, BatchInput, ParticipantRecord, insert_rows, insert_bids, new_bid, conflicts_with,
  has_id, attach_wallet_entry, add_participant_bids, add_bid_counters, with_counters,
}
use howlow.Bidding.Service.{
  SubmitBidsInput, SubmitBidsOutcome, batch_input, insert_batch, charge_fee, book_batch,
  accept_bids, fee_request,
}
use howlow.Bidding.Service.Batch.{accept_bids_cases}
use howlow.Results.Verify.Frozen.{frozen_rows}

insert_rows-others :
    (id : ℕ) (i : BatchInput) (amounts : List ℕ) (bids : List BidRecord)
    → i.auction_id ≢ id
    → frozen_rows id (insert_rows i amounts bids).1 ≡ frozen_rows id bids
unfolding insert_rows rows_where
insert_rows-others id i [] bids n = refl
insert_rows-others id i (x ∷ xs) bids n =
    elim (Option-cases
      (first_where (conflicts_with i.auction_id i.user_id i.idempotency_key x) bids)) [
        | inr (other, e) ↦ ground (arith, e, insert_rows-others id i xs bids n)
        | inl e ↦ ground (arith, e, n, insert_rows-others id i xs (new_bid i x ∷ bids) n)
      ]

attach_others :
    (id entry_id : ℕ) (p : BidRecord → Bool) (bids : List BidRecord)
    → frozen_rows id (update_where p (λ b. record b { wallet_entry_id = some entry_id }) bids)
      ≡ frozen_rows id bids
unfolding update_where rows_where
attach_others id entry_id p [] = refl
attach_others id entry_id p (b ∷ bs) = ground (arith, attach_others id entry_id p bs)

-- What a part of a submission leaves to an auction, where it writes no auction.
record Spares (id : ℕ) (db after : BidTables) : Type 0 where
  auctions : after.auctions ≡ db.auctions
  bids : frozen_rows id after.bids ≡ frozen_rows id db.bids

insert_batch-Spares :
    (id : ℕ) (a : AuctionRecord) (i : SubmitBidsInput) (amounts : List ℕ) (db after : BidTables)
    (rows : List BidRecord)
    → a.id ≢ id
    → insert_batch a i amounts db ≡ ok (rows, after)
    → Spares id db after
unfolding insert_batch insert_bids
insert_batch-Spares id a i amounts db after rows n h =
    let same : after ≡ record db { bids = (insert_rows (batch_input a i) amounts db.bids).1 } =
      ground arith in
    record {
      auctions = rw same refl;
      bids = rw same (insert_rows-others id (batch_input a i) amounts db.bids n);
    }

charge_fee-Spares :
    (id : ℕ) (show : ℕ → Text) (a : AuctionRecord) (i : SubmitBidsInput) (rows : List BidRecord)
    (fee : ℕ) (db after : BidTables) (balance : ℤ)
    → charge_fee show a i rows fee db ≡ ok (balance, after)
    → Spares id db after
unfolding charge_fee attach_wallet_entry
charge_fee-Spares id show a i rows zero db after balance h =
    elim (Result-cases (get_wallet i.wallet_id i.user_id a.currency db.wallet)) [
      | inl (e, f) ↦ absurd (ground arith)
      | inr ((w, t), f) ↦
          let same : after ≡ record db { wallet = t } = ground arith in
          record { auctions = rw same refl; bids = rw same refl }
    ]
charge_fee-Spares id show a i rows (suc n) db after balance h =
    elim (Result-cases (
      move i.wallet_id i.entry_id bid_fee (fee_request show a i (length rows) (suc n)) db.wallet)) [
        | inl (e, f) ↦ absurd (ground arith)
        | inr ((m, t), f) ↦
            let same : after ≡ record db {
              wallet = t;
              bids =
                  update_where (has_id rows) (λ b. record b { wallet_entry_id = some m.entry_id })
                    db.bids;
            } =
              ground arith in
            record {
              auctions = rw same refl;
              bids = rw same (attach_others id m.entry_id (has_id rows) db.bids);
            }
      ]

add_participant_bids-Spares :
    (id p added fees now : ℕ) (db after : BidTables) (r : ParticipantRecord)
    → add_participant_bids p added fees now db ≡ ok (r, after)
    → Spares id db after
unfolding add_participant_bids
add_participant_bids-Spares id p added fees now db after r h =
    elim (Option-cases (first_where (λ (x : ParticipantRecord). x.id == p) db.participants)) [
      | inl e ↦ absurd (ground arith)
      | inr (x, e) ↦ record { auctions = ground arith; bids = ground arith }
    ]

-- The counters of the auction are the only columns of `auctions` that a submission writes.
abbrev pub counts_bids : ℕ → ℕ → ℕ → AuctionDb → AuctionDb
counts_bids x bids participants t = record t {
  auctions = update_where (λ a. a.id == x) (with_counters bids participants) t.auctions;
}

add_bid_counters_cases :
    (x bids participants : ℕ) (db after : BidTables) (totals : ℕ × ℕ)
    → add_bid_counters x bids participants db ≡ ok (totals, after)
    → after ≡ record db { auctions = counts_bids x bids participants db.auctions }
unfolding add_bid_counters
add_bid_counters_cases x bids participants db after totals h =
    elim (Option-cases (first_where (λ (a : AuctionRecord). a.id == x) db.auctions.auctions)) [
      | inl e ↦ absurd (ground arith)
      | inr (a, e) ↦ ground arith
    ]

-- What a whole submission to auction `x` leaves to the auction `id`.
pub record Submitted (id x : ℕ) (db after : BidTables) : Type 0 where
  pub added : ℕ
  pub joined : ℕ
  pub auctions : after.auctions ≡ counts_bids x added joined db.auctions
  pub bids : frozen_rows id after.bids ≡ frozen_rows id db.bids

book_batch-Submitted :
    (id : ℕ) (show : ℕ → Text) (a : AuctionRecord) (i : SubmitBidsInput) (amounts : List ℕ)
    (p : ParticipantRecord) (inserted : Bool) (db after : BidTables) (r : SubmitBidsOutcome)
    → a.id ≢ id
    → book_batch show a i amounts p inserted db ≡ ok (r, after)
    → Submitted id a.id db after
unfolding book_batch
book_batch-Submitted id show a i amounts p inserted db after r n h =
    let (rows, db1, h1, k1) = >>=-eq-ok (insert_batch a i amounts) _ db (r, after) h in
    let fee = total_fee a.bid_fee_minor (length rows) in
    let (balance, db2, h2, k2) = >>=-eq-ok (charge_fee show a i rows fee) _ db1 (r, after) k1 in
    let (updated, db3, h3, k3) =
      >>=-eq-ok (add_participant_bids p.id (length rows) fee i.now) _ db2 (r, after) k2 in
    let (totals, db4, h4, k4) =
      >>=-eq-ok (add_bid_counters a.id (length rows) (if inserted then 1 else 0)) _ db3 (r, after)
        k3 in
    let s1 = insert_batch-Spares id a i amounts db db1 rows n h1 in
    let s2 = charge_fee-Spares id show a i rows fee db1 db2 balance h2 in
    let s3 = add_participant_bids-Spares id p.id (length rows) fee i.now db2 db3 updated h3 in
    let last =
      add_bid_counters_cases a.id (length rows) (if inserted then 1 else 0) db3 db4 totals h4 in
    let audited : (after.auctions ≡ db4.auctions) × (after.bids ≡ db4.bids) =
      (ground arith, ground arith) in
    record {
      added = length rows;
      joined = if inserted then 1 else 0;
      auctions = audited.0 ∙ rw (last, s3.auctions, s2.auctions, s1.auctions) refl;
      bids = rw (audited.1, last) (s3.bids ∙ s2.bids ∙ s1.bids);
    }

-- An accepted submission was to an auction that was live.
pub accept_bids-Submitted :
    (id : ℕ) (show : ℕ → Text) (auction : AuctionRecord) (i : SubmitBidsInput) (amounts : List ℕ)
    (db after : BidTables) (r : SubmitBidsOutcome)
    → ((a : AuctionRecord)
        → find_auction auction.id db.auctions.auctions ≡ some a
        → status_eq a.status live ≡ true
        → a.id ≢ id)
    → accept_bids show auction i amounts db ≡ ok (r, after)
    → (x : ℕ) × Submitted id x db after
accept_bids-Submitted id show auction i amounts db after r apart h =
    let (a, p, inserted, mid, e, is_live, _, _, _, _, same, auctions, _, booked) =
      accept_bids_cases show auction i amounts db after r h in
    let s =
      book_batch-Submitted id show a i amounts p inserted mid after r (apart a e is_live) booked in
    (
      a.id,
      record {
        added = s.added;
        joined = s.joined;
        auctions = s.auctions ∙ rw auctions refl;
        bids = s.bids ∙ rw same refl;
      },
    )
