-- ===== src/Bidding/Service/Batch.antt =====
-- What an accepted submission has placed, and when.
use howlow.Prelude.Int.{ℤ}
use howlow.Prelude.{
  length, ℕ, ◌+◌, ◌*◌, ◌≤◌, ◌<◌, ◌≡◌, refl, sym, subst, ap, ◌∙◌, Bool, true, false, none, some,
  Text, List, [], ◌∷◌, map, arith, Option-cases, inl, inr, first_where, if◌then◌else◌, is_some, All,
  All-map,
}
use howlow.Errors.{ok, Result-cases}
use howlow.Wallet.Rows.{WalletDb}
use howlow.Catalog.Inventory.{find_held_reservation}
use howlow.Auctions.Transitions.{live, status_eq}
use howlow.Auctions.Rows.{AuctionRecord, find_auction}
use howlow.Bidding.Rows.{BidRecord}
use howlow.Bidding.Validation.{total_fee}
use howlow.Bidding.Tables.{
  BidTables, BatchInput, ParticipantRecord, insert_rows, insert_bids, new_bid, conflicts_with,
  lock_or_create_participant, add_participant_bids, add_bid_counters, find_participant,
  new_participant,
}
use howlow.Bidding.Service.{
  SubmitBidsInput, SubmitBidsOutcome, batch_input, insert_batch, charge_fee, book_batch, place_for,
  accept_bids, assert_accepting_bids, assert_deliverable, placed,
}
use howlow.Bidding.Service.Charge.{
  unlinked, on_top, unlinked-on_top, unlinked-new, IsCharged, charge_fee_cases,
}

-- The statement returns as many rows as there are amounts at most.
insert_rows-length :
    (i : BatchInput) (amounts : List ℕ) (bids : List BidRecord)
    → length (insert_rows i amounts bids).0 ≤ length amounts
unfolding insert_rows
insert_rows-length i [] bids = omega arith
insert_rows-length i (x ∷ xs) bids =
    ground (arith, insert_rows-length i xs bids, insert_rows-length i xs (new_bid i x ∷ bids))

-- If it returns a row for each, then each amount was inserted, as a row that conflicts with none before,
-- and these rows stand on top of the table.
insert_rows-whole :
    (i : BatchInput) (amounts : List ℕ) (bids : List BidRecord)
    → length (insert_rows i amounts bids).0 ≡ length amounts
    → ((insert_rows i amounts bids).0 ≡ map (new_bid i) amounts)
      × All
          (λ x. first_where (conflicts_with i.auction_id i.user_id i.idempotency_key x) bids ≡ none)
          amounts
      × ((insert_rows i amounts bids).1 ≡ on_top (map (new_bid i) amounts) bids)
unfolding insert_rows first_where
insert_rows-whole i [] bids h = (refl, tt, refl)
insert_rows-whole i (x ∷ xs) bids h =
    elim (Option-cases
      (first_where (conflicts_with i.auction_id i.user_id i.idempotency_key x) bids)) [
        | inr (other, e) ↦ absurd (ground (arith, insert_rows-length i xs bids))
        | inl e ↦
            let (rows, apart, table) = insert_rows-whole i xs (new_bid i x ∷ bids) (ground arith) in
            (
              ground (arith, rows),
              (e, All-map _ _ xs (λ y. behind y) apart),
              ground (arith, e, table),
            )
      ]
  where
    behind :
        (y : ℕ)
        → first_where
            (conflicts_with i.auction_id i.user_id i.idempotency_key y)
            (new_bid i x ∷ bids)
          ≡ none
        → first_where (conflicts_with i.auction_id i.user_id i.idempotency_key y) bids ≡ none
    behind y k = ground arith

insert_batch-whole :
    (a : AuctionRecord) (i : SubmitBidsInput) (amounts : List ℕ) (db after : BidTables)
    (bids : List BidRecord)
    → insert_batch a i amounts db ≡ ok (bids, after)
    → (bids ≡ map (new_bid (batch_input a i)) amounts)
      × (length bids ≡ length amounts)
      × All
          (λ x. first_where (conflicts_with a.id i.user_id i.idempotency_key x) db.bids ≡ none)
          amounts
      × (after.bids ≡ on_top (map (new_bid (batch_input a i)) amounts) db.bids)
      × (after.wallet ≡ db.wallet)
unfolding insert_batch insert_bids
insert_batch-whole a i amounts db after bids h =
    let same : bids ≡ (insert_rows (batch_input a i) amounts db.bids).0 = ground arith in
    let full : length (insert_rows (batch_input a i) amounts db.bids).0 ≡ length amounts =
      ground arith in
    let (rows, apart, table) = insert_rows-whole (batch_input a i) amounts db.bids full in
    let written : after.bids ≡ (insert_rows (batch_input a i) amounts db.bids).1 = ground arith in
    (same ∙ rows, ap length same ∙ full, apart, written ∙ table, ground arith)

-- What book_batch has done: the whole batch was inserted, and counted with its fee.
book_batch_cases :
    (show : ℕ → Text) (a : AuctionRecord) (i : SubmitBidsInput) (amounts : List ℕ)
    (p : ParticipantRecord) (inserted : Bool) (db after : BidTables) (r : SubmitBidsOutcome)
    → book_batch show a i amounts p inserted db ≡ ok (r, after)
    → (bids : List BidRecord) × (mid : BidTables) × (charged : BidTables) × (balance : ℤ)
      × (updated : ParticipantRecord) × (counted : BidTables) × (totals : ℕ × ℕ) × (insert_batch a i
            amounts db
          ≡ ok (bids, mid))
      × (charge_fee show a i bids (total_fee a.bid_fee_minor (length bids)) mid
          ≡ ok (balance, charged))
      × (add_participant_bids p.id
            (length bids)
            (total_fee a.bid_fee_minor (length bids))
            i.now
            charged
          ≡ ok (updated, counted))
      × (r ≡ placed a i bids (total_fee a.bid_fee_minor (length bids)) balance updated totals)
      × (last : BidTables) × (add_bid_counters a.id
            (length bids)
            (if inserted then 1 else 0)
            counted
          ≡ ok (totals, last))
      × (after.bids ≡ last.bids)
      × (after.wallet ≡ last.wallet)
unfolding book_batch
book_batch_cases show a i amounts p inserted db after r h =
    elim (Result-cases (insert_batch a i amounts db)) [
      | inl (e, failed) ↦ absurd (ground arith)
      | inr ((bids, mid), f) ↦
          elim (Result-cases
            (charge_fee show a i bids (total_fee a.bid_fee_minor (length bids)) mid)) [
              | inl (e, failed) ↦ absurd (ground arith)
              | inr ((balance, charged), g) ↦
                  elim (Result-cases (
                    add_participant_bids p.id (length bids)
                      (total_fee a.bid_fee_minor (length bids)) i.now charged)) [
                        | inl (e, failed) ↦ absurd (ground arith)
                        | inr ((updated, counted), k) ↦
                            elim (Result-cases (
                              add_bid_counters a.id (length bids) (if inserted then 1 else 0)
                                counted)) [
                                  | inl (e, failed) ↦ absurd (ground arith)
                                  | inr ((totals, last), l) ↦ (
                                    bids,
                                    mid,
                                    charged,
                                    balance,
                                    updated,
                                    counted,
                                    totals,
                                    f,
                                    g,
                                    k,
                                    ground arith,
                                    last,
                                    l,
                                    ground arith,
                                    ground arith,
                                  )
                                ]
                      ]
            ]
    ]

-- The bids that the counters have of a user before a submission.
abbrev pub bids_before : ℕ → ℕ → BidTables → ℕ
bids_before auction_id user_id db = elim (find_participant auction_id user_id db) [
  | none ↦ 0
  | some p ↦ p.bid_count
]

add_participant_bids-kept :
    (id added fees now : ℕ) (db after : BidTables) (p : ParticipantRecord)
    → add_participant_bids id added fees now db ≡ ok (p, after)
    → (after.bids ≡ db.bids) × (after.wallet ≡ db.wallet)
unfolding add_participant_bids
add_participant_bids-kept id added fees now db after p h = (ground arith, ground arith)

add_bid_counters-kept :
    (id bids participants : ℕ) (db after : BidTables) (totals : ℕ × ℕ)
    → add_bid_counters id bids participants db ≡ ok (totals, after)
    → (after.bids ≡ db.bids) × (after.wallet ≡ db.wallet)
unfolding add_bid_counters
add_bid_counters-kept id bids participants db after totals h = (ground arith, ground arith)

-- What a batch that was booked has written.
abbrev IsWritten :
    AuctionRecord → SubmitBidsInput → List ℕ → BidTables → BidTables → SubmitBidsOutcome → Type 0
IsWritten a i amounts db after r =
    (r.bids ≡ map (new_bid (batch_input a i)) amounts)
    × All (λ x. first_where (conflicts_with a.id i.user_id i.idempotency_key x) db.bids ≡ none)
        amounts
    × (map unlinked after.bids
        ≡ on_top (map (new_bid (batch_input a i)) amounts) (map unlinked db.bids))
    × (r.total_fee_minor ≡ a.bid_fee_minor * length amounts)
    × IsCharged a i (a.bid_fee_minor * length amounts) db.wallet after.wallet r.wallet_balance_minor

book_batch-whole :
    (show : ℕ → Text) (a : AuctionRecord) (i : SubmitBidsInput) (amounts : List ℕ)
    (p : ParticipantRecord) (inserted : Bool) (db after : BidTables) (r : SubmitBidsOutcome)
    → book_batch show a i amounts p inserted db ≡ ok (r, after)
    → IsWritten a i amounts db after r
book_batch-whole show a i amounts p inserted db after r h =
    let (bids, mid, charged, balance, updated, counted, totals, f, g, k, same, last, l, b, w) =
      book_batch_cases show a i amounts p inserted db after r h in
    let (rows, full, apart, table, wallet) = insert_batch-whole a i amounts db mid bids f in
    let fee = total_fee a.bid_fee_minor (length bids) in
    let (linked, paid) = charge_fee_cases show a i bids fee mid charged balance g in
    let (b1, w1) =
      add_participant_bids-kept p.id (length bids) fee i.now charged counted updated k in
    let (b2, w2) =
      add_bid_counters-kept a.id (length bids) (if inserted then 1 else 0) counted last totals l in
    let new = map (new_bid (batch_input a i)) amounts in
    (
      cc (same, rows),
      apart,
      ap (map unlinked) (b ∙ b2 ∙ b1)
          ∙ linked
          ∙ ap (map unlinked) table
          ∙ unlinked-on_top new db.bids
          ∙ ap (λ rows. on_top rows (map unlinked db.bids))
              (unlinked-new (batch_input a i) amounts),
      cc (same, full),
      subst
          (λ (x : WalletDb).
            IsCharged a i (a.bid_fee_minor * length amounts) db.wallet x r.wallet_balance_minor)
          (sym (w ∙ w2 ∙ w1)) (rw (same, ← full, ← wallet) paid),
    )

-- A submission that is accepted has met an open auction and the limit, and gone on to the batch.
pub accept_bids_cases :
    (show : ℕ → Text) (auction : AuctionRecord) (i : SubmitBidsInput) (amounts : List ℕ)
    (db after : BidTables) (r : SubmitBidsOutcome)
    → accept_bids show auction i amounts db ≡ ok (r, after)
    → (a : AuctionRecord) × (p : ParticipantRecord) × (inserted : Bool) × (mid : BidTables)
      × (find_auction auction.id db.auctions.auctions ≡ some a)
      × (status_eq a.status live ≡ true)
      × (a.starts_at ≤ i.clock)
      × (i.clock < a.ends_at)
      × (is_some (find_held_reservation a.id db.auctions.inventory) ≡ true)
      × (bids_before a.id i.user_id db + length amounts ≤ a.max_bids_per_user)
      × (mid.bids ≡ db.bids)
      × (mid.auctions ≡ db.auctions)
      × (mid.wallet ≡ db.wallet)
      × (book_batch show a i amounts p inserted mid ≡ ok (r, after))
unfolding accept_bids assert_accepting_bids assert_deliverable place_for lock_or_create_participant
accept_bids_cases show auction i amounts db after r h =
    elim (Option-cases (find_auction auction.id db.auctions.auctions)) [
      | inl e ↦ absurd (ground arith)
      | inr (a, e) ↦ elim (Option-cases (find_participant a.id i.user_id db)) [
        | inl none_yet ↦
            let p = new_participant i.participant_id a.id i.user_id i.channel in
            (
              a,
              p,
              true,
              record db { participants = p ∷ db.participants },
              e,
              ground arith,
              ground arith,
              ground arith,
              ground arith,
              ground (arith, none_yet),
              refl,
              refl,
              refl,
              ground arith,
            )
        | inr (p, there) ↦ (
          a,
          p,
          false,
          db,
          e,
          ground arith,
          ground arith,
          ground arith,
          ground arith,
          ground (arith, there),
          refl,
          refl,
          refl,
          ground arith,
        )
      ]
    ]

-- A submission under a key that is claimed is accepted only on an auction that is live, within its window
-- by the clock that is read under the lock, with a unit held for it, and where the user stays within the
-- limit. Then every amount is placed, each as a row of its own that no row conflicts with: they stand on
-- top of the table of bids, which is otherwise as it was but for the links to the ledger. The fee is that
-- of all of them, and where it is not zero the ledger of the user's wallet has, under the submission's
-- key, the entry that takes it away.
pub accept_bids-whole :
    (show : ℕ → Text) (auction : AuctionRecord) (i : SubmitBidsInput) (amounts : List ℕ)
    (db after : BidTables) (r : SubmitBidsOutcome)
    → accept_bids show auction i amounts db ≡ ok (r, after)
    → (a : AuctionRecord) × (find_auction auction.id db.auctions.auctions ≡ some a)
      × (status_eq a.status live ≡ true)
      × (a.starts_at ≤ i.clock)
      × (i.clock < a.ends_at)
      × (is_some (find_held_reservation a.id db.auctions.inventory) ≡ true)
      × (bids_before a.id i.user_id db + length amounts ≤ a.max_bids_per_user)
      × (r.bids ≡ map (new_bid (batch_input a i)) amounts)
      × All
          (λ x. first_where (conflicts_with a.id i.user_id i.idempotency_key x) db.bids ≡ none)
          amounts
      × (map unlinked after.bids
          ≡ on_top (map (new_bid (batch_input a i)) amounts) (map unlinked db.bids))
      × (r.total_fee_minor ≡ a.bid_fee_minor * length amounts)
      × IsCharged a i
          (a.bid_fee_minor * length amounts)
          db.wallet
          after.wallet
          r.wallet_balance_minor
accept_bids-whole show auction i amounts db after r h =
    let (a, p, inserted, mid, e, is_live, started, open_still, held, room, same, _, purse, booked) =
      accept_bids_cases show auction i amounts db after r h in
    let (rows, apart, table, fee, paid) =
      book_batch-whole show a i amounts p inserted mid after r booked in
    (
      a,
      e,
      is_live,
      started,
      open_still,
      held,
      room,
      rows,
      rw same at apart,
      rw same at table,
      fee,
      rw purse at paid,
    )
