-- ===== src/Bidding/Tables.antt =====
-- apps/api/src/modules/bidding/bidRepository.ts: the tables of a bid's transaction, and the statements
-- on `bids` and `auction_participants`.
use howlow.Prelude.{
  ℕ, ◌+◌, Bool, true, false, Option, none, some, Text, text_eq, List, [], ◌∷◌, ◌==◌, ◌&&◌, ◌||◌,
  leb, or_else, first_where, rows_where, count_where, update_where, if◌then◌else◌,
}
use howlow.Shared.{Channel}
use howlow.Errors.{not_found, ok, err, Tx}
use howlow.Wallet.Rows.{WalletDb}
use howlow.Auctions.Rows.{AuctionRecord, AuctionDb}
use howlow.Bidding.Rows.{BidRecord, is_valid, valid, takes_part}
use howlow.Bidding.Validation.{has}
use howlow.Results.Lub.{count_distinct_users}

pub record ParticipantRecord : Type 0 where
  pub id : ℕ
  pub auction_id : ℕ
  pub user_id : ℕ
  pub bid_count : ℕ
  pub total_fees_minor : ℕ
  pub first_bid_at : Option ℕ
  pub last_bid_at : Option ℕ
  pub joined_channel : Channel

-- The tables that a submission reads and writes, but for its idempotency keys. A row of `audit` names
-- the auction and the user.
pub record BidTables : Type 0 where
  pub wallet : WalletDb
  pub auctions : AuctionDb
  pub bids : List BidRecord
  pub participants : List ParticipantRecord
  pub audit : List (ℕ × ℕ)

-- A run on the wallet's tables, or on the auctions', in the same transaction.
abbrev pub on_wallet : {A : Type 0} → Tx WalletDb A → Tx BidTables A
on_wallet m db = elim (m db.wallet) [ ok (a, t) ↦ ok (a, record db { wallet = t }) | err e ↦ err e ]

abbrev of_user : ℕ → ℕ → BidRecord → Bool
of_user auction_id user_id b = b.auction_id == auction_id && b.user_id == user_id

-- ORDER BY amount_minor
unfoldable pub insert_amount : ℕ → List ℕ → List ℕ
insert_amount a [] = a ∷ []
insert_amount a (x ∷ xs) = let rest = insert_amount a xs in if leb a x then a ∷ x ∷ xs else x ∷ rest

unfoldable pub sort_amounts : List ℕ → List ℕ
sort_amounts [] = []
sort_amounts (a ∷ xs) = insert_amount a (sort_amounts xs)

unfoldable pub insert_by_amount : BidRecord → List BidRecord → List BidRecord
insert_by_amount b [] = b ∷ []
insert_by_amount b (x ∷ xs) =
    let rest = insert_by_amount b xs in
    if leb b.amount_minor x.amount_minor then b ∷ x ∷ xs else x ∷ rest

unfoldable pub sort_by_amount : List BidRecord → List BidRecord
sort_by_amount [] = []
sort_by_amount (b ∷ bs) = insert_by_amount b (sort_by_amount bs)

-- `rows.map((row) => BigInt(row.amount_minor))`
unfoldable pub amounts_of : List BidRecord → List ℕ
amounts_of [] = []
amounts_of (b ∷ bs) = b.amount_minor ∷ amounts_of bs

-- `findExistingAmounts`
abbrev pub find_existing_amounts : ℕ → ℕ → List ℕ → BidTables → List ℕ
find_existing_amounts auction_id user_id amounts db = sort_amounts (
    amounts_of (
      rows_where
        (λ b. of_user auction_id user_id b && (is_valid b.status && has b.amount_minor amounts))
        db.bids))

-- `idempotency_key = $3`, which a NULL does not pass.
abbrev has_idempotency_key : Text → BidRecord → Bool
has_idempotency_key key b = elim b.idempotency_key [ none ↦ false | some k ↦ text_eq k key ]

-- `findBidsByIdempotencyKey`
abbrev pub find_bids_by_idempotency_key : ℕ → ℕ → Text → BidTables → List BidRecord
find_bids_by_idempotency_key auction_id user_id key db =
    sort_by_amount
      (rows_where (λ b. of_user auction_id user_id b && has_idempotency_key key b) db.bids)

-- What a row is refused by: `bids_valid_amount_unique_key` or `bids_idempotency_amount_unique`.
abbrev pub conflicts_with : ℕ → ℕ → Text → ℕ → BidRecord → Bool
conflicts_with auction_id user_id key amount b =
    of_user auction_id user_id b
    && (b.amount_minor == amount && (is_valid b.status || has_idempotency_key key b))

-- What the rows of a batch have in common, and the uuid that each is given.
pub record BatchInput : Type 0 where
  pub auction_id : ℕ
  pub user_id : ℕ
  pub fee_minor : ℕ
  pub channel : Channel
  pub idempotency_key : Text
  pub request_id : Option ℕ
  pub now : ℕ
  pub new_id : ℕ → ℕ

abbrev pub new_bid : BatchInput → ℕ → BidRecord
new_bid i amount = record {
  id = i.new_id amount;
  auction_id = i.auction_id;
  user_id = i.user_id;
  amount_minor = amount;
  fee_minor = i.fee_minor;
  status = valid;
  channel = i.channel;
  idempotency_key = some i.idempotency_key;
  wallet_entry_id = none;
  request_id = i.request_id;
  created_at = i.now;
  voided_at = none;
}

-- The INSERT of one batch with ON CONFLICT DO NOTHING, row by row: the rows returned, and the table.
unfoldable pub insert_rows : BatchInput → List ℕ → List BidRecord → List BidRecord × List BidRecord
insert_rows i [] bids = ([], bids)
insert_rows i (amount ∷ amounts) bids =
    elim (first_where (conflicts_with i.auction_id i.user_id i.idempotency_key amount) bids) [
      | some other ↦ insert_rows i amounts bids
      | none ↦
          let (rows, after) = insert_rows i amounts (new_bid i amount ∷ bids) in
          (new_bid i amount ∷ rows, after)
    ]

-- `insertBids`
unfoldable pub insert_bids : BatchInput → List ℕ → Tx BidTables (List BidRecord)
insert_bids i amounts db =
    let (rows, after) = insert_rows i amounts db.bids in ok (rows, record db { bids = after })

unfoldable pub has_id : List BidRecord → BidRecord → Bool
has_id [] b = false
has_id (x ∷ xs) b = (x.id == b.id) || has_id xs b

-- `attachWalletEntry`
unfoldable pub attach_wallet_entry : List BidRecord → ℕ → Tx BidTables (Unit {0})
attach_wallet_entry rows entry_id db = ok (
  tt,
  record db {
    bids = update_where (has_id rows) (λ b. record b { wallet_entry_id = some entry_id }) db.bids;
  },
)

abbrev pub is_participant : ℕ → ℕ → ParticipantRecord → Bool
is_participant auction_id user_id p = p.auction_id == auction_id && p.user_id == user_id

-- `findParticipant`
abbrev pub find_participant : ℕ → ℕ → BidTables → Option ParticipantRecord
find_participant auction_id user_id db =
    first_where (is_participant auction_id user_id) db.participants

abbrev pub new_participant : ℕ → ℕ → ℕ → Channel → ParticipantRecord
new_participant id auction_id user_id channel = record {
  id = id;
  auction_id = auction_id;
  user_id = user_id;
  bid_count = 0;
  total_fees_minor = 0;
  first_bid_at = none;
  last_bid_at = none;
  joined_channel = channel;
}

-- `lockOrCreateParticipant`: the row, and whether it was inserted.
unfoldable pub lock_or_create_participant :
    ℕ → ℕ → ℕ → Channel → Tx BidTables (ParticipantRecord × Bool)
lock_or_create_participant fresh auction_id user_id channel db =
    elim (find_participant auction_id user_id db) [
      | some p ↦ ok ((p, false), db)
      | none ↦
          let p = new_participant fresh auction_id user_id channel in
          ok ((p, true), record db { participants = p ∷ db.participants })
    ]

abbrev pub with_bids : ℕ → ℕ → ℕ → ParticipantRecord → ParticipantRecord
with_bids added fees now p = record p {
  bid_count = p.bid_count + added;
  total_fees_minor = p.total_fees_minor + fees;
  first_bid_at = some (or_else p.first_bid_at now);
  last_bid_at = some now;
}

-- `addParticipantBids`
unfoldable pub add_participant_bids : ℕ → ℕ → ℕ → ℕ → Tx BidTables ParticipantRecord
add_participant_bids id added fees now db =
    elim (first_where (λ (p : ParticipantRecord). p.id == id) db.participants) [
      | none ↦ err not_found
      | some p ↦ ok (
        with_bids added fees now p,
        record db {
          participants = update_where (λ p. p.id == id) (with_bids added fees now) db.participants;
        },
      )
    ]

abbrev pub with_counters : ℕ → ℕ → AuctionRecord → AuctionRecord
with_counters bids participants a = record a {
  total_bids = a.total_bids + bids;
  total_participants = a.total_participants + participants;
}

-- `addBidCounters` of auctionRepository.ts: the totals after the update.
unfoldable pub add_bid_counters : ℕ → ℕ → ℕ → Tx BidTables (ℕ × ℕ)
add_bid_counters id bids participants db =
    elim (first_where (λ (a : AuctionRecord). a.id == id) db.auctions.auctions) [
      | none ↦ err not_found
      | some a ↦ ok (
        (a.total_bids + bids, a.total_participants + participants),
        record db {
          auctions = record (db.auctions) {
            auctions =
                update_where (λ a. a.id == id) (with_counters bids participants)
                  db.auctions.auctions;
          };
        },
      )
    ]

-- `recountAuction`
unfoldable pub recount_auction : ℕ → BidTables → ℕ × ℕ
recount_auction auction_id db = (
  count_where (takes_part auction_id) db.bids,
  count_distinct_users (rows_where (takes_part auction_id) db.bids),
)
