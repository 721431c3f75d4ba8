-- ===== src/Bidding/Service/Retry.antt =====
-- A submission that is sent again under its key, at once or after whatever happened since.
use howlow.Prelude.{ℕ, ◌≡◌, none, some, Text, List, ◌==◌, first_where}
use howlow.Errors.{ok}
use howlow.Auctions.Rows.{AuctionRecord}
use howlow.Bidding.Tables.{BidTables}
use howlow.Bidding.Idempotency.{KeyRow, BidResponseSnapshot, answered, new_key, has_this_key}
use howlow.Bidding.Service.{SubmitBidsInput, SubmitBidsOutcome, BidDb, place_bids}

-- The row under a key, completed with an answer.
abbrev Keeps : KeyRow → Text → List KeyRow → Type 0
Keeps row key keys = first_where (has_this_key key) keys ≡ some row

abbrev done_row : ℕ → Text → ℕ → Text → BidResponseSnapshot → KeyRow
done_row fresh key user_id request s = answered s (new_key fresh key user_id request)

-- What may come after a submission: others that commit, under uuids that no key has, and transactions
-- of other services, which write whatever they write to the other tables.
pub data Later (hash : ℕ → ℕ → List ℕ → Text) (show : ℕ → Text) (start : BidDb)
    : BidDb → Type 0 where
  at_once : Later hash show start start
  submitted :
      {db after : BidDb} (auction : AuctionRecord) (i : SubmitBidsInput) (amounts : List ℕ)
      (r : SubmitBidsOutcome)
      → Later hash show start db
      → first_where (λ (x : KeyRow). x.id == i.key_id) db.keys ≡ none
      → place_bids hash show auction i amounts db ≡ ok (r, after)
      → Later hash show start after
  elsewhere :
      {db : BidDb} (tables : BidTables)
      → Later hash show start db
      → Later hash show start (record db { tables = tables })
