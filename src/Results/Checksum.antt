-- ===== src/Results/Checksum.antt =====
-- apps/api/src/modules/results/checksum.ts. What PostgreSQL makes of a uuid, a number and a digest is
-- the argument `pg`.
use howlow.Prelude.{ℕ, Text, List, [], ◌∷◌, ◌++◌, leb, if◌then◌else◌, rows_where}
use howlow.Bidding.Rows.{BidRecord, takes_part}

-- `id::text`, `amount_minor::text`, and `encode(digest(…, 'sha256'), 'hex')`.
pub record Postgres : Type 0 where
  pub uuid_text : ℕ → Text
  pub bigint_text : ℕ → Text
  pub sha256_hex : Text → Text

unfoldable pub insert_by_id : BidRecord → List BidRecord → List BidRecord
insert_by_id b [] = b ∷ []
insert_by_id b (x ∷ xs) =
    let rest = insert_by_id b xs in if leb b.id x.id then b ∷ x ∷ xs else x ∷ rest

-- `ORDER BY b.id`
unfoldable pub sort_by_id : List BidRecord → List BidRecord
sort_by_id [] = []
sort_by_id (b ∷ bs) = insert_by_id b (sort_by_id bs)

-- `b.id::text || ':' || b.user_id::text || ':' || b.amount_minor::text`
abbrev pub bid_line : Postgres → BidRecord → Text
bid_line pg b =
    pg.uuid_text b.id ++ (58 ∷ (pg.uuid_text b.user_id ++ (58 ∷ pg.bigint_text b.amount_minor)))

unfoldable pub bid_lines : Postgres → List BidRecord → List Text
bid_lines pg [] = []
bid_lines pg (b ∷ bs) = bid_line pg b ∷ bid_lines pg bs

-- `canonicalBidLines`
unfoldable pub canonical_bid_lines : Postgres → ℕ → List BidRecord → List Text
canonical_bid_lines pg auction_id bids =
    bid_lines pg (sort_by_id (rows_where (takes_part auction_id) bids))

-- `coalesce(string_agg(…, E'\n'), '')`
unfoldable pub string_agg : List Text → Text
string_agg [] = []
string_agg (line ∷ []) = line
string_agg (line ∷ (next ∷ lines)) = line ++ (10 ∷ string_agg (next ∷ lines))

-- `checksumFrozenBids`
unfoldable pub checksum_frozen_bids : Postgres → ℕ → List BidRecord → Text
checksum_frozen_bids pg auction_id bids =
    pg.sha256_hex (string_agg (canonical_bid_lines pg auction_id bids))
