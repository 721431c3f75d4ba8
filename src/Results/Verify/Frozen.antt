-- ===== src/Results/Verify/Frozen.antt =====
-- What verification reads of the bids: the rows of the one auction, less the wallet entry that a fee is
-- attached to.
use howlow.Prelude.{
  ℕ, ◌≡◌, refl, sym, ◌∙◌, ap, Bool, Option, none, some, List, [], ◌∷◌, ◌==◌, arith, rows_where,
  first_where, count_where,
}
use howlow.Bidding.Rows.{BidRecord, takes_part}
use howlow.Results.Lub.{
  AmountGroup, group_by_amount, amount_distribution, lowest_unique, winner_row, calculate_lub_v1,
  count_frozen_bids, count_distinct_users, has_user, stands_alone,
}
use howlow.Results.Checksum.{
  Postgres, string_agg, insert_by_id, sort_by_id, bid_lines, canonical_bid_lines,
  checksum_frozen_bids,
}

abbrev pub is_of : ℕ → BidRecord → Bool
is_of auction_id b = b.auction_id == auction_id

abbrev detached : BidRecord → BidRecord
detached b = record b { wallet_entry_id = none }

abbrev strip : List BidRecord → List BidRecord
strip [] = []
strip (b ∷ bs) = detached b ∷ strip bs

-- The rows of an auction, without the entries of the fees.
abbrev pub frozen_rows : ℕ → List BidRecord → List BidRecord
frozen_rows auction_id bids = strip (rows_where (is_of auction_id) bids)

rows_where-frozen_rows :
    (id : ℕ) (bids : List BidRecord)
    → rows_where (takes_part id) (frozen_rows id bids) ≡ strip (rows_where (takes_part id) bids)
unfolding rows_where
rows_where-frozen_rows id [] = refl
rows_where-frozen_rows id (b ∷ bs) = ground (arith, rows_where-frozen_rows id bs)

group_by_amount-strip : (bs : List BidRecord) → group_by_amount (strip bs) ≡ group_by_amount bs
unfolding group_by_amount
group_by_amount-strip [] = refl
group_by_amount-strip (b ∷ bs) = rw (group_by_amount-strip bs) refl

has_user-strip : (u : ℕ) (bs : List BidRecord) → has_user u (strip bs) ≡ has_user u bs
has_user-strip u [] = refl
has_user-strip u (b ∷ bs) = rw (has_user-strip u bs) refl

count_distinct_users-strip :
    (bs : List BidRecord) → count_distinct_users (strip bs) ≡ count_distinct_users bs
unfolding count_distinct_users
count_distinct_users-strip [] = refl
count_distinct_users-strip (b ∷ bs) =
    rw (has_user-strip b.user_id bs, count_distinct_users-strip bs) refl

amount_distribution-frozen_rows :
    (id : ℕ) (bids : List BidRecord)
    → amount_distribution id (frozen_rows id bids) ≡ amount_distribution id bids
unfolding amount_distribution
amount_distribution-frozen_rows id bids =
    ap group_by_amount (rows_where-frozen_rows id bids)
    ∙ group_by_amount-strip (rows_where (takes_part id) bids)

winner_row-frozen_rows :
    (id : ℕ) (bids : List BidRecord) (g : AmountGroup)
    → winner_row id (frozen_rows id bids) (some g) ≡ winner_row id bids (some g)
unfolding first_where rows_where
winner_row-frozen_rows id [] g = refl
winner_row-frozen_rows id (b ∷ bs) g = ground (arith, winner_row-frozen_rows id bs g)

winner_row_frozen :
    (id : ℕ) (bids : List BidRecord) (o : Option AmountGroup)
    → winner_row id (frozen_rows id bids) o ≡ winner_row id bids o
winner_row_frozen id bids none = refl
winner_row_frozen id bids (some g) = winner_row-frozen_rows id bids g

calculate_lub_v1-frozen_rows :
    (id : ℕ) (bids : List BidRecord)
    → calculate_lub_v1 id (frozen_rows id bids) ≡ calculate_lub_v1 id bids
unfolding calculate_lub_v1 lowest_unique
calculate_lub_v1-frozen_rows id bids =
    rw (amount_distribution-frozen_rows id bids)
      (winner_row_frozen id bids (first_where stands_alone (amount_distribution id bids)))

count_where-of :
    (id : ℕ) (bids : List BidRecord)
    → count_where (is_of id) (frozen_rows id bids) ≡ count_where (is_of id) bids
unfolding count_where rows_where
count_where-of id [] = refl
count_where-of id (b ∷ bs) = ground (arith, count_where-of id bs)

count_where-part :
    (id : ℕ) (bids : List BidRecord)
    → count_where (takes_part id) (frozen_rows id bids) ≡ count_where (takes_part id) bids
unfolding count_where rows_where
count_where-part id [] = refl
count_where-part id (b ∷ bs) = ground (arith, count_where-part id bs)

count_frozen_bids-frozen_rows :
    (id : ℕ) (bids : List BidRecord)
    → count_frozen_bids id (frozen_rows id bids) ≡ count_frozen_bids id bids
unfolding count_frozen_bids
count_frozen_bids-frozen_rows id bids =
    rw
      (
        count_where-of id bids,
        count_where-part id bids,
        amount_distribution-frozen_rows id bids,
        rows_where-frozen_rows id bids,
        count_distinct_users-strip (rows_where (takes_part id) bids),
      )
      refl

insert_by_id-strip :
    (b : BidRecord) (bs : List BidRecord)
    → insert_by_id (detached b) (strip bs) ≡ strip (insert_by_id b bs)
unfolding insert_by_id
insert_by_id-strip b [] = refl
insert_by_id-strip b (x ∷ xs) = ground (arith, insert_by_id-strip b xs)

sort_by_id-strip : (bs : List BidRecord) → sort_by_id (strip bs) ≡ strip (sort_by_id bs)
unfolding sort_by_id
sort_by_id-strip [] = refl
sort_by_id-strip (b ∷ bs) = rw (sort_by_id-strip bs) (insert_by_id-strip b (sort_by_id bs))

bid_lines-strip : (pg : Postgres) (bs : List BidRecord) → bid_lines pg (strip bs) ≡ bid_lines pg bs
unfolding bid_lines
bid_lines-strip pg [] = refl
bid_lines-strip pg (b ∷ bs) = rw (bid_lines-strip pg bs) refl

checksum_frozen_bids-frozen_rows :
    (pg : Postgres) (id : ℕ) (bids : List BidRecord)
    → checksum_frozen_bids pg id (frozen_rows id bids) ≡ checksum_frozen_bids pg id bids
unfolding checksum_frozen_bids canonical_bid_lines
checksum_frozen_bids-frozen_rows pg id bids =
    let valid = rows_where (takes_part id) bids in
    ap (λ xs. pg.sha256_hex (string_agg (bid_lines pg (sort_by_id xs))))
      (rows_where-frozen_rows id bids)
    ∙ ap (λ xs. pg.sha256_hex (string_agg (bid_lines pg xs))) (sort_by_id-strip valid)
    ∙ ap (λ lines. pg.sha256_hex (string_agg lines)) (bid_lines-strip pg (sort_by_id valid))

-- Two tables with the same frozen rows of an auction have the same winner, counts and checksum of it.
module _ (pg : Postgres) (id : ℕ) (bids rows : List BidRecord)
    (same : frozen_rows id rows ≡ frozen_rows id bids) where
  pub same_winner : calculate_lub_v1 id rows ≡ calculate_lub_v1 id bids
  same_winner =
      sym (calculate_lub_v1-frozen_rows id rows)
      ∙ ap (calculate_lub_v1 id) same
      ∙ calculate_lub_v1-frozen_rows id bids

  pub same_statistics : count_frozen_bids id rows ≡ count_frozen_bids id bids
  same_statistics =
      sym (count_frozen_bids-frozen_rows id rows)
      ∙ ap (count_frozen_bids id) same
      ∙ count_frozen_bids-frozen_rows id bids

  pub same_checksum : checksum_frozen_bids pg id rows ≡ checksum_frozen_bids pg id bids
  same_checksum =
      sym (checksum_frozen_bids-frozen_rows pg id rows)
      ∙ ap (checksum_frozen_bids pg id) same
      ∙ checksum_frozen_bids-frozen_rows pg id bids
