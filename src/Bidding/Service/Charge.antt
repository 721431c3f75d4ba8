-- ===== src/Bidding/Service/Charge.antt =====
-- What insertBids and chargeFee leave in the tables of bids and of the wallet.
use howlow.Prelude.{
  ℕ, zero, suc, ◌≡◌, refl, ap, ◌∙◌, ◌⊎◌, inl, inr, none, some, Text, List, [], ◌∷◌, ◌++◌, map,
  length, arith, Bool, Bool-cases, Option-cases, update_where,
}
use howlow.Prelude.Int.{ℤ, pos, ◌-ℤ◌, ◌*ℤ◌}
use howlow.Errors.{ok, Result-cases}
use howlow.Wallet.Rows.{WalletRecord, WalletEntryRecord, WalletDb, bid_fee}
use howlow.Wallet.Repository.{ensure_wallet, find_wallet_by_user_id, find_entry_by_idempotency_key}
use howlow.Wallet.Service.{get_wallet, move}
use howlow.Wallet.Service.Keyed.{move-keyed}
use howlow.Auctions.Rows.{AuctionRecord}
use howlow.Bidding.Rows.{BidRecord}
use howlow.Bidding.Tables.{BidTables, BatchInput, new_bid, has_id, attach_wallet_entry}
use howlow.Bidding.Service.{SubmitBidsInput, fee_request, charge_fee, bid_scope_prefix}

-- A bid without its link to the ledger, which is written after the bid is.
abbrev pub unlinked : BidRecord → BidRecord
unlinked b = record b { wallet_entry_id = none }

-- The rows put in front of a table, one by one.
abbrev pub on_top : List BidRecord → List BidRecord → List BidRecord
on_top [] table = table
on_top (b ∷ bs) table = on_top bs (b ∷ table)

unlinked-attach :
    (p : BidRecord → Bool) (entry_id : ℕ) (bids : List BidRecord)
    → map unlinked (update_where p (λ b. record b { wallet_entry_id = some entry_id }) bids)
      ≡ map unlinked bids
unfolding update_where
unlinked-attach p entry_id [] = refl
unlinked-attach p entry_id (b ∷ bids) = elim (Bool-cases (p b)) [
  | inl t ↦ rw (t, unlinked-attach p entry_id bids) refl
  | inr n ↦ rw (n, unlinked-attach p entry_id bids) refl
]

pub unlinked-on_top :
    (rows table : List BidRecord)
    → map unlinked (on_top rows table) ≡ on_top (map unlinked rows) (map unlinked table)
unlinked-on_top [] table = refl
unlinked-on_top (b ∷ bs) table = unlinked-on_top bs (b ∷ table)

pub unlinked-new :
    (i : BatchInput) (amounts : List ℕ)
    → map unlinked (map (new_bid i) amounts) ≡ map (new_bid i) amounts
unlinked-new i [] = refl
unlinked-new i (x ∷ xs) = ap (λ rows. new_bid i x ∷ rows) (unlinked-new i xs)

-- The fee of a submission: of nothing where it is zero, and else an entry of the user's wallet in the
-- currency of the auction, under the submission's key, that takes the fee away, with the balance after.
abbrev pub IsCharged : AuctionRecord → SubmitBidsInput → ℕ → WalletDb → WalletDb → ℤ → Type 0
IsCharged a i fee before after balance =
    ((fee ≡ 0) × (after.entries ≡ before.entries))
    ⊎ ((v : WalletRecord) × (e : WalletEntryRecord) × (find_wallet_by_user_id i.user_id a.currency
            after
          ≡ some v)
        × (find_entry_by_idempotency_key v.id (bid_scope_prefix ++ i.idempotency_key) after
            ≡ some e)
        × (e.amount_minor ≡ pos 0 -ℤ pos fee)
        × (balance ≡ e.balance_after_minor))

pub charge_fee_cases :
    (show : ℕ → Text) (a : AuctionRecord) (i : SubmitBidsInput) (bids : List BidRecord) (fee : ℕ)
    (db after : BidTables) (balance : ℤ)
    → charge_fee show a i bids fee db ≡ ok (balance, after)
    → (map unlinked after.bids ≡ map unlinked db.bids)
      × IsCharged a i fee db.wallet after.wallet balance
unfolding charge_fee get_wallet ensure_wallet attach_wallet_entry ◌-ℤ◌ ◌*ℤ◌
charge_fee_cases show a i bids zero db after balance h =
    elim (Option-cases (find_wallet_by_user_id i.user_id a.currency db.wallet)) [
      | inl e ↦ (ground arith, inl (refl, ground arith))
      | inr (w, e) ↦ (ground arith, inl (refl, ground arith))
    ]
charge_fee_cases show a i bids (suc n) db after balance h =
    elim (Result-cases (
      move i.wallet_id i.entry_id bid_fee (fee_request show a i (length bids) (suc n)) db.wallet)) [
        | inl (e, failed) ↦ absurd (ground arith)
        | inr ((m, wallet), moved) ↦
            let (v, e, own, kept, amount, left, _) =
              move-keyed i.wallet_id i.entry_id bid_fee (fee_request show a i (length bids) (suc n))
                db.wallet wallet m (bid_scope_prefix ++ i.idempotency_key) refl moved in
            let rows : after.bids
                ≡ update_where (has_id bids) (λ b. record b { wallet_entry_id = some m.entry_id })
                    db.bids =
              ground (arith, moved) in
            let same : after.wallet ≡ wallet = ground (arith, moved) in
            let answer : balance ≡ m.balance_after_minor = ground (arith, moved) in
            (
              rw rows (unlinked-attach (has_id bids) m.entry_id db.bids),
              inr (v, e, rw same own, rw same kept, amount ∙ ground arith, answer ∙ left),
            )
      ]
