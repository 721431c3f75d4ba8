-- ===== src/Results/Refunds/Wallets.antt =====
-- The wallet that a participation fee comes back to.
use howlow.Prelude.{
  ℕ, ◌≡◌, refl, ◌∙◌, inl, inr, true, some, ◌∷◌, arith, Option-cases, All-first_where, first_where,
  first_where_holds, Keyed, ==_refl,
}
use howlow.Shared.{Currency, currency_eq, etb}
use howlow.Errors.{ok, >>=-eq-ok}
use howlow.Wallet.Rows.{WalletRecord, WalletDb, MovementResult, bid_fee_refund}
use howlow.Wallet.Repository.{
  belongs_to, ensure_wallet, find_wallet_by_id, find_wallet_by_user_id, new_wallet,
}
use howlow.Wallet.Ledger.Effect.{apply_movement_cases}
use howlow.Wallet.Service.{get_wallet, move, input_for, default_currency}
use howlow.Results.Checksum.{Postgres}
use howlow.Results.Repository.{ParticipantFees}
use howlow.Results.Refunds.{RefundSeeds, refund_payer, refund_request}

currency_eq_sound : (c d : Currency) → currency_eq c d ≡ true → c ≡ d
currency_eq_sound c d h = ground arith

-- `getWallet` returns a wallet of the user and the currency, and its id finds it.
get_wallet_returns :
    (fresh user_id : ℕ) (currency : Currency) (db mid : WalletDb) (w : WalletRecord)
    → Keyed (λ (x : WalletRecord). x.id) db.wallets
    → get_wallet fresh user_id currency db ≡ ok (w, mid)
    → (w.user_id ≡ user_id) × (w.currency ≡ currency) × (find_wallet_by_id w.id mid ≡ some w)
unfolding get_wallet ensure_wallet first_where
get_wallet_returns fresh user_id currency db mid w keyed h =
    elim (Option-cases (find_wallet_by_user_id user_id currency db)) [
      | inl e ↦
          let own : w ≡ new_wallet fresh user_id currency = ground arith in
          let rows : mid.wallets ≡ new_wallet fresh user_id currency ∷ db.wallets = ground arith in
          rw own (refl, refl, rw (rows, ==_refl fresh) refl)
      | inr (x, e) ↦
          let own : w ≡ x = ground arith in
          let rows : mid ≡ db = ground arith in
          let t = first_where_holds (belongs_to user_id currency) db.wallets x e in
          rw (own, rows)
            (
              ground arith,
              currency_eq_sound x.currency currency (ground arith),
              All-first_where _ (belongs_to user_id currency) db.wallets x keyed e,
            )
    ]

-- A participation fee that is paid back, or was before, is an entry in birr: the request names no
-- currency, whatever the currency of the auction that charged the fee. Ids of wallets are a primary key.
pub refund_payer-etb :
    (pg : Postgres) (seeds : RefundSeeds) (auction_id : ℕ) (payer : ParticipantFees)
    (db after : WalletDb) (m : MovementResult)
    → Keyed (λ (x : WalletRecord). x.id) db.wallets
    → refund_payer pg seeds auction_id payer db ≡ ok (m, after)
    → m.currency ≡ etb
unfolding move
refund_payer-etb pg seeds auction_id payer db after m keyed h =
    let request = refund_request pg seeds auction_id payer in
    let (w, mid, h1, k1) =
      >>=-eq-ok (get_wallet (seeds.wallet_id payer.user_id) payer.user_id default_currency) _ db
        (m, after) h in
    let (_, birr, own) =
      get_wallet_returns (seeds.wallet_id payer.user_id) payer.user_id default_currency db mid w
        keyed h1 in
    let (x, found, _, outcome) =
      apply_movement_cases (seeds.entry_id payer.user_id) (input_for bid_fee_refund request w) mid
        after m k1 in
    let same : w ≡ x = ground arith in
    elim outcome [
      | inl b ↦ rw b.result (rw (← same) birr)
      | inr (e, r) ↦
          let t : currency_eq e.currency x.currency ≡ true = ground (arith, r.same) in
          rw r.result (currency_eq_sound e.currency x.currency t ∙ rw (← same) birr)
    ]
