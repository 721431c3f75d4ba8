-- ===== src/Results/Refunds/Again.antt =====
-- A participation fee that is paid back a second time.
use howlow.Prelude.{ℕ, ◌≡◌, refl, ◌∙◌, true, some, arith}
use howlow.Shared.{Currency}
use howlow.Errors.{ok, >>=-eq-ok, >>=-ok}
use howlow.Wallet.Rows.{WalletRecord, WalletDb, MovementResult, bid_fee_refund}
use howlow.Wallet.Repository.{ensure_wallet, find_wallet_by_user_id}
use howlow.Wallet.Ledger.Retry.{apply_movement-retry}
use howlow.Wallet.Service.Keyed.{get_wallet_found, wallet_after}
use howlow.Wallet.Service.{get_wallet, move, input_for, default_currency}
use howlow.Results.Checksum.{Postgres}
use howlow.Results.Repository.{ParticipantFees}
use howlow.Results.Refunds.{RefundSeeds, refund_payer, refund_request, refund_idempotency_key}

get_wallet_again :
    (fresh user_id : ℕ) (currency : Currency) (db : WalletDb) (w : WalletRecord)
    → find_wallet_by_user_id user_id currency db ≡ some w
    → get_wallet fresh user_id currency db ≡ ok (w, db)
unfolding get_wallet ensure_wallet
get_wallet_again fresh user_id currency db w e = ground (arith, e)

-- A fee that was paid back to a user, and is paid back again right after, moves nothing the second time:
-- the tables stay, and the answer is the first one, marked as replayed. The two calls have the same memo,
-- channel and actor; the uuids that they draw may differ.
pub refund_payer-again :
    (pg : Postgres) (seeds later : RefundSeeds) (auction_id : ℕ) (payer : ParticipantFees)
    (db after : WalletDb) (m : MovementResult)
    → seeds.memo ≡ later.memo
    → seeds.channel ≡ later.channel
    → seeds.actor_user_id ≡ later.actor_user_id
    → refund_payer pg seeds auction_id payer db ≡ ok (m, after)
    → refund_payer pg later auction_id payer after ≡ ok (record m { replayed = true }, after)
unfolding move
refund_payer-again pg seeds later auction_id payer db after m memo channel actor h =
    let u = payer.user_id in
    let (w, mid, h1, k1) =
      >>=-eq-ok (get_wallet (seeds.wallet_id u) u default_currency) _ db (m, after) h in
    let found = get_wallet_found (seeds.wallet_id u) u default_currency db mid w h1 in
    let input = input_for bid_fee_refund (refund_request pg seeds auction_id payer) w in
    let (v, there, same) =
      wallet_after (seeds.entry_id u) input mid after m u default_currency w found k1 in
    >>=-ok (get_wallet (later.wallet_id u) u default_currency) _ after after v
      (get_wallet_again (later.wallet_id u) u default_currency after v there)
    ∙ rw (same, ← memo, ← channel, ← actor)
        (apply_movement-retry (seeds.entry_id u) (later.entry_id u) input mid after m
          (refund_idempotency_key pg auction_id u) refl k1)
