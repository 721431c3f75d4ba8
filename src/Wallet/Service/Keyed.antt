-- ===== src/Wallet/Service/Keyed.antt =====
-- What a movement with an idempotency key leaves behind: the entry under the key.
use howlow.Prelude.{
  ℕ, ◌≡◌, refl, ap, ◌∙◌, inl, inr, some, Text, ◌∷◌, ◌==◌, ==_iff, ==_refl, arith, Option-cases,
  Bool-cases, first_where, first_where_holds, first_where-update_where, or_else,
}
use howlow.Prelude.Int.{◌*ℤ◌, ℤ_eq_sound}
use howlow.Shared.{Currency}
use howlow.Errors.{ok, >>=-eq-ok}
use howlow.Wallet.Rows.{
  WalletEntryType, wallet_entry_direction, WalletRecord, WalletEntryRecord, WalletDb, MovementInput,
  MovementResult,
}
use howlow.Wallet.Repository.{
  belongs_to, ensure_wallet, find_wallet_by_user_id, find_entry_by_idempotency_key, with_balance,
  new_wallet,
}
use howlow.Wallet.Ledger.{apply_movement, existing_entry, new_entry}
use howlow.Wallet.Ledger.Effect.{apply_movement_cases, balance_after, booked, signed_minor}
use howlow.Wallet.Ledger.Retry.{find_booked_entry}
use howlow.Wallet.Service.{MovementRequest, get_wallet, move, input_for, default_currency}

-- `getWallet` finds the wallet that it has returned.
pub get_wallet_found :
    (fresh user_id : ℕ) (currency : Currency) (db mid : WalletDb) (w : WalletRecord)
    → get_wallet fresh user_id currency db ≡ ok (w, mid)
    → find_wallet_by_user_id user_id currency mid ≡ some w
unfolding get_wallet ensure_wallet first_where
get_wallet_found fresh user_id currency db mid w h =
    elim (Option-cases (find_wallet_by_user_id user_id currency db)) [
      | inl e ↦
          let own : w ≡ new_wallet fresh user_id currency = ground arith in
          let rows : mid.wallets ≡ new_wallet fresh user_id currency ∷ db.wallets = ground arith in
          rw (rows, own, ==_refl user_id) (ground arith)
      | inr (x, e) ↦ ground arith
    ]

-- A movement leaves the user's wallet the one that is found, under its id.
pub wallet_after :
    (entry_id : ℕ) (input : MovementInput) (mid after : WalletDb) (m : MovementResult) (user_id : ℕ)
    (currency : Currency) (w : WalletRecord)
    → find_wallet_by_user_id user_id currency mid ≡ some w
    → apply_movement entry_id input mid ≡ ok (m, after)
    → (v : WalletRecord) × (find_wallet_by_user_id user_id currency after ≡ some v) × (v.id ≡ w.id)
wallet_after entry_id input mid after m user_id currency w found h =
    let (x, _, _, outcome) = apply_movement_cases entry_id input mid after m h in
    elim outcome [
      | inr (e, r) ↦ (w, rw r.unchanged found, refl)
      | inl b ↦
          let f =
            first_where-update_where (belongs_to user_id currency)
              (λ (y : WalletRecord). y.id == x.id) (with_balance (balance_after input x))
              mid.wallets w (λ y. refl) found in
          elim (Bool-cases (w.id == x.id)) [
            | inl t ↦ (with_balance (balance_after input x) w, rw b.rows (f ∙ rw t refl), refl)
            | inr n ↦ (w, rw b.rows (f ∙ rw n refl), refl)
          ]
    ]

existing_entry_keyed :
    (input : MovementInput) (k : Text) (db : WalletDb)
    → input.idempotency_key ≡ some k
    → existing_entry input db ≡ find_entry_by_idempotency_key input.wallet_id k db
existing_entry_keyed input k db key = rw key refl

-- The entry that an accepted movement leaves under its key.
pub apply_movement-keyed :
    (entry_id : ℕ) (input : MovementInput) (db after : WalletDb) (m : MovementResult) (k : Text)
    → input.idempotency_key ≡ some k
    → apply_movement entry_id input db ≡ ok (m, after)
    → (e : WalletEntryRecord) × (find_entry_by_idempotency_key input.wallet_id k after ≡ some e)
      × (e.amount_minor ≡ wallet_entry_direction input.type *ℤ input.amount_minor)
      × (m.balance_after_minor ≡ e.balance_after_minor)
      × (m.entry_id ≡ e.id)
apply_movement-keyed entry_id input db after m k key h =
    let (x, named, _, outcome) = apply_movement_cases entry_id input db after m h in
    let own : x.id ≡ input.wallet_id =
      (==_iff _ _).0
        (first_where_holds (λ (u : WalletRecord). u.id == input.wallet_id) db.wallets x named) in
    elim outcome [
      | inl b ↦
          let there = find_booked_entry entry_id input db x k key own in
          (
            new_entry entry_id input x (signed_minor input),
            rw (b.rows, ← existing_entry_keyed input k (booked entry_id input x db) key) there,
            refl,
            ap (λ (y : MovementResult). y.balance_after_minor) b.result,
            ap (λ (y : MovementResult). y.entry_id) b.result,
          )
      | inr (e, r) ↦ (
        e,
        rw (r.unchanged, ← existing_entry_keyed input k db key) r.seen,
        ℤ_eq_sound e.amount_minor (signed_minor input) (ground (arith, r.same)),
        ap (λ (y : MovementResult). y.balance_after_minor) r.result,
        ap (λ (y : MovementResult). y.entry_id) r.result,
      )
    ]

-- The user's wallet has an entry under the key, with the signed amount of the request, and the answer
-- has the balance after that entry.
pub move-keyed :
    (fresh entry_id : ℕ) (t : WalletEntryType) (request : MovementRequest) (db after : WalletDb)
    (m : MovementResult) (k : Text)
    → request.idempotency_key ≡ some k
    → move fresh entry_id t request db ≡ ok (m, after)
    → (v : WalletRecord) × (e : WalletEntryRecord) × (find_wallet_by_user_id request.user_id
          (or_else request.currency default_currency)
          after
        ≡ some v)
      × (find_entry_by_idempotency_key v.id k after ≡ some e)
      × (e.amount_minor ≡ wallet_entry_direction t *ℤ request.amount_minor)
      × (m.balance_after_minor ≡ e.balance_after_minor)
      × (m.entry_id ≡ e.id)
unfolding move
move-keyed fresh entry_id t request db after m k key h =
    let currency = or_else request.currency default_currency in
    let (w, mid, h1, k1) =
      >>=-eq-ok (get_wallet fresh request.user_id currency) _ db (m, after) h in
    let input = input_for t request w in
    let found = get_wallet_found fresh request.user_id currency db mid w h1 in
    let (v, there, same) =
      wallet_after entry_id input mid after m request.user_id currency w found k1 in
    let (e, kept, amount, balance, id) = apply_movement-keyed entry_id input mid after m k key k1 in
    (v, e, there, rw same kept, amount, balance, id)
