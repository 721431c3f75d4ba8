-- ===== src/Wallet/Ledger/Retry.antt =====
-- A keyed movement that is sent again, and a movement that meets every guard.
use howlow.Prelude.{
  ℕ, ◌+◌, ◌<◌, ◌≡◌, ◌≢◌, refl, true, false, none, some, Text, ◌∷◌, ◌==◌, arith, inl, inr, ◌∙◌,
  update_where, first_where, text_eq_refl, List, [], first_where_holds, ==_iff, subst, sym,
  first_where-update_where_apart, if◌then◌else◌,
}
use howlow.Prelude.Int.{ℤ_eq_refl, ℤ, pos, ◌≤ℤ◌, ◌+ℤ◌, ◌-ℤ◌, ◌*ℤ◌, pos_part}
use howlow.Shared.{Currency, currency_eq}
use howlow.Errors.{ok}
use howlow.Wallet.Rows.{
  WalletRecord, WalletEntryRecord, MovementInput, MovementResult, WalletDb, is_credit,
}
use howlow.Wallet.Repository.{
  find_wallet_by_id, with_balance, update_wallet_balance, insert_entry, reference_complete,
  memo_not_blank, bigint_limit,
}
use howlow.Wallet.Ledger.{
  apply_movement, book, replay, replay_or_book, new_entry, existing_entry, same_movement, differs,
  is_hold,
}
use howlow.Wallet.Ledger.Effect.{
  apply_movement_cases, booked, booked_result, replayed_result, balance_after, signed_minor,
}

currency_eq_refl : (c : Currency) → currency_eq c c ≡ true
currency_eq_refl c = ground arith

-- The wallet that was found is found after its balance is set, with the balance.
find_updated :
    (id : ℕ) (balance : ℤ) (ws : List WalletRecord) (w : WalletRecord)
    → first_where (λ (v : WalletRecord). v.id == id) ws ≡ some w
    → first_where
        (λ (v : WalletRecord). v.id == id)
        (update_where (λ (v : WalletRecord). v.id == id) (with_balance balance) ws)
      ≡ some (with_balance balance w)
unfolding first_where update_where
find_updated id balance [] w h = cc
find_updated id balance (v ∷ ws) w h = ground (arith, find_updated id balance ws w)

new_entry-same :
    (entry_id : ℕ) (input : MovementInput) (w : WalletRecord) (signed : ℤ)
    → same_movement (new_entry entry_id input w signed) input.type w.currency signed ≡ true
new_entry-same entry_id input w signed =
    ground (arith, ℤ_eq_refl signed, currency_eq_refl w.currency)

-- A request past its first guards is at the point where it replays or books.
module _ (entry_id : ℕ) (input : MovementInput) (db : WalletDb) (w : WalletRecord) where
  reaches :
      find_wallet_by_id input.wallet_id db ≡ some w
      → is_hold input.type ≡ false
      → pos 1 ≤ℤ input.amount_minor
      → differs input.currency w.currency ≡ false
      → apply_movement entry_id input db
        ≡ replay_or_book entry_id input w (signed_minor input) (existing_entry input db) db
  unfolding apply_movement
  reaches found movable positive currency = ground arith

  book_accepts :
      (is_credit input.type ≡ false → w.frozen_at ≡ none)
      → pos 0 ≤ℤ balance_after input w
      → pos_part (balance_after input w) < bigint_limit
      → reference_complete input.reference_type input.reference_id ≡ true
      → memo_not_blank input.memo ≡ true
      → book entry_id input w (signed_minor input) db
        ≡ ok (booked_result entry_id input w, booked entry_id input w db)
  unfolding book update_wallet_balance insert_entry
  book_accepts thawed solvent bounded complete worded = ground arith

  replay_accepts :
      (e : WalletEntryRecord)
      → same_movement e input.type w.currency (signed_minor input) ≡ true
      → replay input w (signed_minor input) e db ≡ ok (replayed_result w e, db)
  unfolding replay
  replay_accepts e same = ground arith

  accepts :
      find_wallet_by_id input.wallet_id db ≡ some w
      → is_hold input.type ≡ false
      → pos 1 ≤ℤ input.amount_minor
      → differs input.currency w.currency ≡ false
      → existing_entry input db ≡ none
      → (is_credit input.type ≡ false → w.frozen_at ≡ none)
      → pos 0 ≤ℤ balance_after input w
      → pos_part (balance_after input w) < bigint_limit
      → reference_complete input.reference_type input.reference_id ≡ true
      → memo_not_blank input.memo ≡ true
      → apply_movement entry_id input db
        ≡ ok (booked_result entry_id input w, booked entry_id input w db)
  unfolding replay_or_book
  accepts found movable positive currency unseen thawed solvent bounded complete worded =
      reaches found movable positive currency
      ∙ rw unseen (book_accepts thawed solvent bounded complete worded)

-- The guards that an accepted request has passed.
passed :
    (entry_id : ℕ) (input : MovementInput) (db after : WalletDb) (r : MovementResult)
    (w : WalletRecord)
    → find_wallet_by_id input.wallet_id db ≡ some w
    → apply_movement entry_id input db ≡ ok (r, after)
    → (is_hold input.type ≡ false) × (differs input.currency w.currency ≡ false)
unfolding apply_movement
passed entry_id input db after r w found h = ground arith

find_booked :
    (entry_id : ℕ) (input : MovementInput) (db : WalletDb) (w : WalletRecord)
    → find_wallet_by_id input.wallet_id db ≡ some w
    → find_wallet_by_id input.wallet_id (booked entry_id input w db)
      ≡ some (with_balance (balance_after input w) w)
find_booked entry_id input db w found =
    let named : w.id ≡ input.wallet_id =
      (==_iff _ _).0
        (first_where_holds (λ (u : WalletRecord). u.id == input.wallet_id) db.wallets w found) in
    subst
      (λ i.
        first_where (λ (v : WalletRecord). v.id == input.wallet_id)
          (update_where (λ (v : WalletRecord). v.id == i) (with_balance (balance_after input w))
            db.wallets)
        ≡ some (with_balance (balance_after input w) w))
      (sym named) (find_updated input.wallet_id (balance_after input w) db.wallets w found)

pub find_booked_entry :
    (entry_id : ℕ) (input : MovementInput) (db : WalletDb) (w : WalletRecord) (k : Text)
    → input.idempotency_key ≡ some k
    → w.id ≡ input.wallet_id
    → existing_entry input (booked entry_id input w db)
      ≡ some (new_entry entry_id input w (signed_minor input))
unfolding first_where
find_booked_entry entry_id input db w k key named = ground (arith, text_eq_refl k)

signed_minor_lem :
    (input : MovementInput)
    → signed_minor input
      ≡ (if is_credit input.type then input.amount_minor else pos 0 -ℤ input.amount_minor)
unfolding ◌*ℤ◌ ◌-ℤ◌
signed_minor_lem input = ground arith

-- A request meets every guard: it is of a movable type and of a positive magnitude, its wallet is there
-- and of its currency, its key is not seen before, it is a credit or the wallet is not frozen, the
-- balance that results is a BIGINT of zero or more, its reference has both a type and an id or neither,
-- and its memo, if it has one, is not only spaces. Then it is accepted. The wallet's balance is higher by
-- the amount of a credit, or lower by that of a debit, its version is one more, and any other wallet is
-- as it was. One entry is added, with the signed amount, the balance after it and the new version as its
-- number, and the answer says so.
pub apply_movement_accepts :
    (entry_id other : ℕ) (input : MovementInput) (db : WalletDb) (w : WalletRecord)
    → find_wallet_by_id input.wallet_id db ≡ some w
    → other ≢ input.wallet_id
    → is_hold input.type ≡ false
    → pos 1 ≤ℤ input.amount_minor
    → differs input.currency w.currency ≡ false
    → existing_entry input db ≡ none
    → (is_credit input.type ≡ false → w.frozen_at ≡ none)
    → let signed =
        if is_credit input.type then input.amount_minor else pos 0 -ℤ input.amount_minor in
      let balance = w.available_minor +ℤ signed in
      pos 0 ≤ℤ balance
      → pos_part balance < 9_223_372_036_854_775_808
      → reference_complete input.reference_type input.reference_id ≡ true
      → memo_not_blank input.memo ≡ true
      → (after : WalletDb) × (apply_movement entry_id input db
          ≡ ok (
            record {
              wallet_id = w.id;
              entry_id = entry_id;
              amount_minor = signed;
              balance_after_minor = balance;
              currency = w.currency;
              replayed = false;
            },
            after,
          ))
        × (find_wallet_by_id input.wallet_id after
            ≡ some (record w { available_minor = balance; version = w.version + 1 }))
        × (find_wallet_by_id other after ≡ find_wallet_by_id other db)
        × (after.entries
            ≡ record {
              id = entry_id;
              wallet_id = w.id;
              user_id = w.user_id;
              seq = w.version + 1;
              type = input.type;
              currency = w.currency;
              amount_minor = signed;
              balance_after_minor = balance;
              reference_type = input.reference_type;
              reference_id = input.reference_id;
              memo = input.memo;
              idempotency_key = input.idempotency_key;
              created_by = input.actor_user_id;
              channel = input.channel;
            }
              ∷ db.entries)
apply_movement_accepts entry_id other input db w found apart movable positive currency unseen thawed
      solvent bounded complete worded =
    rw (← signed_minor_lem input) (
      booked entry_id input w db,
      accepts entry_id input db w found movable positive currency unseen thawed
          (rw (signed_minor_lem input) solvent) (rw (signed_minor_lem input) bounded) complete
          worded,
      find_booked entry_id input db w found,
      first_where-update_where_apart (λ (v : WalletRecord). v.id == other)
          (λ (v : WalletRecord). v.id == w.id) (with_balance (balance_after input w)) db.wallets
          (λ b at_w.
            let named : w.id ≡ input.wallet_id = (==_iff _ _).0 (
              first_where_holds (λ (u : WalletRecord). u.id == input.wallet_id) db.wallets w
                found) in
            let here : b.id ≡ w.id = (==_iff _ _).0 at_w in
            let away : (b.id == other) ≡ false = ground (arith, here, named) in (away, away)),
      refl,
    )

-- Sent again under its key, whatever happened to the answer, an accepted request moves nothing: it
-- answers with the entry that it booked, marked as replayed.
pub apply_movement-retry :
    (entry_id again_id : ℕ) (input : MovementInput) (db after : WalletDb) (r : MovementResult)
    (k : Text)
    → input.idempotency_key ≡ some k
    → apply_movement entry_id input db ≡ ok (r, after)
    → apply_movement again_id input after ≡ ok (record r { replayed = true }, after)
unfolding replay_or_book
apply_movement-retry entry_id again_id input db after r k key h =
    let (w, found, positive, outcome) = apply_movement_cases entry_id input db after r h in
    let (movable, currency) = passed entry_id input db after r w found h in
    elim outcome [
      | inl b ↦
          rw (b.rows, b.result)
            (reaches again_id input (booked entry_id input w db)
                (with_balance (balance_after input w) w) (find_booked entry_id input db w found)
                movable positive currency
              ∙ rw
                  (find_booked_entry entry_id input db w k key (
                    (==_iff _ _).0 (
                      first_where_holds (λ (u : WalletRecord). u.id == input.wallet_id) db.wallets w
                        found)))
                  (replay_accepts again_id input _ _ _
                    (new_entry-same entry_id input w (signed_minor input))))
      | inr (e, p) ↦
          rw (p.unchanged, p.result)
            (reaches again_id input db w found movable positive currency
              ∙ rw p.seen (replay_accepts again_id input db w e p.same))
    ]
