-- ===== src/Wallet/Ledger/Effect.antt =====
-- What a movement that is accepted has done: it replays an entry and changes nothing, or it books one.
use howlow.Prelude.{
  ℕ, ◌<◌, ◌≡◌, refl, true, false, Option, none, some, ◌∷◌, ◌==◌, arith, ◌⊎◌, inl, inr, Option-cases,
  update_where,
}
use howlow.Prelude.Int.{ℤ, pos, ◌+ℤ◌, ◌*ℤ◌, ◌≤ℤ◌, pos_part}
use howlow.Errors.{ok}
use howlow.Wallet.Rows.{
  WalletRecord, WalletEntryRecord, MovementInput, MovementResult, WalletDb, wallet_entry_direction,
  is_credit,
}
use howlow.Wallet.Repository.{
  find_wallet_by_id, with_balance, update_wallet_balance, insert_entry, bigint_limit,
}
use howlow.Wallet.Ledger.{
  book, replay, replay_or_book, apply_movement, new_entry, existing_entry, same_movement,
  wallet_event_for,
}

-- The signed amount of a request.
abbrev pub signed_minor : MovementInput → ℤ
signed_minor input = wallet_entry_direction input.type *ℤ input.amount_minor

abbrev pub balance_after : MovementInput → WalletRecord → ℤ
balance_after input w = w.available_minor +ℤ signed_minor input

-- The tables after a booking: one balance, one entry and one event more.
abbrev pub booked : ℕ → MovementInput → WalletRecord → WalletDb → WalletDb
booked entry_id input w db = record {
  wallets =
      update_where (λ (v : WalletRecord). v.id == w.id) (with_balance (balance_after input w))
        db.wallets;
  entries = new_entry entry_id input w (signed_minor input) ∷ db.entries;
  events = (wallet_event_for input.type, w.id) ∷ db.events;
}

abbrev pub booked_result : ℕ → MovementInput → WalletRecord → MovementResult
booked_result entry_id input w = record {
  wallet_id = w.id;
  entry_id = entry_id;
  amount_minor = signed_minor input;
  balance_after_minor = balance_after input w;
  currency = w.currency;
  replayed = false;
}

abbrev pub replayed_result : WalletRecord → WalletEntryRecord → MovementResult
replayed_result w e = record {
  wallet_id = w.id;
  entry_id = e.id;
  amount_minor = e.amount_minor;
  balance_after_minor = e.balance_after_minor;
  currency = e.currency;
  replayed = true;
}

pub record IsBooked (entry_id : ℕ) (input : MovementInput) (db : WalletDb) (w : WalletRecord)
    (r : MovementResult) (after : WalletDb) : Type 0 where
  pub unseen : existing_entry input db ≡ none
  pub solvent : pos 0 ≤ℤ balance_after input w
  pub bounded : pos_part (balance_after input w) < bigint_limit
  pub thawed : is_credit input.type ≡ false → w.frozen_at ≡ none
  pub result : r ≡ booked_result entry_id input w
  pub rows : after ≡ booked entry_id input w db

pub record IsReplayed (input : MovementInput) (db : WalletDb) (w : WalletRecord)
    (e : WalletEntryRecord) (r : MovementResult) (after : WalletDb) : Type 0 where
  pub seen : existing_entry input db ≡ some e
  pub same : same_movement e input.type w.currency (signed_minor input) ≡ true
  pub result : r ≡ replayed_result w e
  pub unchanged : after ≡ db

book-IsBooked :
    (entry_id : ℕ) (input : MovementInput) (w : WalletRecord) (db after : WalletDb)
    (r : MovementResult)
    → existing_entry input db ≡ none
    → book entry_id input w (signed_minor input) db ≡ ok (r, after)
    → IsBooked entry_id input db w r after
unfolding book update_wallet_balance insert_entry
book-IsBooked entry_id input w db after r u h = record {
  unseen = u;
  solvent = ground arith;
  bounded = ground arith;
  thawed = ground arith;
  result = ground arith;
  rows = ground arith;
}

replay-IsReplayed :
    (input : MovementInput) (w : WalletRecord) (e : WalletEntryRecord) (db after : WalletDb)
    (r : MovementResult)
    → existing_entry input db ≡ some e
    → replay input w (signed_minor input) e db ≡ ok (r, after)
    → IsReplayed input db w e r after
unfolding replay
replay-IsReplayed input w e db after r u h = ground arith

-- The guards in front of the two cases.
apply_movement_guards :
    (entry_id : ℕ) (input : MovementInput) (db after : WalletDb) (r : MovementResult)
    → apply_movement entry_id input db ≡ ok (r, after)
    → (w : WalletRecord) × (find_wallet_by_id input.wallet_id db ≡ some w)
      × (pos 1 ≤ℤ input.amount_minor)
      × (replay_or_book entry_id input w (signed_minor input) (existing_entry input db) db
          ≡ ok (r, after))
unfolding apply_movement
apply_movement_guards entry_id input db after r h =
    elim (Option-cases (find_wallet_by_id input.wallet_id db)) [
      | inl e ↦ ground arith
      | inr (w, e) ↦ (w, e, ground arith, ground arith)
    ]

settle :
    (entry_id : ℕ) (input : MovementInput) (w : WalletRecord) (db after : WalletDb)
    (r : MovementResult) (found : Option WalletEntryRecord)
    → existing_entry input db ≡ found
    → replay_or_book entry_id input w (signed_minor input) found db ≡ ok (r, after)
    → IsBooked entry_id input db w r after
      ⊎ ((e : WalletEntryRecord) × IsReplayed input db w e r after)
unfolding replay_or_book
settle entry_id input w db after r none u h = inl (book-IsBooked entry_id input w db after r u h)
settle entry_id input w db after r (some e) u h =
    inr (e, replay-IsReplayed input w e db after r u h)

-- An accepted movement has a positive magnitude, names a wallet that is there, and has either booked
-- one entry or replayed one.
pub apply_movement_cases :
    (entry_id : ℕ) (input : MovementInput) (db after : WalletDb) (r : MovementResult)
    → apply_movement entry_id input db ≡ ok (r, after)
    → (w : WalletRecord) × (find_wallet_by_id input.wallet_id db ≡ some w)
      × (pos 1 ≤ℤ input.amount_minor)
      × (IsBooked entry_id input db w r after
          ⊎ ((e : WalletEntryRecord) × IsReplayed input db w e r after))
apply_movement_cases entry_id input db after r h =
    let (w, e, m, g) = apply_movement_guards entry_id input db after r h in
    (w, e, m, settle entry_id input w db after r (existing_entry input db) refl g)
