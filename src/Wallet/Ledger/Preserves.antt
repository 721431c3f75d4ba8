-- ===== src/Wallet/Ledger/Preserves.antt =====
-- A movement keeps every wallet's row and its ledger in agreement.
use howlow.Prelude.{
  ℕ, ◌≡◌, ◌≢◌, refl, true, Option, none, some, Text, List, [], ◌∷◌, ◌==◌, arith, inl, inr,
  Bool-cases, All-map, All-update_where, All-first_where, first_where_holds, update_where_miss,
  rows_where, first_where, ==_iff, if◌then◌else◌, length, ap,
}
use howlow.Prelude.Int.{pos, ◌≤ℤ◌, +ℤ_comm}
use howlow.Errors.{ok}
use howlow.Wallet.Rows.{WalletRecord, WalletEntryRecord, MovementInput, MovementResult, WalletDb}
use howlow.Wallet.Repository.{find_wallet_by_id, with_balance, entries_of, sum_amounts, has_key}
use howlow.Wallet.Invariant.{IsValid, IsBacked, Chain, key_free}
use howlow.Wallet.Ledger.{apply_movement, new_entry, existing_entry}
use howlow.Wallet.Ledger.Effect.{apply_movement_cases, booked, balance_after, signed_minor}

key_free-entries_of :
    (wallet_id : ℕ) (k : Text) (es : List WalletEntryRecord)
    → first_where (has_key wallet_id k) es ≡ none
    → key_free (some k) (entries_of wallet_id es) ≡ true
unfolding first_where rows_where
key_free-entries_of wallet_id k [] h = refl
key_free-entries_of wallet_id k (e ∷ es) h = ground (arith, key_free-entries_of wallet_id k es)

key_free-existing :
    (input : MovementInput) (db : WalletDb)
    → existing_entry input db ≡ none
    → key_free input.idempotency_key (entries_of input.wallet_id db.entries) ≡ true
key_free-existing input db h = go input.idempotency_key refl
  where
    go :
        (k : Option Text)
        → input.idempotency_key ≡ k
        → key_free k (entries_of input.wallet_id db.entries) ≡ true
    go none e = refl
    go (some k) e = key_free-entries_of input.wallet_id k db.entries (rw e at h)

module _ (entry_id : ℕ) (input : MovementInput) (db : WalletDb) (w : WalletRecord)
    (named : w.id ≡ input.wallet_id) (backed : IsBacked db.entries w)
    (unseen : existing_entry input db ≡ none) (solvent : pos 0 ≤ℤ balance_after input w) where
  own_ledger :
      entries_of w.id (booked entry_id input w db).entries
      ≡ new_entry entry_id input w (signed_minor input) ∷ entries_of w.id db.entries
  unfolding rows_where
  own_ledger = ground arith

  other_ledger :
      (v : WalletRecord)
      → v.id ≢ w.id
      → entries_of v.id (booked entry_id input w db).entries ≡ entries_of v.id db.entries
  unfolding rows_where
  other_ledger v ne = ground arith

  own-Chain : Chain (new_entry entry_id input w (signed_minor input) ∷ entries_of w.id db.entries)
  own-Chain = (
    omega (arith, backed.counted),
    rw (← backed.summed) (+ℤ_comm w.available_minor (signed_minor input)),
    solvent,
    rw named (key_free-existing input db unseen),
    backed.chain,
  )

  own-IsBacked :
      (v : WalletRecord)
      → v.id ≡ w.id
      → IsBacked db.entries v
      → IsBacked (booked entry_id input w db).entries (with_balance (balance_after input w) v)
  unfolding sum_amounts
  own-IsBacked v e b =
      let new = new_entry entry_id input w (signed_minor input) in
      let own : entries_of v.id (booked entry_id input w db).entries
          ≡ new ∷ entries_of w.id db.entries =
        rw e own_ledger in
      record {
        chain = rw own own-Chain;
        counted = rw own (omega (arith, b.counted, ap (λ i. length (entries_of i db.entries)) e));
        summed = rw (own, backed.summed) (+ℤ_comm _ _);
        nonnegative = solvent;
        unreserved = b.unreserved;
      }

  row-IsBacked :
      (v : WalletRecord)
      → IsBacked db.entries v
      → IsBacked
          (booked entry_id input w db).entries
          (if v.id == w.id then with_balance (balance_after input w) v else v)
  row-IsBacked v b = elim (Bool-cases (v.id == w.id)) [
    | inl t ↦ rw t (own-IsBacked v ((==_iff _ _).0 t) b)
    | inr f ↦
        let other = other_ledger v (λ e. ground arith) in
        rw f (record {
          chain = rw other b.chain;
          counted = rw other b.counted;
          summed = rw other b.summed;
          nonnegative = b.nonnegative;
          unreserved = b.unreserved;
        })
  ]

  still_there :
      (id : ℕ)
      → find_wallet_by_id id db ≢ none
      → find_wallet_by_id id (booked entry_id input w db) ≢ none
  still_there id h gone = h (update_where_miss _ _ _ db.wallets (λ v. refl) gone)

  pub booked-IsValid :
      find_wallet_by_id input.wallet_id db ≡ some w
      → IsValid db
      → IsValid (booked entry_id input w db)
  booked-IsValid found v = record {
    backed = All-update_where _ _ _ _ db.wallets row-IsBacked v.backed;
    owned =
        (still_there w.id (λ e. cc), All-map _ _ db.entries (λ e. still_there e.wallet_id) v.owned);
  }

-- A movement that is accepted, booked or replayed, leaves the tables valid.
pub apply_movement-IsValid :
    (entry_id : ℕ) (input : MovementInput) (db after : WalletDb) (r : MovementResult)
    → IsValid db
    → apply_movement entry_id input db ≡ ok (r, after)
    → IsValid after
apply_movement-IsValid entry_id input db after r v h =
    let (w, found, _, outcome) = apply_movement_cases entry_id input db after r h in
    let named : w.id ≡ input.wallet_id =
      (==_iff _ _).0
        (first_where_holds (λ (u : WalletRecord). u.id == input.wallet_id) db.wallets w found) in
    let backed = All-first_where (IsBacked db.entries) _ db.wallets w v.backed found in
    elim outcome [
      | inl b ↦
          rw b.rows (booked-IsValid entry_id input db w named backed b.unseen b.solvent found v)
      | inr (e, p) ↦ rw p.unchanged v
    ]
