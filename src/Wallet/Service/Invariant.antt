-- ===== src/Wallet/Service/Invariant.antt =====
-- Every operation of the wallet service keeps the tables valid, whatever history led to them.
use howlow.Prelude.{
  ℕ, ◌≡◌, ◌≢◌, refl, Bool, Option, none, some, Text, List, [], ◌∷◌, ◌==◌, arith, ◌⊎◌, inl, inr,
  Option-cases, Bool-cases, update_where, not, ◌&&◌, All, All-map, All-update_where,
  update_where_miss, rows_where, first_where, is_some, or_else,
}
use howlow.Shared.{Currency}
use howlow.Auth.{Role}
use howlow.Errors.{ok, >>=-eq-ok}
use howlow.Wallet.Rows.{
  WalletEntryType, WalletRecord, WalletEntryRecord, MovementResult, WalletDb, WalletEvent,
}
use howlow.Wallet.Repository.{
  find_wallet_by_id, find_wallet_by_user_id, entries_of, sum_amounts, ensure_wallet, new_wallet,
  freeze_row, thaw_row, set_frozen, clear_frozen,
}
use howlow.Wallet.Invariant.{IsValid, IsBacked}
use howlow.Wallet.Ledger.{apply_movement}
use howlow.Wallet.Ledger.Preserves.{apply_movement-IsValid}
use howlow.Wallet.Service.{
  MovementRequest, AdminAdjustment, get_wallet, move, admin_adjust, freeze_wallet, unfreeze_wallet,
  input_for, adjustment_input, default_currency,
}

-- No entry names a wallet that is not there.
ledger_of_missing :
    (db : WalletDb) (id : ℕ) (es : List WalletEntryRecord)
    → find_wallet_by_id id db ≡ none
    → All (λ e. find_wallet_by_id e.wallet_id db ≢ none) es
    → entries_of id es ≡ []
unfolding rows_where
ledger_of_missing db id [] h a = refl
ledger_of_missing db id (e ∷ es) h a = ground (arith, ledger_of_missing db id es h a.1, a.0)

abbrev opened : ℕ → ℕ → Currency → WalletDb → WalletDb
opened fresh user_id currency db = record {
  wallets = new_wallet fresh user_id currency ∷ db.wallets;
  entries = db.entries;
  events = (WalletEvent.created, fresh) ∷ db.events;
}

opened-IsValid :
    (fresh user_id : ℕ) (currency : Currency) (db : WalletDb)
    → find_wallet_by_id fresh db ≡ none
    → IsValid db
    → IsValid (opened fresh user_id currency db)
unfolding sum_amounts first_where
opened-IsValid fresh user_id currency db missing v =
    let empty = ledger_of_missing db fresh db.entries missing v.owned in
    record {
      backed = (
        record {
          chain = rw empty tt;
          counted = rw empty;
          summed = rw empty;
          nonnegative = omega arith;
          unreserved = refl;
        },
        v.backed,
      );
      owned = All-map _ _ db.entries (λ e there gone. there (ground arith)) v.owned;
    }

-- `getWallet` leaves the tables alone or opens one wallet.
get_wallet_cases :
    (fresh user_id : ℕ) (currency : Currency) (db after : WalletDb) (w : WalletRecord)
    → get_wallet fresh user_id currency db ≡ ok (w, after)
    → (after ≡ db) ⊎ (after ≡ opened fresh user_id currency db)
unfolding get_wallet ensure_wallet
get_wallet_cases fresh user_id currency db after w h =
    elim (Option-cases (find_wallet_by_user_id user_id currency db)) [
      | inl e ↦ inr (ground arith)
      | inr (x, e) ↦ inl (ground arith)
    ]

get_wallet-IsValid :
    (fresh user_id : ℕ) (currency : Currency) (db after : WalletDb) (w : WalletRecord)
    → find_wallet_by_id fresh db ≡ none
    → IsValid db
    → get_wallet fresh user_id currency db ≡ ok (w, after)
    → IsValid after
get_wallet-IsValid fresh user_id currency db after w missing v h =
    elim (get_wallet_cases fresh user_id currency db after w h) [
      | inl same ↦ rw same v
      | inr new ↦ rw new (opened-IsValid fresh user_id currency db missing v)
    ]

move-IsValid :
    (fresh entry_id : ℕ) (t : WalletEntryType) (request : MovementRequest) (db after : WalletDb)
    (r : MovementResult)
    → find_wallet_by_id fresh db ≡ none
    → IsValid db
    → move fresh entry_id t request db ≡ ok (r, after)
    → IsValid after
unfolding move
move-IsValid fresh entry_id t request db after r missing v h =
    let (w, mid, got, applied) =
      >>=-eq-ok (get_wallet fresh request.user_id (or_else request.currency default_currency))
        (λ w. apply_movement entry_id (input_for t request w)) db (r, after) h in
    apply_movement-IsValid entry_id (input_for t request w) mid after r
      (get_wallet-IsValid fresh request.user_id _ db mid w missing v got) applied

-- An adjustment that is accepted is one movement on the tables as they were.
admin_adjust_movement :
    (roles : List Role) (entry_id : ℕ) (t : WalletEntryType) (a : AdminAdjustment)
    (db after : WalletDb) (r : MovementResult)
    → admin_adjust roles entry_id t a db ≡ ok (r, after)
    → (w : WalletRecord) × (apply_movement entry_id (adjustment_input t a w) db ≡ ok (r, after))
unfolding admin_adjust
admin_adjust_movement roles entry_id t a db after r h =
    elim (Option-cases (find_wallet_by_id a.wallet_id db)) [
      | inl e ↦ ground arith
      | inr (w, e) ↦ (w, ground arith)
    ]

-- A change of the rows that keeps ids, balances and versions keeps the tables valid.
restamped-IsValid :
    (p : WalletRecord → Bool) (f : WalletRecord → WalletRecord) (db : WalletDb)
    (events : List (WalletEvent × ℕ))
    → ((w : WalletRecord) → (f w).id ≡ w.id)
    → ((w : WalletRecord) → IsBacked db.entries w → IsBacked db.entries (f w))
    → IsValid db
    → IsValid
        (record { wallets = update_where p f db.wallets; entries = db.entries; events = events })
restamped-IsValid p f db events same keeps v = record {
  backed = All-update_where _ _ p f db.wallets (λ w b. ground (arith, keeps w b)) v.backed;
  owned =
      All-map _ _ db.entries
        (λ e there gone.
          there (update_where_miss _ p f db.wallets (λ w. ground (arith, same w)) gone))
        v.owned;
}

abbrev frozen_rows : ℕ → Text → ℕ → WalletDb → WalletDb
frozen_rows id reason now db = record {
  wallets =
      update_where (λ (w : WalletRecord). w.id == id && not (is_some w.frozen_at))
        (freeze_row now reason) db.wallets;
  entries = db.entries;
  events = (WalletEvent.frozen, id) ∷ db.events;
}

freeze_wallet_cases :
    (roles : List Role) (now wallet_id : ℕ) (reason : Text) (db after : WalletDb) (w : WalletRecord)
    → freeze_wallet roles now wallet_id reason db ≡ ok (w, after)
    → (after ≡ db) ⊎ ((id : ℕ) × (after ≡ frozen_rows id reason now db))
unfolding freeze_wallet set_frozen
freeze_wallet_cases roles now wallet_id reason db after w h =
    elim (Option-cases (find_wallet_by_id wallet_id db)) [
      | inl e ↦ ground arith
      | inr (x, e) ↦ elim (Bool-cases (is_some x.frozen_at)) [
        | inl old ↦ inl (ground arith)
        | inr new ↦ inr (x.id, ground arith)
      ]
    ]

abbrev thawed_rows : ℕ → WalletDb → WalletDb
thawed_rows id db = record {
  wallets = update_where (λ (w : WalletRecord). w.id == id) thaw_row db.wallets;
  entries = db.entries;
  events = (WalletEvent.unfrozen, id) ∷ db.events;
}

unfreeze_wallet_cases :
    (roles : List Role) (wallet_id : ℕ) (db after : WalletDb) (w : WalletRecord)
    → unfreeze_wallet roles wallet_id db ≡ ok (w, after)
    → (after ≡ db) ⊎ ((id : ℕ) × (after ≡ thawed_rows id db))
unfolding unfreeze_wallet clear_frozen
unfreeze_wallet_cases roles wallet_id db after w h =
    elim (Option-cases (find_wallet_by_id wallet_id db)) [
      | inl e ↦ ground arith
      | inr (x, e) ↦ elim (Bool-cases (is_some x.frozen_at)) [
        | inl old ↦ inr (x.id, ground arith)
        | inr new ↦ inl (ground arith)
      ]
    ]

-- Freezing and thawing touch no field that the invariant reads.
restamp-IsBacked :
    (es : List WalletEntryRecord) (at : Option ℕ) (why : Option Text) (w : WalletRecord)
    → IsBacked es w
    → IsBacked es (record w { frozen_at = at; frozen_reason = why })
restamp-IsBacked es at why w b = record {
  chain = b.chain;
  counted = b.counted;
  summed = b.summed;
  nonnegative = b.nonnegative;
  unreserved = b.unreserved;
}

-- A committed call of the service. The uuid of a new wallet is one that no wallet has.
pub data Step (db after : WalletDb) : Type 0 where
  moved :
      (fresh entry_id : ℕ) (t : WalletEntryType) (request : MovementRequest) (r : MovementResult)
      → find_wallet_by_id fresh db ≡ none
      → move fresh entry_id t request db ≡ ok (r, after)
      → Step db after
  adjusted :
      (roles : List Role) (entry_id : ℕ) (t : WalletEntryType) (a : AdminAdjustment)
      (r : MovementResult)
      → admin_adjust roles entry_id t a db ≡ ok (r, after)
      → Step db after
  got :
      (fresh user_id : ℕ) (currency : Currency) (w : WalletRecord)
      → find_wallet_by_id fresh db ≡ none
      → get_wallet fresh user_id currency db ≡ ok (w, after)
      → Step db after
  froze :
      (roles : List Role) (now wallet_id : ℕ) (reason : Text) (w : WalletRecord)
      → freeze_wallet roles now wallet_id reason db ≡ ok (w, after)
      → Step db after
  thawed :
      (roles : List Role) (wallet_id : ℕ) (w : WalletRecord)
      → unfreeze_wallet roles wallet_id db ≡ ok (w, after)
      → Step db after

pub data Reach (start : WalletDb) : WalletDb → Type 0 where
  here : Reach start start
  next : {db after : WalletDb} → Reach start db → Step db after → Reach start after

pub Step-IsValid : (db after : WalletDb) → Step db after → IsValid db → IsValid after
Step-IsValid db after (moved fresh entry_id t request r missing h) v =
    move-IsValid fresh entry_id t request db after r missing v h
Step-IsValid db after (adjusted roles entry_id t a r h) v =
    let (w, applied) = admin_adjust_movement roles entry_id t a db after r h in
    apply_movement-IsValid entry_id (adjustment_input t a w) db after r v applied
Step-IsValid db after (got fresh user_id currency w missing h) v =
    get_wallet-IsValid fresh user_id currency db after w missing v h
Step-IsValid db after (froze roles now wallet_id reason w h) v =
    elim (freeze_wallet_cases roles now wallet_id reason db after w h) [
      | inl same ↦ rw same v
      | inr (id, e) ↦ rw e (
          restamped-IsValid _ _ db _ (λ w. refl)
            (restamp-IsBacked db.entries (some now) (some reason)) v)
    ]
Step-IsValid db after (thawed roles wallet_id w h) v =
    elim (unfreeze_wallet_cases roles wallet_id db after w h) [
      | inl same ↦ rw same v
      | inr (id, e) ↦
          rw e (restamped-IsValid _ _ db _ (λ w. refl) (restamp-IsBacked db.entries none none) v)
    ]

abbrev pub no_rows : WalletDb
no_rows = record { wallets = []; entries = []; events = [] }

-- Whatever calls have been committed since the tables were empty, every wallet is backed by its ledger.
pub Reach-IsValid : {db : WalletDb} → Reach no_rows db → IsValid db
Reach-IsValid here = record { backed = tt; owned = tt }
Reach-IsValid (next r s) = Step-IsValid _ _ s (Reach-IsValid r)
