-- ===== src/Wallet/Reconciliation/Sweep/Complete.antt =====
-- The sweep ends, and reports on every wallet once.
use howlow.Prelude.{
  ℕ, zero, suc, ◌+◌, ◌≤◌, ◌<◌, ◌≡◌, refl, sym, ap, subst, ◌∙◌, true, false, Option, none, some,
  List, [], ◌∷◌, ◌++◌, ◌==◌, ==_refl, map, ltb, length, All, All-map, Bool-cases, inl, inr,
  first_where, rows_where, if◌then◌else◌, arith,
}
use howlow.Errors.{ok, pure, >>=-ok}
use howlow.Wallet.Rows.{WalletRecord, WalletEvent, WalletDb}
use howlow.Wallet.Repository.{find_wallet_by_id, entries_of}
use howlow.Wallet.Reconciliation.{ReconciliationReport, report_on, reconcile_wallet}
use howlow.Wallet.Reconciliation.Sweep.{
  sort_ids, ids_of, is_after, take, list_wallet_ids, SweepResult, check_each, last_id, is_empty,
  sweep_pages, nothing_checked, count_report, reconcile_all_wallets,
}
use howlow.Wallet.Reconciliation.Sweep.Keyset.{
  Strict, Unique, drop, All-sort_ids, sort_ids-Strict, length-sort_ids, rows_where_all,
  rows_where-rows_where, All-kept, All-take, All-rows_where, Strict-rows_where, page_full,
  length-take, take_all, length-drop,
}
use mathlib.Core.List.{append_assoc, append-nil}

abbrev IsThere : List WalletRecord → ℕ → Type 0
IsThere ws id = (w : WalletRecord) × (first_where (λ (v : WalletRecord). v.id == id) ws ≡ some w)

IsThere-later :
    (v : WalletRecord) (ws : List WalletRecord) (id : ℕ) → IsThere ws id → IsThere (v ∷ ws) id
unfolding first_where
IsThere-later v ws id (w, found) = elim (Bool-cases (v.id == id)) [
  | inl same ↦ (v, rw same refl)
  | inr other ↦ (w, rw other found)
]

all-IsThere : (ws : List WalletRecord) → All (IsThere ws) (map (λ (w : WalletRecord). w.id) ws)
unfolding first_where
all-IsThere [] = tt
all-IsThere (w ∷ ws) =
    ((w, rw (==_refl w.id) refl), All-map _ _ _ (IsThere-later w ws) (all-IsThere ws))

-- The report on one wallet, of its row and of its own entries, if it is not consistent.
abbrev pub broken_one : WalletDb → ℕ → List ReconciliationReport
broken_one db id = elim (find_wallet_by_id id db) [
  | none ↦ []
  | some w ↦
      let report = report_on w (entries_of id db.entries) in
      if report.consistent then [] else report ∷ []
]

-- The reports of the wallets with these ids that are not consistent, in this order.
abbrev pub broken : WalletDb → List ℕ → List ReconciliationReport
broken db [] = []
broken db (id ∷ ids) = broken_one db id ++ broken db ids

broken-take :
    (db : WalletDb) (n : ℕ) (ids : List ℕ)
    → broken db (take n ids) ++ broken db (drop n ids) ≡ broken db ids
unfolding take drop
broken-take db zero ids = refl
broken-take db (suc n) [] = refl
broken-take db (suc n) (id ∷ ids) =
    append_assoc (broken_one db id) (broken db (take n ids)) (broken db (drop n ids))
    ∙ ap (λ rest. broken_one db id ++ rest) (broken-take db n ids)

-- A result in which these wallets were looked at besides those before, and the inconsistent ones found.
abbrev Adds : WalletDb → List ℕ → SweepResult → SweepResult → Type 0
Adds db ids s t =
    (t.wallets_checked ≡ s.wallets_checked + length ids)
    × (t.inconsistent ≡ s.inconsistent ++ broken db ids)

-- The tables with other events: what the sweep may write.
abbrev with_events : WalletDb → List (WalletEvent × ℕ) → WalletDb
with_events db es = record db { events = es }

module _ (db : WalletDb) where
  reconcile_one :
      (es : List (WalletEvent × ℕ)) (id : ℕ) (w : WalletRecord)
      → find_wallet_by_id id db ≡ some w
      → (later : List (WalletEvent × ℕ)) × (reconcile_wallet id (with_events db es)
          ≡ ok (report_on w (entries_of id db.entries), with_events db later))
  unfolding reconcile_wallet
  reconcile_one es id w found =
      elim (Bool-cases (report_on w (entries_of id db.entries)).consistent) [
        | inl fine ↦ (es, rw (found, fine) refl)
        | inr bad ↦ ((WalletEvent.reconciliation_failed, id) ∷ es, rw (found, bad) refl)
      ]

  counted :
      (s : SweepResult) (id : ℕ) (w : WalletRecord)
      → find_wallet_by_id id db ≡ some w
      → (count_report s (report_on w (entries_of id db.entries))).inconsistent
        ≡ s.inconsistent ++ broken_one db id
  counted s id w found = elim (Bool-cases (report_on w (entries_of id db.entries)).consistent) [
    | inl fine ↦ rw (broken_one, found, fine) (sym (append-nil s.inconsistent))
    | inr bad ↦ rw (broken_one, found, bad) refl
  ]

  check_each_lem :
      (ids : List ℕ) (s : SweepResult) (es : List (WalletEvent × ℕ))
      → All (IsThere db.wallets) ids
      → (t : SweepResult) × (later : List (WalletEvent × ℕ)) × (check_each ids s (with_events db es)
          ≡ ok (t, with_events db later))
        × Adds db ids s t
  unfolding check_each
  check_each_lem [] s es h = (s, es, refl, (omega arith, sym (append-nil s.inconsistent)))
  check_each_lem (id ∷ ids) s es ((w, found), h) =
      let report = report_on w (entries_of id db.entries) in
      let (mid, e) = reconcile_one es id w found in
      let (t, later, rest, (count, kept)) = check_each_lem ids (count_report s report) mid h in
      (
        t,
        later,
        >>=-ok (reconcile_wallet id) (λ r. check_each ids (count_report s r)) (with_events db es)
              (with_events db mid) report e
            ∙ rest,
        (
          omega (arith, count),
          kept
              ∙ ap (λ l. l ++ broken db ids) (counted s id w found)
              ∙ append_assoc s.inconsistent (broken_one db id) (broken db ids),
        ),
      )

-- The ids that a page after `after` is taken from.
abbrev ahead : Option ℕ → WalletDb → List ℕ
ahead after db = rows_where (is_after after) (sort_ids (ids_of db))

ahead-Strict : (db : WalletDb) (after : Option ℕ) → Unique (ids_of db) → Strict (ahead after db)
ahead-Strict db after unique =
    Strict-rows_where (is_after after) (sort_ids (ids_of db)) (sort_ids-Strict (ids_of db) unique)

ahead-IsThere : (db : WalletDb) (after : Option ℕ) → All (IsThere db.wallets) (ahead after db)
ahead-IsThere db after =
    All-kept _ (is_after after) (sort_ids (ids_of db))
      (All-sort_ids _ (ids_of db) (all-IsThere db.wallets))

is_after_later :
    (after : Option ℕ) (x l id : ℕ)
    → is_after after x ≡ true
    → x ≤ l
    → is_after (some l) id ≡ true
    → is_after after id ≡ true
is_after_later none x l id h le k = refl
is_after_later (some a) x l id h le k = ground arith

-- What comes after a full page.
ahead_next :
    (db : WalletDb) (after : Option ℕ) (b x : ℕ) (xs : List ℕ)
    → Unique (ids_of db)
    → ahead after db ≡ x ∷ xs
    → suc b ≤ length (x ∷ xs)
    → (l : ℕ) × (last_id (take (suc b) (x ∷ xs)) ≡ some l)
      × (ahead (some l) db ≡ drop (suc b) (x ∷ xs))
ahead_next db after b x xs unique e full =
    let (l, last, above, rest) =
      page_full b x xs (subst Strict e (ahead-Strict db after unique)) full in
    let head : is_after after x ≡ true =
      (subst (All (λ y. is_after after y ≡ true)) e (All-rows_where (is_after after) _)).0 in
    (
      l,
      last,
      sym (
            rows_where-rows_where (is_after after) (is_after (some l)) (sort_ids (ids_of db))
              (λ id h. is_after_later after x l id head above h))
          ∙ ap (rows_where (is_after (some l))) e
          ∙ rest,
    )

ltb_refl : (n : ℕ) → ltb n n ≡ false
ltb_refl n = ground arith

all_after : (xs : List ℕ) → All (λ x. is_after none x ≡ true) xs
all_after [] = tt
all_after (x ∷ xs) = (refl, all_after xs)

length-ids_of : (ws : List WalletRecord) → length (map (λ (w : WalletRecord). w.id) ws) ≡ length ws
length-ids_of [] = refl
length-ids_of (w ∷ ws) = omega (arith, length-ids_of ws)

-- One round of the loop.
round :
    (fuel b : ℕ) (after : Option ℕ) (s t : SweepResult) (ids : List ℕ) (db db' : WalletDb)
    → list_wallet_ids b after db ≡ ids
    → is_empty ids ≡ false
    → check_each ids s db ≡ ok (t, db')
    → sweep_pages (suc fuel) b after s db
      ≡ (if ltb (length ids) b then pure (some t) else sweep_pages fuel b (last_id ids) t) db'
unfolding sweep_pages
round fuel b after s t ids db db' listed some_one checked = rw listed (
    rw some_one (
      >>=-ok (check_each ids s)
        (λ u. if ltb (length ids) b then pure (some u) else sweep_pages fuel b (last_id ids) u) db
        db' t checked))

sweep_pages_lem :
    (fuel b : ℕ) (after : Option ℕ) (s : SweepResult) (xs : List ℕ) (db : WalletDb)
    (es : List (WalletEvent × ℕ))
    → Unique (ids_of db)
    → ahead after db ≡ xs
    → length xs < fuel
    → (t : SweepResult) × (later : List (WalletEvent × ℕ)) × (sweep_pages fuel
          (suc b)
          after
          s
          (with_events db es)
        ≡ ok (some t, with_events db later))
      × Adds db xs s t
unfolding sweep_pages list_wallet_ids take
sweep_pages_lem zero b after s xs db es unique e enough = absurd (omega arith)
sweep_pages_lem (suc fuel) b after s [] db es unique e enough =
    (s, es, rw e refl, (omega arith, sym (append-nil s.inconsistent)))
sweep_pages_lem (suc fuel) b after s (x ∷ xs) db es unique e enough =
    let there = subst (All (IsThere db.wallets)) e (ahead-IsThere db after) in
    let (t, mid, checked, (count, kept)) =
      check_each_lem db (take (suc b) (x ∷ xs)) s es (All-take _ (suc b) (x ∷ xs) there) in
    elim (Bool-cases (ltb (length (x ∷ xs)) (suc b))) [
      | inl short ↦
          let whole = take_all (suc b) (x ∷ xs) (ground arith) in
          let all = ap length whole in
          (
            t,
            mid,
            round fuel (suc b) after s t _ (with_events db es) (with_events db mid)
                  (ap (take (suc b)) e) refl checked
                ∙ rw (all, short) refl,
            (omega (arith, count, all), kept ∙ ap (λ ids. s.inconsistent ++ broken db ids) whole),
          )
      | inr full ↦
          let long : suc b ≤ length (x ∷ xs) = ground arith in
          let (l, last, next) = ahead_next db after b x xs unique e long in
          let page = length-take (suc b) (x ∷ xs) long in
          let fewer = length-drop (suc b) (x ∷ xs) long in
          let (u, later, rest, (more, found)) =
            sweep_pages_lem fuel b (some l) t (drop (suc b) (x ∷ xs)) db mid unique next
              (omega arith) in
          (
            u,
            later,
            round fuel (suc b) after s t _ (with_events db es) (with_events db mid)
                  (ap (take (suc b)) e) refl checked
                ∙ rw (page, ltb_refl (suc b), last) rest,
            (
              omega (arith, count, more, page, fewer),
              found
                  ∙ ap (λ l. l ++ broken db (drop (suc b) (x ∷ xs))) kept
                  ∙ append_assoc s.inconsistent (broken db (take (suc b) (x ∷ xs))) _
                  ∙ ap (λ l. s.inconsistent ++ l) (broken-take db (suc b) (x ∷ xs)),
            ),
          )
    ]

-- On any tables, in which a ledger may disagree with its wallet, reconcileAllWallets with batches of at
-- least one wallet ends, within one round more than there are wallets. It has looked at as many wallets
-- as there are, and the reports that it returns are those of all wallets, in the order of their ids, whose
-- row and own entries do not agree, each of them once. It writes nothing but events. The ids of wallets
-- are a primary key.
pub reconcile_all_wallets_lem :
    (db : WalletDb) (b : ℕ)
    → Unique (ids_of db)
    → (later : List (WalletEvent × ℕ)) × (reconcile_all_wallets (length db.wallets + 1) (suc b) db
        ≡ ok (
          some (record {
            wallets_checked = length db.wallets;
            inconsistent = broken db (sort_ids (ids_of db));
          }),
          record db { events = later },
        ))
unfolding reconcile_all_wallets
reconcile_all_wallets_lem db b unique =
    let all =
      rows_where_all (is_after none) (sort_ids (ids_of db)) (all_after (sort_ids (ids_of db))) in
    let size : length (ahead none db) ≡ length db.wallets =
      omega (arith, ap length all, length-sort_ids (ids_of db), length-ids_of db.wallets) in
    let (t, later, e, (count, found)) =
      sweep_pages_lem (length db.wallets + 1) b none nothing_checked (ahead none db) db db.events
        unique refl (omega (arith, size)) in
    let reports = found ∙ ap (broken db) all in
    let whole : t ≡ record {
      wallets_checked = length db.wallets;
      inconsistent = broken db (sort_ids (ids_of db));
    } =
      ground (arith, count, reports, size) in
    (later, e ∙ ap (λ (u : SweepResult). ok (some u, record db { events = later })) whole)
