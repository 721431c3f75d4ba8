-- ===== src/Auth/Sessions/Moves.antt =====
-- What a call of session.service.ts can do to the table of sessions, and what every such change keeps.
use howlow.Prelude.{
  ℕ, ◌≤◌, ◌≡◌, refl, subst, ◌∙◌, inl, inr, Bool, true, false, none, some, Text, List, ◌∷◌, ◌==◌,
  ==_refl, ==_iff, is_some, text_eq_sound, arith, Bool-cases, first_where, first_where_holds,
  count_of_none, count_where-none, found_by_other, first_where-update_where, update_where,
  count_where, count_where-update_where-le, count_where-update_where-lt,
}
use howlow.Auth.Rows.{SessionRow, RevokedReason, rotated}
use howlow.Auth.Sessions.{
  Crypto, SessionSeed, NewSession, new_session, has_hash, session_clashes, open_in_family,
  open_of_user, is_open, revoked, replaced_by, family_revoked, user_revoked,
}
use howlow.Auth.Sessions.Rotation.{next_session, rotated_sessions}

-- What a call does to the sessions: a new one, of a family of its own or in the place of the one that it
-- revokes, or some are revoked.
pub data Move : List SessionRow → List SessionRow → Type 0 where
  stays : {xs ys : List SessionRow} → ys ≡ xs → Move xs ys
  adds :
      {xs ys : List SessionRow} (seed : SessionSeed) (i : NewSession)
      → i.family_id ≡ none
      → first_where (λ (s : SessionRow). s.family_id == seed.fresh_family) xs ≡ none
      → first_where (session_clashes seed.id i.refresh_token_hash) xs ≡ none
      → ys ≡ new_session seed i ∷ xs
      → Move xs ys
  rotates :
      {xs ys : List SessionRow} (k : Crypto) (seed : SessionSeed) (hash : Text) (s : SessionRow)
      → first_where (has_hash hash) xs ≡ some s
      → is_some s.revoked_at ≡ false
      → first_where (session_clashes seed.id (k.sha256 seed.refresh_token)) xs ≡ none
      → ys ≡ rotated_sessions seed (next_session k seed s) s xs
      → Move xs ys
  revokes_family :
      {xs ys : List SessionRow} (now family_id : ℕ) (reason : RevokedReason)
      → ys ≡ update_where (open_in_family family_id) (family_revoked now reason) xs
      → Move xs ys
  revokes_user :
      {xs ys : List SessionRow} (now user_id : ℕ) (reason : RevokedReason)
      → ys ≡ update_where (open_of_user user_id) (user_revoked now reason) xs
      → Move xs ys

abbrev pub IsSingle : List SessionRow → Type 0
IsSingle xs = (family_id : ℕ) → count_where (open_in_family family_id) xs ≤ 1

-- A session that is revoked stays so, where its token's digest finds it.
abbrev pub IsClosed : Text → ℕ → List SessionRow → Type 0
IsClosed hash family_id xs =
    (s : SessionRow) × (first_where (has_hash hash) xs ≡ some s)
    × (is_some s.revoked_at ≡ true)
    × (s.family_id ≡ family_id)

not_open : (f now : ℕ) (s : SessionRow) → open_in_family f (revoked now rotated s) ≡ false
not_open f now s = ground arith

pub closed_family :
    (f now : ℕ) (reason : RevokedReason) (s : SessionRow)
    → open_in_family f (family_revoked now reason s) ≡ false
closed_family f now reason s = ground arith

closed_user :
    (f now : ℕ) (reason : RevokedReason) (s : SessionRow)
    → open_in_family f (user_revoked now reason s) ≡ false
closed_user f now reason s = ground arith

module _ (f : ℕ) (xs : List SessionRow) (h : count_where (open_in_family f) xs ≤ 1) where
  -- An update that closes the rows that it writes.
  closing_keeps :
      (p : SessionRow → Bool) (g : SessionRow → SessionRow)
      → ((s : SessionRow) → open_in_family f (g s) ≡ false)
      → count_where (open_in_family f) (update_where p g xs) ≤ 1
  closing_keeps p g out = omega (
    arith,
    h,
    count_where-update_where-le (open_in_family f) p g xs (λ b _ t. absurd (cc (out b, t))),
  )

  adding_keeps :
      (new : SessionRow)
      → first_where (λ (s : SessionRow). s.family_id == new.family_id) xs ≡ none
      → count_where (open_in_family f) (new ∷ xs) ≤ 1
  unfolding count_where
  adding_keeps new fresh = elim (Bool-cases (new.family_id == f)) [
    | inr other ↦ ground (arith, h)
    | inl same ↦
        let at : first_where (λ (s : SessionRow). s.family_id == f) xs ≡ none =
          subst (λ g. first_where (λ (s : SessionRow). s.family_id == g) xs ≡ none)
            ((==_iff _ _).0 same) fresh in
        let zero : count_where (open_in_family f) xs ≡ 0 =
          count_of_none (λ (s : SessionRow). s.family_id == f) is_open xs
            (count_where-none _ xs at) in
        ground (arith, zero)
  ]

  -- The new session of a rotation stands in the place of the old one.
  replacing_keeps :
      (now : ℕ) (hash : Text) (s new : SessionRow)
      → first_where (has_hash hash) xs ≡ some s
      → is_some s.revoked_at ≡ false
      → new.family_id ≡ s.family_id
      → count_where
          (open_in_family f)
          (update_where (λ r. r.id == s.id) (revoked now rotated) (new ∷ xs))
        ≤ 1
  unfolding count_where update_where
  replacing_keeps now hash s new found live same = elim (Bool-cases (s.family_id == f)) [
    | inr other ↦ ground (
      arith,
      h,
      not_open f now new,
      same,
      count_where-update_where-le (open_in_family f) (λ (r : SessionRow). r.id == s.id)
          (revoked now rotated) xs (λ b _ t. absurd (cc (not_open f now b, t))),
    )
    | inl mine ↦
        let open_now : open_in_family f s ≡ true = rw (mine, live) refl in
        let fewer =
          count_where-update_where-lt (has_hash hash) (open_in_family f)
            (λ (r : SessionRow). r.id == s.id) (revoked now rotated) xs s (λ b _. not_open f now b)
            found (==_refl s.id) open_now in
        ground (arith, h, fewer)
  ]

pub Move-IsSingle : {xs ys : List SessionRow} → Move xs ys → IsSingle xs → IsSingle ys
Move-IsSingle (stays e) h f = rw e (h f)
Move-IsSingle {xs} (adds seed i own fresh free e) h f =
    rw e (adding_keeps f xs (h f) (new_session seed i) (rw own fresh))
Move-IsSingle {xs} (rotates k seed hash s found live free e) h f = rw e (
    omega (
      arith,
      replacing_keeps f xs (h f) seed.now hash s (new_session seed (next_session k seed s)) found
          live refl,
      count_where-update_where-le (open_in_family f) (λ (r : SessionRow). r.id == s.id)
          (replaced_by seed.id)
          (update_where (λ r. r.id == s.id) (revoked seed.now rotated)
            (new_session seed (next_session k seed s) ∷ xs))
          (λ b _ t. t),
    ))
Move-IsSingle {xs} (revokes_family now g reason e) h f =
    rw e (closing_keeps f xs (h f) _ _ (closed_family f now reason))
Move-IsSingle {xs} (revokes_user now u reason e) h f =
    rw e (closing_keeps f xs (h f) _ _ (closed_user f now reason))

-- An update that keeps digests and families, and closes nothing that it opens, keeps what is closed.
pub IsClosed-update :
    (hash : Text) (f : ℕ) (p : SessionRow → Bool) (g : SessionRow → SessionRow)
    (xs : List SessionRow)
    → ((s : SessionRow)
        → (has_hash hash (g s) ≡ has_hash hash s)
          × ((g s).family_id ≡ s.family_id)
          × (is_some s.revoked_at ≡ true → is_some (g s).revoked_at ≡ true))
    → IsClosed hash f xs
    → IsClosed hash f (update_where p g xs)
IsClosed-update hash f p g xs keeps (s, found, closed, same) =
    let at = first_where-update_where (has_hash hash) p g xs s (λ b. (keeps b).0) found in
    elim (Bool-cases (p s)) [
      | inl t ↦ (g s, rw t at at, (keeps s).2 closed, (keeps s).1 ∙ same)
      | inr t ↦ (s, rw t at at, closed, same)
    ]

-- A session whose identifiers and digest are new hides none.
pub found_behind :
    (hash : Text) (new s : SessionRow) (xs : List SessionRow)
    → first_where (session_clashes new.id new.refresh_token_hash) xs ≡ none
    → first_where (has_hash hash) xs ≡ some s
    → first_where (has_hash hash) (new ∷ xs) ≡ some s
unfolding first_where
found_behind hash new s xs free found = elim (Bool-cases (has_hash hash new)) [
  | inr other ↦ rw other found
  | inl equal ↦
      let e : new.refresh_token_hash ≡ hash = text_eq_sound _ _ equal in
      let hit : session_clashes new.id new.refresh_token_hash s ≡ true =
        rw (e, first_where_holds (has_hash hash) xs s found) (ground arith) in
      absurd (found_by_other (has_hash hash) _ xs s found hit free)
]

IsClosed-add :
    (hash : Text) (f : ℕ) (new : SessionRow) (xs : List SessionRow)
    → first_where (session_clashes new.id new.refresh_token_hash) xs ≡ none
    → IsClosed hash f xs
    → IsClosed hash f (new ∷ xs)
IsClosed-add hash f new xs free (s, found, closed, same) =
    (s, found_behind hash new s xs free found, closed, same)

pub Move-IsClosed :
    {xs ys : List SessionRow} (hash : Text) (f : ℕ)
    → Move xs ys
    → IsClosed hash f xs
    → IsClosed hash f ys
Move-IsClosed hash f (stays e) c = rw e c
Move-IsClosed {xs} hash f (adds seed i own fresh free e) c =
    rw e (IsClosed-add hash f (new_session seed i) xs free c)
Move-IsClosed {xs} hash f (rotates k seed _ s found live free e) c = rw e (
    IsClosed-update hash f _ (replaced_by seed.id) _ (λ r. (refl, refl, λ t. t))
      (IsClosed-update hash f _ (revoked seed.now rotated) _ (λ r. (refl, refl, λ t. ground arith))
        (IsClosed-add hash f (new_session seed (next_session k seed s)) xs free c)))
Move-IsClosed {xs} hash f (revokes_family now g reason e) c = rw e (
    IsClosed-update hash f _ (family_revoked now reason) xs (λ r. (refl, refl, λ t. ground arith))
      c)
Move-IsClosed {xs} hash f (revokes_user now u reason e) c =
    rw e (IsClosed-update hash f _ (user_revoked now reason) xs (λ r. (refl, refl, λ t. refl)) c)
