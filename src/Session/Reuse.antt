-- ===== src/Session/Reuse.antt =====
-- Sign-in, and the reuse of a token after its rotation.
use recallum_mcp.Prelude.{
  ℕ, zero, suc, ◌+◌, ◌≤◌, ◌<◌, ◌≡◌, ◌≢◌, refl, inl, inr, min, true, false, none, some, List, [],
  ◌∷◌, map, mem, keep, length, Bool-cases, Option-cases, leb, ltb, ◌==◌, if◌then◌else◌, arith,
}
use recallum_mcp.Session.{
  WebSession, Store, Windows, is_some, find_by_hash, find_by_id, in_grace, still_rotating, new_row,
  can_rotate, rotate, renew, chain_from, revoke_row, revoke_chain, resolve_rotated, resolve_row,
  resolve, create,
}

found-id :
    (id : ℕ) (store : Store) (row : WebSession) → find_by_id id store ≡ some row → row.id ≡ id
unfolding find_by_id
found-id id [] row h = cc
found-id id (x ∷ store) row h = ground (arith, found-id id store row)

-- Where two different rows are found there are two.
two_rows :
    (i j : ℕ) (store : Store) (a b : WebSession)
    → find_by_id i store ≡ some a
    → find_by_id j store ≡ some b
    → i ≢ j
    → 2 ≤ length store
unfolding find_by_id
two_rows i j [] a b h k n = absurd (ground arith)
two_rows i j (x ∷ []) a b h k n = absurd (ground arith)
two_rows i j (x ∷ y ∷ store) a b h k n = omega arith

find_by_id-revoke :
    (chain : List ℕ) (now id : ℕ) (store : Store) (row : WebSession)
    → find_by_id id store ≡ some row
    → find_by_id id (map (revoke_row chain now) store) ≡ some (revoke_row chain now row)
unfolding find_by_id
find_by_id-revoke chain now id [] row h = cc
find_by_id-revoke chain now id (x ∷ store) row h =
    ground (arith, find_by_id-revoke chain now id store row)

-- The first two of a chain.
chain_from-two :
    (fuel i j : ℕ) (store : Store) (a b : WebSession)
    → 2 ≤ fuel
    → find_by_id i store ≡ some a
    → a.rotated_to_id ≡ some j
    → find_by_id j store ≡ some b
    → (mem i (chain_from fuel store (some i)) ≡ true)
      × (mem j (chain_from fuel store (some i)) ≡ true)
unfolding chain_from
chain_from-two zero i j store a b f h r k = absurd (omega arith)
chain_from-two (suc zero) i j store a b f h r k = absurd (omega arith)
chain_from-two (suc (suc fuel)) i j store a b f h r k = (ground (arith, h), ground (arith, h, r, k))

-- Only a row of the identifier can be rotated.
keep-can_rotate :
    (id : ℕ) (store : Store) → find_by_id id store ≡ none → keep (can_rotate id) store ≡ []
unfolding find_by_id
keep-can_rotate id [] h = refl
keep-can_rotate id (x ∷ store) h = ground (arith, keep-can_rotate id store, h)

module _ (w : Windows) where
  too_late :
      (row s : WebSession) (next now : ℕ) (store : Store)
      → find_by_id next store ≡ some s
      → s.created_at + w.grace < now
      → still_rotating w row next now store ≡ none
  unfolding still_rotating in_grace
  too_late row s next now store f l = ground (arith, f)

  -- A token whose row is revoked resolves to nothing.
  pub resolve-revoked :
      (token new_id new_token now : ℕ) (store : Store) (row : WebSession)
      → find_by_hash token store ≡ some row
      → is_some row.revoked_at ≡ true
      → (resolve w token new_id new_token now store).1 ≡ none
  unfolding resolve resolve_row resolve_rotated still_rotating
  resolve-revoked token new_id new_token now store row f h = elim (Option-cases row.rotated_to_id) [
    | inl e ↦ ground (arith, f, e)
    | inr (next, e) ↦ ground (arith, f, e)
  ]

  -- A token that was rotated is refused once the grace time has passed since the new row was made,
  -- and both the old row and the new one are then revoked.
  pub resolve-reused :
      (token new_id new_token now next : ℕ) (store : Store) (row s : WebSession)
      → find_by_hash token store ≡ some row
      → find_by_id row.id store ≡ some row
      → row.rotated_to_id ≡ some next
      → find_by_id next store ≡ some s
      → row.id ≢ next
      → s.created_at + w.grace < now
      → ((resolve w token new_id new_token now store).1 ≡ none)
        × (find_by_id row.id (resolve w token new_id new_token now store).0
            ≡ some (record row { revoked_at = some now }))
        × (find_by_id next (resolve w token new_id new_token now store).0
            ≡ some (record s { revoked_at = some now }))
  unfolding resolve resolve_row resolve_rotated revoke_chain
  resolve-reused token new_id new_token now next store row s f i e k n l =
      let chain = chain_from (length store) store (some row.id) in
      let (a, b) =
        chain_from-two (length store) row.id next store row s
          (two_rows row.id next store row s i k n) i e k in
      let late = too_late row s next now store k l in
      (
        ground (arith, f, e, late),
        ground (arith, f, e, late, find_by_id-revoke chain now row.id store row i, a),
        ground (
          arith,
          f,
          e,
          late,
          find_by_id-revoke chain now next store s k,
          b,
          found-id next store s k,
        ),
      )

  -- A new session resolves to itself until its renewal is due, then to the session that it is rotated
  -- to, with the new token, and from the end of its idle window to nothing; where the renewal is due
  -- before the idle window ends and that ends before the absolute one, no other row has the identifier
  -- of the session, and the new identifier is another.
  pub resolve-create :
      (id user token now new_id new_token later : ℕ) (store : Store)
      → w.renew_after < w.idle
      → w.idle < w.absolute
      → find_by_id id store ≡ none
      → new_id ≢ id
      → (resolve w token new_id new_token later (create w id user token now store).0).1 ≡ (
          if leb (now + w.idle) later
          then none
          else if ltb later (now + w.renew_after)
          then some (record {
            user = user;
            session = new_row id user token now (now + w.idle) (now + w.absolute);
            rotated_token = none;
          })
          else some (record {
            user = user;
            session =
                new_row new_id user new_token later
                  (min (later + w.idle) (now + w.absolute))
                  (now + w.absolute);
            rotated_token = some new_token;
          }))
  unfolding resolve resolve_row create find_by_hash renew rotate
  resolve-create id user token now new_id new_token later store r i f n =
      let ends : min (now + w.idle) (now + w.absolute) ≡ now + w.idle = omega arith in
      let alone = keep-can_rotate id store f in
      let other : (new_id == id) ≡ false = ground (arith, n) in
      elim (Bool-cases (leb (now + w.idle) later)) [
        | inl a ↦ ground (arith, a, ends)
        | inr a ↦ elim (Bool-cases (ltb later (now + w.renew_after))) [
          | inl b ↦ ground (arith, a, b, ends)
          | inr b ↦ ground (arith, a, b, ends, alone, other)
        ]
      ]
