-- ===== src/Session/Live.antt =====
-- What `resolve` returns is live.
use recallum_mcp.Prelude.{
  ℕ, ◌+◌, ◌≤◌, ◌<◌, ◌≡◌, inl, inr, refl, false, ◌||◌, Option, none, some, Bool-cases, Option-cases,
  ltb, arith,
}
use recallum_mcp.Session.{
  WebSession, Store, Windows, ResolvedSession, is_some, has_expired, find_by_hash, find_by_id,
  in_grace, still_rotating, rotate, resolve_rotated, renew, resolve_row, resolve,
}

-- Neither revoked nor past one of its two ends.
pub record IsLive (now : ℕ) (row : WebSession) : Type 0 where
  pub kept : row.revoked_at ≡ none
  pub idle : now < row.idle_expires_at
  pub absolute : now < row.absolute_expires_at

not_some {ℓ} : {A : Type ℓ} (o : Option A) → is_some o ≡ false → o ≡ none
not_some none h = refl
not_some (some a) h = cc

-- How a row leads to a session: it is the session; or it was rotated to it, at most the grace time
-- ago; or it was rotated now, to a session of its user with a new token and its own absolute end.
pub data Leads (w : Windows) (row : WebSession) (new_token now : ℕ) (store : Store)
    (r : ResolvedSession) : Type 0 where
  same :
      row.rotated_to_id ≡ none
      → r.session ≡ row
      → r.rotated_token ≡ none
      → Leads w row new_token now store r
  graced :
      (next : ℕ)
      → row.rotated_to_id ≡ some next
      → find_by_id next store ≡ some r.session
      → now ≤ r.session.created_at + w.grace
      → r.rotated_token ≡ none
      → Leads w row new_token now store r
  renewed :
      row.rotated_to_id ≡ none
      → r.session.user_id ≡ row.user_id
      → r.session.token_hash ≡ new_token
      → r.session.absolute_expires_at ≡ row.absolute_expires_at
      → r.rotated_token ≡ some new_token
      → Leads w row new_token now store r

pub record IsResolved (w : Windows) (row : WebSession) (new_token now : ℕ) (store : Store)
    (r : ResolvedSession) : Type 0 where
  pub live : IsLive now r.session
  pub user : r.user ≡ row.user_id
  pub leads : Leads w row new_token now store r

module _ (w : Windows) where
  in_grace-IsLive :
      (now : ℕ) (o : Option WebSession) (s : WebSession)
      → in_grace w now o ≡ some s
      → IsLive now s × (now ≤ s.created_at + w.grace) × (o ≡ some s)
  unfolding in_grace
  in_grace-IsLive now none s h = cc
  in_grace-IsLive now (some row) s h = (
    record {
      kept = ground (arith, not_some row.revoked_at);
      idle = ground arith;
      absolute = ground arith;
    },
    ground arith,
    ground arith,
  )

  still_rotating-found :
      (row : WebSession) (next now : ℕ) (store : Store) (s : WebSession)
      → still_rotating w row next now store ≡ some s
      → in_grace w now (find_by_id next store) ≡ some s
  unfolding still_rotating
  still_rotating-found row next now store s h = ground arith

  rotated-IsResolved :
      (row : WebSession) (next token now : ℕ) (store : Store) (r : ResolvedSession)
      → row.rotated_to_id ≡ some next
      → (resolve_rotated w row next now store).1 ≡ some r
      → IsResolved w row token now store r
  unfolding resolve_rotated
  rotated-IsResolved row next token now store r e h =
      elim (Option-cases (still_rotating w row next now store)) [
        | inl f ↦ absurd (ground (arith, f))
        | inr (s, f) ↦
            let found : in_grace w now (find_by_id next store) ≡ some s =
              still_rotating-found row next now store s f in
            let (live, near, is) = in_grace-IsLive now (find_by_id next store) s found in
            let same : r ≡ record { user = row.user_id; session = s; rotated_token = none } =
              ground (arith, f) in
            rw same (record { live = live; user = refl; leads = graced next e is near refl })
      ]

  renew-IsResolved :
      (row : WebSession) (new_id token now : ℕ) (store : Store) (r : ResolvedSession)
      → 1 ≤ w.idle
      → row.rotated_to_id ≡ none
      → now < row.absolute_expires_at
      → (renew w row new_id token now store).1 ≡ some r
      → IsResolved w row token now store r
  unfolding renew rotate
  renew-IsResolved row new_id token now store r p e a h = record {
    live = record { kept = ground arith; idle = ground arith; absolute = ground arith };
    user = ground arith;
    leads = renewed e (ground arith) (ground arith) (ground arith) (ground arith);
  }

  row-IsResolved :
      (row : WebSession) (new_id token now : ℕ) (store : Store) (r : ResolvedSession)
      → 1 ≤ w.idle
      → (resolve_row w row new_id token now store).1 ≡ some r
      → IsResolved w row token now store r
  unfolding resolve_row
  row-IsResolved row new_id token now store r p h = elim (Option-cases row.rotated_to_id) [
    | inr (next, e) ↦ rotated-IsResolved row next token now store r e (ground (arith, e))
    | inl e ↦ elim (Bool-cases (is_some row.revoked_at || has_expired w now row)) [
      | inl f ↦ absurd (ground (arith, e, f))
      | inr f ↦ elim (Bool-cases (ltb now (row.created_at + w.renew_after))) [
        | inl g ↦
            let same : r ≡ record { user = row.user_id; session = row; rotated_token = none } =
              ground (arith, e, f, g) in
            let live : IsLive now row = record {
              kept = not_some row.revoked_at (ground arith);
              idle = ground arith;
              absolute = ground arith;
            } in
            rw same (record { live = live; user = refl; leads = Leads.same e refl refl })
        | inr g ↦
            renew-IsResolved row new_id token now store r p e (ground arith)
              (ground (arith, e, f, g))
      ]
    ]
  ]

  -- What `resolve` returns, with an idle window above 0, is a session that is neither revoked nor
  -- expired, for the user of the row that has the token: the row itself; or the one it was rotated
  -- to, within the grace time; or a new one with a new token and the same absolute end.
  pub resolve-IsResolved :
      (token new_id new_token now : ℕ) (store : Store) (row : WebSession) (r : ResolvedSession)
      → 1 ≤ w.idle
      → find_by_hash token store ≡ some row
      → (resolve w token new_id new_token now store).1 ≡ some r
      → IsResolved w row new_token now store r
  unfolding resolve
  resolve-IsResolved token new_id new_token now store row r p f h =
      row-IsResolved row new_id new_token now store r p (ground (arith, f))
