-- ===== src/Session.antt =====
-- Browser sessions: auth/web_sessions.py over the rows of db/repositories/web_session_repo.py. The
-- table is a list of rows, the newest first, and a user is its identifier. A token stands for itself
-- as the number of its hash (`hash_token`); tokens and identifiers of new rows, which come from the
-- random source, and the clock's time are arguments. A call of the repository is one function.
use recallum_mcp.Prelude.{
  ℕ, zero, suc, ◌+◌, min, Bool, true, false, not, ◌&&◌, ◌||◌, Option, none, some, List, [], ◌∷◌,
  map, keep, mem, length, leb, ltb, ◌==◌, if◌then◌else◌,
}
mod Live
mod Reuse
mod Examples

-- db/models.py
pub record WebSession : Type 0 where
  pub id : ℕ
  pub user_id : ℕ
  pub token_hash : ℕ
  pub created_at : ℕ
  pub idle_expires_at : ℕ
  pub absolute_expires_at : ℕ
  pub rotated_to_id : Option ℕ
  pub revoked_at : Option ℕ

abbrev pub Store : Type 0
Store = List WebSession

abbrev pub is_some {ℓ} : {A : Type ℓ} → Option A → Bool
is_some none = false
is_some (some a) = true

-- The row that `create` and `rotate` construct.
abbrev pub new_row : ℕ → ℕ → ℕ → ℕ → ℕ → ℕ → WebSession
new_row id user_id token_hash now idle absolute = record {
  id = id;
  user_id = user_id;
  token_hash = token_hash;
  created_at = now;
  idle_expires_at = idle;
  absolute_expires_at = absolute;
  rotated_to_id = none;
  revoked_at = none;
}

-- `select … where token_hash = …` and `session.get(WebSession, …)`
unfoldable pub find_by_hash : ℕ → Store → Option WebSession
find_by_hash hash [] = none
find_by_hash hash (row ∷ rows) = if row.token_hash == hash then some row else find_by_hash hash rows

unfoldable pub find_by_id : ℕ → Store → Option WebSession
find_by_id id [] = none
find_by_id id (row ∷ rows) = if row.id == id then some row else find_by_id id rows

-- The rows that the update of `rotate` matches, and its effect.
abbrev pub can_rotate : ℕ → WebSession → Bool
can_rotate previous_id row =
    row.id == previous_id && not (is_some row.rotated_to_id) && not (is_some row.revoked_at)

abbrev pub rotate_row : ℕ → ℕ → WebSession → WebSession
rotate_row previous_id next row =
    if can_rotate previous_id row then record row { rotated_to_id = some next } else row

unfoldable pub rotate : ℕ → ℕ → ℕ → ℕ → ℕ → ℕ → ℕ → Store → Store × Option WebSession
rotate new_id previous_id user_id token_hash now idle absolute store =
    let replacement = new_row new_id user_id token_hash now idle absolute in
    let added = replacement ∷ store in
    let updated = map (rotate_row previous_id new_id) added in
    if length (keep (can_rotate previous_id) added) == 1
    then (updated, some replacement)
    else (keep (λ row. not (row.id == new_id)) updated, none)

unfoldable pub revoke : ℕ → ℕ → Store → Store
revoke id now = map (λ row.
    if row.id == id && not (is_some row.revoked_at)
    then record row { revoked_at = some now }
    else row)

-- The recursive query of `revoke_chain`: an identifier and those that the rows were rotated to. A
-- chain without a cycle has at most as many rows as the table.
unfoldable pub chain_from : ℕ → Store → Option ℕ → List ℕ
chain_from zero store next = []
chain_from (suc fuel) store none = []
chain_from (suc fuel) store (some id) = elim (find_by_id id store) [
  | none ↦ []
  | some row ↦ id ∷ chain_from fuel store row.rotated_to_id
]

abbrev pub revoke_row : List ℕ → ℕ → WebSession → WebSession
revoke_row chain now row = if mem row.id chain then record row { revoked_at = some now } else row

unfoldable pub revoke_chain : ℕ → ℕ → Store → Store
revoke_chain id now store = map (revoke_row (chain_from (length store) store (some id)) now) store

-- The windows of `WebSessionService`; `renew_after` is the idle window times the threshold.
pub record Windows : Type 0 where
  pub idle : ℕ
  pub absolute : ℕ
  pub renew_after : ℕ
  pub grace : ℕ

pub record ResolvedSession : Type 0 where
  pub user : ℕ
  pub session : WebSession
  pub rotated_token : Option ℕ

module _ (w : Windows) where
  -- `create`: the new row, and the table with it.
  unfoldable pub create : ℕ → ℕ → ℕ → ℕ → Store → Store × WebSession
  create id user_id token now store =
      let absolute = now + w.absolute in
      let row = new_row id user_id token now (min (now + w.idle) absolute) absolute in
      (row ∷ store, row)

  abbrev pub has_expired : ℕ → WebSession → Bool
  has_expired now row = leb row.idle_expires_at now || leb row.absolute_expires_at now

  -- `_still_rotating` once the successor was looked up.
  unfoldable pub in_grace : ℕ → Option WebSession → Option WebSession
  in_grace now none = none
  in_grace now (some successor) =
      if is_some successor.revoked_at
      then none
      else if ltb (successor.created_at + w.grace) now
      then none
      else if has_expired now successor
      then none
      else some successor

  unfoldable pub still_rotating : WebSession → ℕ → ℕ → Store → Option WebSession
  still_rotating row next now store =
      if is_some row.revoked_at then none else in_grace now (find_by_id next store)

  -- `resolve` of a row that was rotated to `next`.
  unfoldable pub resolve_rotated : WebSession → ℕ → ℕ → Store → Store × Option ResolvedSession
  resolve_rotated row next now store = elim (still_rotating row next now store) [
    | some successor ↦
        (store, some (record { user = row.user_id; session = successor; rotated_token = none }))
    | none ↦ (revoke_chain row.id now store, none)
  ]

  -- The renewal of a row past the threshold, with the new token and identifier.
  unfoldable pub renew : WebSession → ℕ → ℕ → ℕ → Store → Store × Option ResolvedSession
  renew row new_id token now store =
      let idle = min (now + w.idle) row.absolute_expires_at in
      let r = rotate new_id row.id row.user_id token now idle row.absolute_expires_at store in
      elim r.1 [
        | none ↦ (revoke_chain row.id now r.0, none)
        | some replacement ↦ (
          r.0,
          some (record { user = row.user_id; session = replacement; rotated_token = some token }),
        )
      ]

  unfoldable pub resolve_row : WebSession → ℕ → ℕ → ℕ → Store → Store × Option ResolvedSession
  resolve_row row new_id token now store = elim row.rotated_to_id [
    | some next ↦ resolve_rotated row next now store
    | none ↦
        if is_some row.revoked_at || has_expired now row
        then (store, none)
        else if ltb now (row.created_at + w.renew_after)
        then (store, some (record { user = row.user_id; session = row; rotated_token = none }))
        else renew row new_id token now store
  ]

  -- `resolve` where no other task runs between its calls of the repository.
  unfoldable pub resolve : ℕ → ℕ → ℕ → ℕ → Store → Store × Option ResolvedSession
  resolve token new_id new_token now store = elim (find_by_hash token store) [
    | none ↦ (store, none)
    | some row ↦ resolve_row row new_id new_token now store
  ]
