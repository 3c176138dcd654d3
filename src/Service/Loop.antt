-- ===== src/Service/Loop.antt =====
-- `remember` of memory/service.py: the loop of attempts around the transaction. What other tasks do to
-- the table meanwhile is part of a turn: before the transaction begins, and between its first
-- read and its writes.
use recallum_mcp.Prelude.{
  ℕ, zero, suc, Bool, true, false, not, ◌&&◌, none, some, List, ◌==◌, if◌then◌else◌,
}
use recallum_mcp.Model.{ok, raise}
use recallum_mcp.Limits.{MemoryLimits}
use recallum_mcp.Store.{Db, is_none, find_active_by_hash}
use recallum_mcp.Service.{Metadata, Outside, Draft, Checked, check_draft}
use recallum_mcp.Service.Remember.{
  Attempt, returned, raised, conflict, embed_outside, loop_exited, invalid, RememberResult,
  Embedding, scope_of, remember_in_session,
}

-- The instant and the new identifier of an attempt, and what other tasks do to the table.
pub record Turn (V M : Type 0) : Type 0 where
  pub now : ℕ
  pub id : ℕ
  pub before : Db V M → Db V M
  pub during : Db V M → Db V M

module _ {V J F : Type 0} (outside : Outside V J) (limits : MemoryLimits F) where
  unfoldable pub embed_for_write : List ℕ → Embedding V
  embed_for_write normalized = elim (outside.embed normalized) [
    | some vector ↦ record { vector = some vector; degraded = false }
    | none ↦ record { vector = some outside.zeros; degraded = true }
  ]

  -- One transaction; what it raises leaves the table as the other tasks left it.
  unfoldable pub attempt :
      ℕ
      → Draft J
      → Embedding V
      → Turn V (Metadata J)
      → Db V (Metadata J)
      → Attempt (RememberResult V (Metadata J)) × Db V (Metadata J)
  attempt user draft e turn db =
      let seen = turn.before db in
      elim (remember_in_session outside limits user turn.id turn.now draft e seen
        (turn.during seen)) [
          | returned (r, after) ↦ (returned r, after)
          | raised f ↦ (raised f, turn.during seen)
        ]

  -- What the loop does with the outcome of an attempt: `again` goes on with the next one, `once` is
  -- the transaction that the last attempt still has after a late embedding.
  unfoldable pub settle :
      Bool
      → List ℕ
      → Embedding V
      → (Embedding V
          → Db V (Metadata J)
          → Attempt (RememberResult V (Metadata J)) × Db V (Metadata J))
      → (Embedding V
          → Db V (Metadata J)
          → Attempt (RememberResult V (Metadata J)) × Db V (Metadata J))
      → Attempt (RememberResult V (Metadata J))
      → Db V (Metadata J)
      → Attempt (RememberResult V (Metadata J)) × Db V (Metadata J)
  settle is_last normalized e again once (returned r) db = (returned r, db)
  settle is_last normalized e again once (raised embed_outside) db =
      let embedded = embed_for_write normalized in
      if is_last then once embedded db else again embedded db
  settle is_last normalized e again once (raised conflict) db =
      if is_last then (raised conflict, db) else again e db
  settle is_last normalized e again once (raised f) db = (raised f, db)

  -- The loop, with as many attempts as are left; the turn of the attempt is that of its number.
  unfoldable pub attempts :
      ℕ
      → ℕ
      → ℕ
      → Draft J
      → List ℕ
      → Embedding V
      → (ℕ → Turn V (Metadata J))
      → Db V (Metadata J)
      → Attempt (RememberResult V (Metadata J)) × Db V (Metadata J)
  attempts zero number user draft normalized e turns db = (raised loop_exited, db)
  attempts (suc left) number user draft normalized e turns db =
      let (outcome, after) = attempt user draft e (turns number) db in
      settle (left == 0) normalized e
        (λ e' db'. attempts left (suc number) user draft normalized e' turns db')
        (λ e' db'. attempt user draft e' (turns (suc number)) db') outcome after

  -- The vector that the first attempt has: a text that is not stored yet is embedded.
  unfoldable pub first_embedding : ℕ → ℕ → Checked J → Embedding V → Db V (Metadata J) → Embedding V
  first_embedding user now c e db =
      if is_none e.vector
        && not e.degraded
        && is_none (
            find_active_by_hash now user (scope_of c.project) c.project (outside.digest c.content)
              db.rows)
      then embed_for_write c.content
      else e

  -- `remember`, which reads for a repeat before it embeds, at the instant of turn 0.
  unfoldable pub remember :
      ℕ
      → Draft J
      → Embedding V
      → (ℕ → Turn V (Metadata J))
      → Db V (Metadata J)
      → Attempt (RememberResult V (Metadata J)) × Db V (Metadata J)
  remember user draft e turns db =
      let now = (turns 0).now in
      elim (check_draft outside limits now draft) [
        | raise x ↦ (raised (invalid x), db)
        | ok c ↦ attempts 3 1 user draft c.content (first_embedding user now c e db) turns db
      ]
