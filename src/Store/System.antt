-- ===== src/Store/System.antt =====
-- The states of the table that the repository's writes reach, and what holds in each of them.
use Prim.Native.String.{String}
use recallum_mcp.Prelude.{ℕ, ◌≡◌, Option, List}
use recallum_mcp.Usage.{Delta}
use recallum_mcp.Store.{Row, Db, Values, done, create_memory}
use recallum_mcp.Store.Edit.{
  Changes, Correction, update_attributes, supersede, soft_delete, mark_reconfirmed,
  replace_embedding,
}
use recallum_mcp.Store.Bulk.{Consolidation, merge_memories, apply_usage, reassign_project}
use recallum_mcp.Store.Rows.{IsValid, IsFresh}
use recallum_mcp.Store.Valid.{IsAllowed, create_memory-IsValid}
use recallum_mcp.Store.Kept.{
  update_attributes-IsValid, soft_delete-IsValid, mark_reconfirmed-IsValid,
  replace_embedding-IsValid, apply_usage-IsValid,
}
use recallum_mcp.Store.Replaced.{supersede-IsValid, merge_memories-IsValid}
use recallum_mcp.Store.Moved.{reassign_project-IsValid}

module _ {V M : Type 0} where
  -- One write of a user. A write that fails is rolled back, and is no step.
  pub data Step (user : ℕ) : Db V M → Db V M → Type 0 where
    created :
        {before : Db V M} (id now : ℕ) (v : Values V M) (r : Row V M × Db V M)
        → IsAllowed v
        → IsFresh id before.rows
        → create_memory id user now v before ≡ done r
        → Step user before r.1
    updated :
        {before : Db V M} (id : ℕ) (c : Changes M) (r : Option (Row V M) × Db V M)
        → update_attributes user id c before ≡ done r
        → Step user before r.1
    superseded :
        {before : Db V M} (id new_id now : ℕ) (c : Correction V M) (r : Option (Row V M) × Db V M)
        → IsFresh new_id before.rows
        → supersede user id new_id now c before ≡ done r
        → Step user before r.1
    merged :
        {before : Db V M} (ids : List ℕ) (new_id now : ℕ) (c : Consolidation V M)
        (r : Option (Row V M × List ℕ) × Db V M)
        → IsFresh new_id before.rows
        → merge_memories user ids new_id now c before ≡ done r
        → Step user before r.1
    deleted : {before : Db V M} (id now : ℕ) → Step user before (soft_delete user id now before).1
    reconfirmed :
        {before : Db V M} (id now : ℕ) → Step user before (mark_reconfirmed user id now before).1
    embedded :
        {before : Db V M} (id : ℕ) (v : V) (model : String)
        → Step user before (replace_embedding user id v model before).1
    used :
        {before : Db V M} (deltas : List (ℕ × Delta))
        → Step user before (apply_usage user deltas before)
    reassigned :
        {before : Db V M} (from to : String)
        → Step user before (reassign_project user from to before).1

  pub data Reach (first : Db V M) : Db V M → Type 0 where
    start : Reach first first
    next :
        {before after : Db V M} (user : ℕ)
        → Reach first before
        → Step user before after
        → Reach first after

  pub Step-IsValid :
      (user : ℕ) {before after : Db V M}
      → Step user before after
      → IsValid before.rows
      → IsValid after.rows
  Step-IsValid user (created id now v r a f h) w = create_memory-IsValid id user now v _ w a f r h
  Step-IsValid user (updated id c r h) w = update_attributes-IsValid user id c _ r w h
  Step-IsValid user (superseded id new_id now c r f h) w =
      supersede-IsValid user id new_id now c _ r w f h
  Step-IsValid user (merged ids new_id now c r f h) w =
      merge_memories-IsValid user ids new_id now c _ r w f h
  Step-IsValid user (deleted id now) w = soft_delete-IsValid user id now _ w
  Step-IsValid user (reconfirmed id now) w = mark_reconfirmed-IsValid user id now _ w
  Step-IsValid user (embedded id v model) w = replace_embedding-IsValid user id v model _ w
  Step-IsValid user (used deltas) w = apply_usage-IsValid user deltas _ w
  Step-IsValid user (reassigned from to) w = reassign_project-IsValid user from to _ w

  -- From a valid table every sequence of writes of the repository, under new identifiers and with the
  -- values that the service allows, reaches a valid table: identifiers differ, no two active rows
  -- of a user have the same scope, project and hash, every todo expires, every replaced row is
  -- retired, and a row has a project exactly if its scope is one.
  pub Reach-IsValid :
      {first last : Db V M} → Reach first last → IsValid first.rows → IsValid last.rows
  Reach-IsValid start w = w
  Reach-IsValid (next user r s) w = Step-IsValid user s (Reach-IsValid r w)
