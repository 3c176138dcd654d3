-- ===== src/Store/Isolated.antt =====
-- A write of one user leaves the rows and the generation of every other user as they are.
use Prim.Native.String.{String}
use recallum_mcp.Prelude.{
  ℕ, ◌≡◌, refl, inl, inr, false, ◌&&◌, Option, none, some, List, ◌∷◌, length, keep, Bool-cases,
  Option-cases, List-cases, ◌==◌, arith,
}
use recallum_mcp.Usage.{Delta}
use recallum_mcp.Store.{Row, Db, done, given_kind, is_todo, is_active, owned, retire, find_owned}
use recallum_mcp.Store.Edit.{
  Changes, Correction, change_row, is_durable_todo, replace_rows, replacement_values,
  update_attributes, supersede, soft_delete, mark_reconfirmed, reconfirm_row, replace_embedding,
}
use recallum_mcp.Store.Bulk.{
  Consolidation, unique, chosen, all_in_bucket, merged_values, merge_memories, delta_of, use_row,
  apply_usage, target_hashes, is_moved, move_row, reassign_project,
}
use recallum_mcp.Store.Rows.{Outcome-cases}
use recallum_mcp.Store.System.{
  Step, created, updated, superseded, merged, deleted, reconfirmed, embedded, used, reassigned,
}
use recallum_mcp.Store.Others.{
  Untouched, generation-bump, untouched, create_memory-Untouched, replace_rows-Untouched,
  edited-Untouched,
}

module _ {V M : Type 0} where
  module _ (user other : ℕ) (apart : (user == other) ≡ false) where
    update_attributes-Untouched :
        (id : ℕ) (c : Changes M) (db : Db V M) (r : Option (Row V M) × Db V M)
        → update_attributes user id c db ≡ done r
        → Untouched other db r.1
    unfolding update_attributes change_row
    update_attributes-Untouched id c db r h = elim (Option-cases (find_owned user id db.rows)) [
      | inl e ↦ let same : r.1 ≡ db = ground (arith, e) in rw same (untouched user other apart db)
      | inr (s, e) ↦ elim (Bool-cases (is_durable_todo (change_row c s))) [
        | inl t ↦ absurd (ground (arith, e, t))
        | inr t ↦
            edited-Untouched user other apart (owned user id) (change_row c) db r.1
              (λ x q. ground (arith, q)) (λ x. refl) (ground (arith, e, t))
              (ground (arith, e, t, generation-bump user other apart db.generation))
      ]
    ]

    supersede-Untouched :
        (id new_id now : ℕ) (c : Correction V M) (db : Db V M) (r : Option (Row V M) × Db V M)
        → supersede user id new_id now c db ≡ done r
        → Untouched other db r.1
    unfolding supersede
    supersede-Untouched id new_id now c db r h = elim (Option-cases (find_owned user id db.rows)) [
      | inl e ↦ let same : r.1 ≡ db = ground (arith, e) in rw same (untouched user other apart db)
      | inr (s, e) ↦ elim (Bool-cases (is_todo (given_kind c.kind s.kind))) [
        | inl t ↦ absurd (ground (arith, e, t))
        | inr t ↦
            let v = replacement_values c s in
            elim (Outcome-cases (replace_rows (owned user id) new_id user now v db)) [
              | inl (x, q) ↦ absurd (ground (arith, e, t, q))
              | inr (y, q) ↦
                  let same : r.1 ≡ y.1 = ground (arith, e, t, q) in
                  rw same (
                    replace_rows-Untouched user other apart (owned user id)
                      (λ x o. ground (arith, o)) new_id now v db y q)
            ]
      ]
    ]

    merge_memories-Untouched :
        (ids : List ℕ) (new_id now : ℕ) (c : Consolidation V M) (db : Db V M)
        (r : Option (Row V M × List ℕ) × Db V M)
        → merge_memories user ids new_id now c db ≡ done r
        → Untouched other db r.1
    unfolding merge_memories
    merge_memories-Untouched ids new_id now c db r h =
        elim (Bool-cases
          (length (keep (chosen user (unique ids)) db.rows) == length (unique ids))) [
            | inr n ↦
                let same : r.1 ≡ db = ground (arith, n) in rw same (untouched user other apart db)
            | inl n ↦ elim (List-cases (keep (chosen user (unique ids)) db.rows)) [
              | inl e ↦ absurd (ground (arith, n, e))
              | inr (first, others, e) ↦ elim (Bool-cases (all_in_bucket first others)) [
                | inr b ↦ absurd (ground (arith, n, e, b))
                | inl b ↦
                    let v = merged_values c first (first ∷ others) in
                    elim (Outcome-cases
                      (replace_rows (chosen user (unique ids)) new_id user now v db)) [
                        | inl (x, q) ↦ absurd (ground (arith, n, e, b, q))
                        | inr (y, q) ↦
                            let same : r.1 ≡ y.1 = ground (arith, n, e, b, q) in
                            rw same (
                              replace_rows-Untouched user other apart (chosen user (unique ids))
                                (λ x o. ground (arith, o)) new_id now v db y q)
                      ]
              ]
            ]
          ]

    soft_delete-Untouched :
        (id now : ℕ) (db : Db V M) → Untouched other db (soft_delete user id now db).1
    unfolding soft_delete
    soft_delete-Untouched id now db = elim (Option-cases (find_owned user id db.rows)) [
      | inl e ↦
          let same : (soft_delete user id now db).1 ≡ db = ground (arith, e) in
          rw same (untouched user other apart db)
      | inr (s, e) ↦
          edited-Untouched user other apart (owned user id) (retire now) db _
            (λ x q. ground (arith, q)) (λ x. refl) (ground (arith, e))
            (ground (arith, e, generation-bump user other apart db.generation))
    ]

    mark_reconfirmed-Untouched :
        (id now : ℕ) (db : Db V M) → Untouched other db (mark_reconfirmed user id now db).1
    unfolding mark_reconfirmed
    mark_reconfirmed-Untouched id now db = elim (Option-cases (find_owned user id db.rows)) [
      | inl e ↦
          let same : (mark_reconfirmed user id now db).1 ≡ db = ground (arith, e) in
          rw same (untouched user other apart db)
      | inr (s, e) ↦
          edited-Untouched user other apart (owned user id) (reconfirm_row now) db _
            (λ x q. ground (arith, q)) (λ x. refl) (ground (arith, e))
            (ground (arith, e, generation-bump user other apart db.generation))
    ]

    replace_embedding-Untouched :
        (id : ℕ) (v : V) (model : String) (db : Db V M)
        → Untouched other db (replace_embedding user id v model db).1
    unfolding replace_embedding
    replace_embedding-Untouched id v model db = elim (Option-cases (find_owned user id db.rows)) [
      | inl e ↦
          let same : (replace_embedding user id v model db).1 ≡ db = ground (arith, e) in
          rw same (untouched user other apart db)
      | inr (s, e) ↦
          edited-Untouched user other apart (owned user id)
            (λ r. record r { embedding = v; embedding_model = some model }) db _
            (λ x q. ground (arith, q)) (λ x. refl) (ground (arith, e)) (ground (arith, e))
    ]

    use_row-user_id : (d : Option Delta) (r : Row V M) → (use_row d r).user_id ≡ r.user_id
    use_row-user_id none r = refl
    use_row-user_id (some d) r = refl

    apply_usage-Untouched :
        (deltas : List (ℕ × Delta)) (db : Db V M) → Untouched other db (apply_usage user deltas db)
    unfolding apply_usage
    apply_usage-Untouched deltas db =
        edited-Untouched user other apart (λ r. r.user_id == user && is_active r)
          (λ r. use_row (delta_of r.id deltas) r) db _ (λ x q. ground (arith, q))
          (λ x. use_row-user_id (delta_of x.id deltas) x) refl refl

    reassign_project-Untouched :
        (from to : String) (db : Db V M) → Untouched other db (reassign_project user from to db).1
    unfolding reassign_project is_moved
    reassign_project-Untouched from to db =
        edited-Untouched user other apart (is_moved user from (target_hashes user to db.rows))
          (move_row to) db _ (λ x q. ground (arith, q)) (λ x. refl) refl
          (ground (arith, generation-bump user other apart db.generation))

  -- A write of one user leaves the rows and the generation of every other user as they are.
  pub Step-Untouched :
      (user other : ℕ) {before after : Db V M}
      → Step user before after
      → (user == other) ≡ false
      → Untouched other before after
  Step-Untouched user other (created id now v r a f h) n =
      create_memory-Untouched user other n id now v _ r h
  Step-Untouched user other (updated id c r h) n =
      update_attributes-Untouched user other n id c _ r h
  Step-Untouched user other (superseded id new_id now c r f h) n =
      supersede-Untouched user other n id new_id now c _ r h
  Step-Untouched user other (merged ids new_id now c r f h) n =
      merge_memories-Untouched user other n ids new_id now c _ r h
  Step-Untouched user other (deleted id now) n = soft_delete-Untouched user other n id now _
  Step-Untouched user other (reconfirmed id now) n =
      mark_reconfirmed-Untouched user other n id now _
  Step-Untouched user other (embedded id v model) n =
      replace_embedding-Untouched user other n id v model _
  Step-Untouched user other (used deltas) n = apply_usage-Untouched user other n deltas _
  Step-Untouched user other (reassigned from to) n =
      reassign_project-Untouched user other n from to _
