-- ===== src/Service/Steps.antt =====
-- Every write of the service is a sequence of the repository's writes.
use Prim.Native.String.{String}
use recallum_mcp.Prelude.{
  ℕ, ◌≡◌, inl, inr, Bool, true, false, ◌&&◌, Option, some, Bool-cases, Option-cases, arith,
}
use recallum_mcp.Limits.{MemoryLimits}
use recallum_mcp.Validate.{Text, normalize_content, normalize_project}
use recallum_mcp.Store.{Row, Db, Values, is_none, is_todo, create_memory, find_active_by_hash}
use recallum_mcp.Store.Edit.{Changes, update_attributes, supersede, mark_reconfirmed}
use recallum_mcp.Store.Bulk.{unique, merge_memories}
use recallum_mcp.Store.Rows.{IsFresh, Outcome-cases}
use recallum_mcp.Store.Valid.{IsAllowed}
use recallum_mcp.Store.System.{
  Step, created, updated, superseded, merged, deleted, reconfirmed, reassigned,
}
use recallum_mcp.Service.{Metadata, Outside, Draft, Checked, same_text_list, check_draft}
use recallum_mcp.Service.Remember.{
  Embedding, scope_of, repeat_changes, repeat, values_of, insert_new, store_new,
  remember_in_session,
}
use recallum_mcp.Service.Settled.{Result-cases}
use recallum_mcp.Service.Stored.{values_of-IsAllowed}
use recallum_mcp.Service.Perform.{
  Request, remembers, updates, merges, reassigns, reconfirms, forgets, table_after, perform, Writes,
  no_write, write, Writes-IsValid, Writes-Untouched, IsSafe,
}
use recallum_mcp.Service.Revise.{
  UpdateRequest, MergeRequest, check_update, correction_of, correct, update, check_merge, merge,
  reassign,
}

module _ {V J F : Type 0} (outside : Outside V J) (limits : MemoryLimits F) where
  module _ (user new_id now : ℕ) (db : Db V (Metadata J)) (f : IsFresh new_id db.rows) where
    one : (after : Db V (Metadata J)) → Step user db after → Writes user db after
    one after s = write no_write s

    -- A table that is another one by an equation.
    Reach-along :
        (target after : Db V (Metadata J))
        → after ≡ target
        → Writes user db target
        → Writes user db after
    Reach-along target after e r = rw e r

    repeat-Writes :
        (c : Checked J) (s : Row V (Metadata J))
        → Writes user db (table_after db (repeat outside limits user now c s db))
    unfolding repeat
    repeat-Writes c s =
        elim (Outcome-cases (update_attributes user s.id (repeat_changes outside limits c s) db)) [
          | inl (x, q) ↦ Reach-along db _ (ground (arith, q)) no_write
          | inr (a, q) ↦ Reach-along (mark_reconfirmed user s.id now a.1).1 _ (ground (arith, q)) (
              write (one a.1 (updated s.id (repeat_changes outside limits c s) a q))
                (reconfirmed s.id now))
        ]

    insert_new-Writes :
        (degraded : Bool) (v : Values V (Metadata J))
        → IsAllowed v
        → Writes user db (table_after db (insert_new outside limits user new_id now degraded v db))
    unfolding insert_new
    insert_new-Writes degraded v a = elim (Outcome-cases (create_memory new_id user now v db)) [
      | inl (x, q) ↦ Reach-along db _ (ground (arith, q)) no_write
      | inr (made, q) ↦
          Reach-along made.1 _ (ground (arith, q)) (one made.1 (created new_id now v made a f q))
    ]

    store_new-Writes :
        (c : Checked J) (client : Option String) (e : Embedding V)
        → Writes user db (table_after db (store_new outside limits user new_id now c client e db))
    unfolding store_new
    store_new-Writes c client e = elim (Bool-cases (is_todo c.kind && is_none c.expires_at)) [
      | inl t ↦ Reach-along db _ (ground (arith, t)) no_write
      | inr t ↦ elim (Bool-cases e.degraded) [
        | inl d ↦ Reach-along _ _ (ground (arith, t, d)) (
            insert_new-Writes true
              (values_of outside limits c client outside.zeros "embedding service unavailable")
              (values_of-IsAllowed outside limits c client outside.zeros
                "embedding service unavailable" t))
        | inr d ↦ elim (Option-cases e.vector) [
          | inl n ↦ Reach-along db _ (ground (arith, t, d, n)) no_write
          | inr (x, n) ↦ elim (Bool-cases (outside.has_dimensions x)) [
            | inl s ↦ Reach-along _ _ (ground (arith, t, d, n, s)) (
                insert_new-Writes false (values_of outside limits c client x outside.model)
                  (values_of-IsAllowed outside limits c client x outside.model t))
            | inr s ↦ Reach-along db _ (ground (arith, t, d, n, s)) no_write
          ]
        ]
      ]
    ]

    remember_in_session-Writes :
        (draft : Draft J) (e : Embedding V)
        → Writes user db
            (table_after db (remember_in_session outside limits user new_id now draft e db db))
    unfolding remember_in_session
    remember_in_session-Writes draft e =
        elim (Result-cases (check_draft outside limits now draft)) [
          | inl (x, q) ↦ Reach-along db _ (ground (arith, q)) no_write
          | inr (c, q) ↦
              elim (Option-cases (
                find_active_by_hash now user (scope_of c.project) c.project
                  (outside.digest c.content) db.rows)) [
                    | inl n ↦
                        Reach-along _ _ (ground (arith, q, n))
                          (store_new-Writes c draft.source_client e)
                    | inr (s, n) ↦ Reach-along _ _ (ground (arith, q, n)) (repeat-Writes c s)
                  ]
        ]

    correct-Writes :
        (id : ℕ) (content : Text) (client : Option String) (c : Changes (Metadata J))
        → Writes user db
            (table_after db (correct outside limits user id new_id now content client c db))
    unfolding correct
    correct-Writes id content client c =
        elim (Result-cases
          (normalize_content outside.nfc outside.is_space limits.max_content_chars content)) [
            | inl (x, q) ↦ Reach-along db _ (ground (arith, q)) no_write
            | inr (n, q) ↦ elim (Option-cases (outside.embed n)) [
              | inl m ↦ Reach-along db _ (ground (arith, q, m)) no_write
              | inr (v, m) ↦
                  let k = correction_of outside limits n v client c in
                  elim (Outcome-cases
                    (supersede user id new_id now (correction_of outside limits n v client c) db)) [
                      | inl (x, h) ↦ Reach-along db _ (ground (arith, q, m, h)) no_write
                      | inr (a, h) ↦
                          Reach-along a.1 _ (ground (arith, q, m, h))
                            (one a.1 (superseded id new_id now k a f h))
                    ]
            ]
          ]

    update-Writes :
        (id : ℕ) (u : UpdateRequest J)
        → Writes user db (table_after db (update outside limits user id new_id now u db))
    unfolding update
    update-Writes id u = elim (Result-cases (check_update outside limits now u)) [
      | inl (x, q) ↦ Reach-along db _ (ground (arith, q)) no_write
      | inr (c, q) ↦ elim (Option-cases u.content) [
        | inr (t, m) ↦
            Reach-along _ _ (ground (arith, q, m)) (correct-Writes id t u.source_client c)
        | inl m ↦ elim (Outcome-cases (update_attributes user id c db)) [
          | inl (x, h) ↦ Reach-along db _ (ground (arith, q, m, h)) no_write
          | inr (a, h) ↦ Reach-along a.1 _ (ground (arith, q, m, h)) (one a.1 (updated id c a h))
        ]
      ]
    ]

    merge-Writes :
        (m : MergeRequest J)
        → Writes user db (table_after db (merge outside limits user new_id now m db))
    unfolding merge
    merge-Writes m = elim (Result-cases (check_merge outside limits m)) [
      | inl (x, q) ↦ Reach-along db _ (ground (arith, q)) no_write
      | inr (c, q) ↦ elim (Option-cases (outside.embed c.0)) [
        | inl n ↦ Reach-along db _ (ground (arith, q, n)) no_write
        | inr (v, n) ↦
            elim (Outcome-cases (merge_memories user (unique m.source_ids) new_id now (c.1 v) db)) [
              | inl (x, h) ↦ Reach-along db _ (ground (arith, q, n, h)) no_write
              | inr (a, h) ↦
                  Reach-along a.1 _ (ground (arith, q, n, h))
                    (one a.1 (merged (unique m.source_ids) new_id now (c.1 v) a f h))
            ]
      ]
    ]

    reassign-Writes :
        (from to : Text) → Writes user db (table_after db (reassign outside limits user from to db))
    unfolding reassign
    reassign-Writes from to =
        let normal = normalize_project outside.nfc outside.is_space limits.max_project_chars in
        elim (Result-cases
          (normalize_project outside.nfc outside.is_space limits.max_project_chars (some from))) [
            | inl (x, q) ↦ Reach-along db _ (ground (arith, q)) no_write
            | inr (a, q) ↦
                elim (Result-cases (
                  normalize_project outside.nfc outside.is_space limits.max_project_chars
                    (some to))) [
                      | inl (x, r) ↦ Reach-along db _ (ground (arith, q, r)) no_write
                      | inr (b, r) ↦ elim (Option-cases a) [
                        | inl n ↦ Reach-along db _ (ground (arith, q, r, n)) no_write
                        | inr (s, n) ↦ elim (Option-cases b) [
                          | inl m ↦ Reach-along db _ (ground (arith, q, r, n, m)) no_write
                          | inr (t, m) ↦ elim (Bool-cases (same_text_list s t)) [
                            | inl e ↦ Reach-along db _ (ground (arith, q, r, n, m, e)) no_write
                            | inr e ↦
                                Reach-along _ _ (ground (arith, q, r, n, m, e))
                                  (one _ (reassigned (outside.spell s) (outside.spell t)))
                          ]
                        ]
                      ]
                    ]
          ]

    -- A call of the service with a new identifier, in which no other task interferes, leaves the table
    -- as a sequence of the user's writes leaves it, whether it returns or raises.
    perform-Writes :
        (request : Request V J) → Writes user db (perform outside limits user new_id now request db)
    unfolding perform
    perform-Writes (remembers draft e) = remember_in_session-Writes draft e
    perform-Writes (updates id u) = update-Writes id u
    perform-Writes (merges m) = merge-Writes m
    perform-Writes (reassigns from to) = reassign-Writes from to
    perform-Writes (reconfirms id) = one _ (reconfirmed id now)
    perform-Writes (forgets id) = one _ (deleted id now)

    -- A call of the service that writes (`remember`, `update`, `merge`, `reassign_project`, `reconfirm`,
    -- `forget`), with a new identifier and where no other task interferes, keeps a valid table valid and
    -- leaves the rows and the generation of every other user as they are, whether it returns or raises.
    pub perform-IsSafe :
        (request : Request V J) → IsSafe user db (perform outside limits user new_id now request db)
    perform-IsSafe request = record {
      valid = Writes-IsValid user db (perform-Writes request);
      isolated = λ other n. Writes-Untouched user other db n (perform-Writes request);
    }
