-- ===== src/Service/Stored.antt =====
-- What one transaction of `remember` leaves in the table.
use Prim.Native.String.{String}
use recallum_mcp.Prelude.{
  ℕ, ◌≡◌, refl, inl, inr, Bool, true, false, ◌&&◌, Option, some, List, ◌∷◌, Bool-cases,
  Option-cases, ==_iff, arith,
}
use recallum_mcp.Model.{Scope}
use recallum_mcp.Limits.{MemoryLimits}
use recallum_mcp.Store.{
  Row, Db, done, Values, is_none, is_todo, project_text, has_expired, owned, has_key, update_where,
  new_row, insert_row, clashes, create_memory, find_active_by_hash, find_owned, expired_key, retire,
}
use recallum_mcp.Store.Edit.{
  Changes, change_row, is_durable_todo, update_attributes, reconfirm_row, mark_reconfirmed,
}
use recallum_mcp.Store.Rows.{IsValid, IsFresh, Outcome-cases}
use recallum_mcp.Store.Valid.{IsAllowed, create_memory-IsValid}
use recallum_mcp.Store.Kept.{update_attributes-IsValid, mark_reconfirmed-IsValid}
use recallum_mcp.Service.{Metadata, Outside, Checked}
use recallum_mcp.Service.Remember.{
  returned, RememberResult, Embedding, scope_of, repeat_changes, repeat, values_of, insert_new,
  store_new,
}
use recallum_mcp.Service.Found.{
  served, find_active_by_hash-all, find_owned-find_active_by_hash, find_active_by_hash-edited,
}
use recallum_mcp.Service.Checks.{same_text_self, same_scope_self, scope_of-scoped}

module _ {V M : Type 0} where
  -- The table is valid, and the search by the key finds the memory of the result.
  pub record IsStored (now user : ℕ) (scope : Scope) (project : Option String) (content_hash : ℕ)
      (r : RememberResult V M) (after : Db V M) : Type 0 where
    pub valid : IsValid after.rows
    pub found : find_active_by_hash now user scope project content_hash after.rows ≡ some r.memory

  new_row-served :
      (id user now : ℕ) (v : Values V M)
      → has_expired now v.expires_at ≡ false
      → served now user v.scope v.project v.content_hash (new_row id user now v) ≡ true
  unfolding new_row has_key
  new_row-served id user now v h = ground (
    arith,
    h,
    same_scope_self v.scope,
    same_text_self (project_text v.project),
    ==_iff user user,
    ==_iff v.content_hash v.content_hash,
  )

  create_memory-head :
      (id user now : ℕ) (v : Values V M) (db : Db V M) (r : Row V M × Db V M)
      → create_memory id user now v db ≡ done r
      → (r.0 ≡ new_row id user now v)
        × (r.1.rows
            ≡ new_row id user now v ∷ update_where (expired_key now user v) (retire now) db.rows)
  unfolding create_memory insert_row
  create_memory-head id user now v db r h =
      elim (Bool-cases (
        clashes (new_row id user now v)
          (update_where (expired_key now user v) (retire now) db.rows))) [
            | inl e ↦ absurd (ground (arith, h, e))
            | inr e ↦ (ground (arith, h, e), ground (arith, h, e))
          ]

  find_active_by_hash-head :
      (now user : ℕ) (scope : Scope) (project : Option String) (content_hash : ℕ) (r : Row V M)
      (rows : List (Row V M))
      → served now user scope project content_hash r ≡ true
      → find_active_by_hash now user scope project content_hash (r ∷ rows) ≡ some r
  unfolding find_active_by_hash
  find_active_by_hash-head now user scope project content_hash r rows h = ground (arith, h)

  create_memory-found :
      (id user now : ℕ) (v : Values V M) (db : Db V M) (r : Row V M × Db V M)
      → has_expired now v.expires_at ≡ false
      → create_memory id user now v db ≡ done r
      → find_active_by_hash now user v.scope v.project v.content_hash r.1.rows ≡ some r.0
  create_memory-found id user now v db r alive h =
      let (new, rows) = create_memory-head id user now v db r h in
      rw (new, rows)
        (find_active_by_hash-head now user v.scope v.project v.content_hash (new_row id user now v)
          _ (new_row-served id user now v alive))

  pub update_attributes-found :
      (user id : ℕ) (c : Changes M) (db : Db V M) (s : Row V M) (r : Option (Row V M) × Db V M)
      → find_owned user id db.rows ≡ some s
      → update_attributes user id c db ≡ done r
      → (r.0 ≡ some (change_row c s))
        × (r.1.rows ≡ update_where (owned user id) (change_row c) db.rows)
  unfolding update_attributes
  update_attributes-found user id c db s r e h =
      elim (Bool-cases (is_durable_todo (change_row c s))) [
        | inl t ↦ absurd (ground (arith, e, t))
        | inr t ↦ (ground (arith, e, t), ground (arith, e, t))
      ]

  pub mark_reconfirmed-found :
      (user id now : ℕ) (db : Db V M) (s : Row V M)
      → find_owned user id db.rows ≡ some s
      → ((mark_reconfirmed user id now db).0 ≡ some (reconfirm_row now s))
        × ((mark_reconfirmed user id now db).1.rows
            ≡ update_where (owned user id) (reconfirm_row now) db.rows)
  unfolding mark_reconfirmed
  mark_reconfirmed-found user id now db s e = (ground (arith, e), ground (arith, e))

  change_row-served :
      (now user : ℕ) (scope : Scope) (project : Option String) (content_hash : ℕ) (c : Changes M)
      (s : Row V M)
      → c.clear_expires_at ≡ false
      → has_expired now c.expires_at ≡ false
      → served now user scope project content_hash s ≡ true
      → served now user scope project content_hash (change_row c s) ≡ true
  unfolding has_key change_row
  change_row-served now user scope project content_hash c s k alive h =
      elim (Option-cases c.expires_at) [
        | inl n ↦ ground (arith, n, k, h)
        | inr (t, n) ↦ ground (arith, n, k, h, alive)
      ]

  reconfirm_row-served :
      (now user : ℕ) (scope : Scope) (project : Option String) (content_hash : ℕ) (s : Row V M)
      → served now user scope project content_hash s ≡ true
      → served now user scope project content_hash (reconfirm_row now s) ≡ true
  unfolding has_key
  reconfirm_row-served now user scope project content_hash s h = h

module _ {V J F : Type 0} (outside : Outside V J) (limits : MemoryLimits F) where
  pub repeat-IsStored :
      (now user : ℕ) (scope : Scope) (project : Option String) (content_hash : ℕ) (c : Checked J)
      (s : Row V (Metadata J)) (db : Db V (Metadata J))
      (r : RememberResult V (Metadata J) × Db V (Metadata J))
      → has_expired now c.expires_at ≡ false
      → IsValid db.rows
      → find_active_by_hash now user scope project content_hash db.rows ≡ some s
      → repeat outside limits user now c s db ≡ returned r
      → IsStored now user scope project content_hash r.0 r.1
  unfolding repeat repeat_changes change_row
  repeat-IsStored now user scope project content_hash c s db r alive w e h =
      let ch = repeat_changes outside limits c s in
      elim (Outcome-cases (update_attributes user s.id (repeat_changes outside limits c s) db)) [
        | inl (x, q) ↦ absurd (ground (arith, q))
        | inr (a, q) ↦
            let own =
              find_owned-find_active_by_hash now user scope project content_hash db.rows s w.apart
                e in
            let (_, rows1) = update_attributes-found user s.id ch db s a own q in
            let w1 = update_attributes-IsValid user s.id ch db a w q in
            let pass =
              (find_active_by_hash-all now user scope project content_hash _ db.rows s w.sound
                e).1 in
            let pass1 =
              change_row-served now user scope project content_hash ch s refl alive pass in
            let found1 : find_active_by_hash now user scope project content_hash a.1.rows
                ≡ some (change_row ch s) =
              rw rows1 (
                find_active_by_hash-edited now user scope project content_hash (change_row ch)
                  db.rows s w.apart e pass1) in
            let own1 : find_owned user s.id a.1.rows ≡ some (change_row ch s) =
              find_owned-find_active_by_hash now user scope project content_hash a.1.rows
                (change_row ch s) w1.apart found1 in
            let (marked, rows2) = mark_reconfirmed-found user s.id now a.1 (change_row ch s) own1 in
            let found2 : find_active_by_hash now user scope project content_hash
                  (mark_reconfirmed user s.id now a.1).1.rows
                ≡ some (reconfirm_row now (change_row ch s)) =
              rw rows2 (
                find_active_by_hash-edited now user scope project content_hash (reconfirm_row now)
                  a.1.rows (change_row ch s) w1.apart found1
                  (reconfirm_row-served now user scope project content_hash (change_row ch s)
                    pass1)) in
            let after : r.1 ≡ (mark_reconfirmed user s.id now a.1).1 = ground (arith, h, q) in
            let memory : r.0.memory ≡ reconfirm_row now (change_row ch s) =
              ground (arith, h, q, marked) in
            record {
              valid = rw after (mark_reconfirmed-IsValid user s.id now a.1 w1);
              found = rw (after, memory) found2;
            }
      ]

  pub values_of-IsAllowed :
      (c : Checked J) (client : Option String) (vector : V) (model : String)
      → (is_todo c.kind && is_none c.expires_at) ≡ false
      → IsAllowed (values_of outside limits c client vector model)
  unfolding values_of
  values_of-IsAllowed c client vector model t = record {
    scoped = scope_of-scoped c.project;
    timed = t;
  }

  insert_new-IsStored :
      (user id now : ℕ) (degraded : Bool) (v : Values V (Metadata J)) (db : Db V (Metadata J))
      (r : RememberResult V (Metadata J) × Db V (Metadata J))
      → has_expired now v.expires_at ≡ false
      → IsValid db.rows
      → IsFresh id db.rows
      → IsAllowed v
      → insert_new outside limits user id now degraded v db ≡ returned r
      → IsStored now user v.scope v.project v.content_hash r.0 r.1
  unfolding insert_new
  insert_new-IsStored user id now degraded v db r alive w f a h =
      elim (Outcome-cases (create_memory id user now v db)) [
        | inl (x, q) ↦ absurd (ground (arith, q))
        | inr (made, q) ↦
            let after : r.1 ≡ made.1 = ground (arith, h, q) in
            let memory : r.0.memory ≡ made.0 = ground (arith, h, q) in
            record {
              valid = rw after (create_memory-IsValid id user now v db w a f made q);
              found = rw (after, memory) (create_memory-found id user now v db made alive q);
            }
      ]

  pub store_new-IsStored :
      (user id now : ℕ) (c : Checked J) (client : Option String) (e : Embedding V)
      (db : Db V (Metadata J)) (r : RememberResult V (Metadata J) × Db V (Metadata J))
      → has_expired now c.expires_at ≡ false
      → IsValid db.rows
      → IsFresh id db.rows
      → store_new outside limits user id now c client e db ≡ returned r
      → IsStored now user (scope_of c.project) c.project (outside.digest c.content) r.0 r.1
  unfolding store_new values_of
  store_new-IsStored user id now c client e db r alive w f h =
      elim (Bool-cases (is_todo c.kind && is_none c.expires_at)) [
        | inl t ↦ absurd (ground (arith, h, t))
        | inr t ↦ elim (Bool-cases e.degraded) [
          | inl d ↦
              let v =
                values_of outside limits c client outside.zeros "embedding service unavailable" in
              insert_new-IsStored user id now true v db r alive w f
                (values_of-IsAllowed c client outside.zeros "embedding service unavailable" t)
                (ground (arith, h, t, d))
          | inr d ↦ elim (Option-cases e.vector) [
            | inl n ↦ absurd (ground (arith, h, t, d, n))
            | inr (x, n) ↦ elim (Bool-cases (outside.has_dimensions x)) [
              | inl s ↦
                  let v = values_of outside limits c client x outside.model in
                  insert_new-IsStored user id now false v db r alive w f
                    (values_of-IsAllowed c client x outside.model t) (ground (arith, h, t, d, n, s))
              | inr s ↦ absurd (ground (arith, h, t, d, n, s))
            ]
          ]
        ]
      ]
