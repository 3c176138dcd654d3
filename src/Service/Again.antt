-- ===== src/Service/Again.antt =====
-- A memory that `remember` stored is found again by its key, and not stored twice.
use Prim.Native.String.{String}
use text.Mathlib.TextEquality.{eq_iff}
use recallum_mcp.Prelude.{
  ℕ, ◌≡◌, refl, ◌∙◌, ap, inl, inr, Bool, true, false, ◌&&◌, Option, some, List, [], ◌∷◌, AllPairs,
  length, Bool-cases, Option-cases, ==_iff, arith,
}
use recallum_mcp.Model.{Scope, ok}
use recallum_mcp.Limits.{MemoryLimits}
use recallum_mcp.Store.{
  Row, Db, project_text, has_expired, is_active, same_key, has_key, find_active_by_hash, find_owned,
  owned, update_where,
}
use recallum_mcp.Store.Edit.{change_row, update_attributes, mark_reconfirmed, reconfirm_row}
use recallum_mcp.Store.Rows.{same_scope_iff, IsValid, IsFresh, Apart, Outcome-cases}
use recallum_mcp.Service.{Metadata, Outside, Draft, Checked, check_draft}
use recallum_mcp.Service.Remember.{
  returned, RememberResult, Embedding, scope_of, repeat_changes, repeat, remember_in_session,
}
use recallum_mcp.Service.Found.{
  served, find_active_by_hash-all, find_owned-find_active_by_hash, find_owned-edited,
}
use recallum_mcp.Service.Checks.{check_draft-alive}
use recallum_mcp.Service.Stored.{
  IsStored, repeat-IsStored, store_new-IsStored, update_attributes-found, mark_reconfirmed-found,
}

module _ {V M : Type 0} (user : ℕ) (scope : Scope) (project : Option String)
    (content_hash : ℕ) where
  same_key-has_key :
      (r s : Row V M)
      → has_key user scope project content_hash r ≡ true
      → has_key user scope project content_hash s ≡ true
      → same_key r s ≡ true
  unfolding same_key has_key
  same_key-has_key r s h k = ground (
    arith,
    h,
    k,
    ==_iff r.user_id user,
    ==_iff s.user_id user,
    ==_iff r.user_id s.user_id,
    same_scope_iff r.scope scope,
    same_scope_iff s.scope scope,
    same_scope_iff r.scope s.scope,
    eq_iff (project_text r.project) (project_text project),
    eq_iff (project_text s.project) (project_text project),
    eq_iff (project_text r.project) (project_text s.project),
    ==_iff r.content_hash content_hash,
    ==_iff s.content_hash content_hash,
    ==_iff r.content_hash s.content_hash,
  )

  -- The row that a search finds is found at every instant until it expires.
  find_active_by_hash-later :
      (now later : ℕ) (rows : List (Row V M)) (r : Row V M)
      → AllPairs Apart rows
      → find_active_by_hash now user scope project content_hash rows ≡ some r
      → has_expired later r.expires_at ≡ false
      → find_active_by_hash later user scope project content_hash rows ≡ some r
  unfolding find_active_by_hash
  find_active_by_hash-later now later [] r a h x = cc
  find_active_by_hash-later now later (s ∷ rows) r (p, a) h x =
      elim (Bool-cases (served now user scope project content_hash s)) [
        | inl e ↦
            let same : r ≡ s = ground (arith, h, e) in
            let alive : has_expired later s.expires_at ≡ false = rw same at x in
            rw same (ground (arith, e, alive))
        | inr e ↦
            let rest : find_active_by_hash now user scope project content_hash rows ≡ some r =
              ground (arith, h, e) in
            let (apart, pass) =
              find_active_by_hash-all now user scope project content_hash (Apart s) rows r p rest in
            let keys : (is_active s && is_active r && same_key s r) ≡ false = apart.keys in
            let differ : (has_key user scope project content_hash s && is_active s) ≡ false =
              elim (Bool-cases (has_key user scope project content_hash s)) [
                | inl k ↦ ground (arith, keys, pass, k, same_key-has_key s r k)
                | inr k ↦ ground (arith, k)
              ] in
            ground (arith, differ, find_active_by_hash-later now later rows r a rest x)
      ]

module _ {V M : Type 0} where
  length-update_where :
      (p : Row V M → Bool) (f : Row V M → Row V M) (rows : List (Row V M))
      → length (update_where p f rows) ≡ length rows
  length-update_where p f [] = refl
  length-update_where p f (r ∷ rows) = ground (arith, length-update_where p f rows)

  -- The memory is an old one, and the table has as many rows as before.
  pub record IsRepeat (id : ℕ) (r : RememberResult V M) (before after : Db V M) : Type 0 where
    pub created : r.created ≡ false
    pub named : r.memory.id ≡ id
    pub size : length after.rows ≡ length before.rows

module _ {V J F : Type 0} (outside : Outside V J) (limits : MemoryLimits F) where
  -- A transaction of `remember` with a new identifier, in which no other task interferes, leaves a
  -- valid table valid when it returns, and the memory that it returns, new or repeated, is what a
  -- search by its key finds.
  pub remember_in_session-IsStored :
      (user id now : ℕ) (draft : Draft J) (c : Checked J) (e : Embedding V) (db : Db V (Metadata J))
      (r : RememberResult V (Metadata J) × Db V (Metadata J))
      → check_draft outside limits now draft ≡ ok c
      → IsValid db.rows
      → IsFresh id db.rows
      → remember_in_session outside limits user id now draft e db db ≡ returned r
      → IsStored now user (scope_of c.project) c.project (outside.digest c.content) r.0 r.1
  unfolding remember_in_session
  remember_in_session-IsStored user id now draft c e db r q w f h =
      let alive = check_draft-alive outside limits now draft c q in
      elim (Option-cases (
        find_active_by_hash now user (scope_of c.project) c.project (outside.digest c.content)
          db.rows)) [
            | inl n ↦
                store_new-IsStored outside limits user id now c draft.source_client e db r alive w f
                  (ground (arith, h, q, n))
            | inr (s, n) ↦
                repeat-IsStored outside limits now user (scope_of c.project) c.project
                  (outside.digest c.content) c s db r alive w n (ground (arith, h, q, n))
          ]

  repeat-IsRepeat :
      (user now : ℕ) (c : Checked J) (s : Row V (Metadata J)) (db : Db V (Metadata J))
      (r : RememberResult V (Metadata J) × Db V (Metadata J))
      → find_owned user s.id db.rows ≡ some s
      → repeat outside limits user now c s db ≡ returned r
      → IsRepeat s.id r.0 db r.1
  unfolding repeat change_row
  repeat-IsRepeat user now c s db r own h =
      let ch = repeat_changes outside limits c s in
      elim (Outcome-cases (update_attributes user s.id (repeat_changes outside limits c s) db)) [
        | inl (x, q) ↦ absurd (ground (arith, q))
        | inr (a, q) ↦
            let (_, rows1) = update_attributes-found user s.id ch db s a own q in
            let own1 : find_owned user s.id a.1.rows ≡ some (change_row ch s) =
              rw rows1 (find_owned-edited user s.id (change_row ch) (λ x o. o) db.rows s own) in
            let (marked, rows2) = mark_reconfirmed-found user s.id now a.1 (change_row ch s) own1 in
            let after : r.1 ≡ (mark_reconfirmed user s.id now a.1).1 = ground (arith, h, q) in
            let memory : r.0.memory ≡ reconfirm_row now (change_row ch s) =
              ground (arith, h, q, marked) in
            record {
              created = ground (arith, h, q);
              named = ap (λ x. x.id) memory;
              size =
                  rw (after, rows2, rows1)
                    (length-update_where (owned user s.id) (reconfirm_row now)
                        (update_where (owned user s.id) (change_row ch) db.rows)
                      ∙ length-update_where (owned user s.id) (change_row ch) db.rows);
            }
      ]

  -- From a valid table, with a new identifier and where no other task interferes: until the memory
  -- that a transaction of `remember` returned expires, a later one of the same user with the same
  -- text and project, whatever else it says, returns the memory with that identifier if it
  -- returns, creates none, and adds no row.
  pub remember_again :
      (user id now : ℕ) (draft : Draft J) (c : Checked J) (e : Embedding V) (db : Db V (Metadata J))
      (r : RememberResult V (Metadata J) × Db V (Metadata J))
      → check_draft outside limits now draft ≡ ok c
      → IsValid db.rows
      → IsFresh id db.rows
      → remember_in_session outside limits user id now draft e db db ≡ returned r
      → (other later : ℕ) (draft' : Draft J) (c' : Checked J) (e' : Embedding V)
        (r' : RememberResult V (Metadata J) × Db V (Metadata J))
      → check_draft outside limits later draft' ≡ ok c'
      → c'.content ≡ c.content
      → c'.project ≡ c.project
      → has_expired later r.0.memory.expires_at ≡ false
      → remember_in_session outside limits user other later draft' e' r.1 r.1 ≡ returned r'
      → IsRepeat r.0.memory.id r'.0 r.1 r'.1
  unfolding remember_in_session
  remember_again user id now draft c e db r q w f h other later draft' c' e' r' q' same_content
        same_project alive h' =
      let stored = remember_in_session-IsStored user id now draft c e db r q w f h in
      let digest = outside.digest c.content in
      let found =
        find_active_by_hash-later user (scope_of c.project) c.project digest now later r.1.rows
          r.0.memory stored.valid.apart stored.found alive in
      let again : find_active_by_hash later user (scope_of c'.project) c'.project
            (outside.digest c'.content) r.1.rows
          ≡ some r.0.memory =
        rw (same_content, same_project) found in
      repeat-IsRepeat user later c' r.0.memory r.1 r'
        (find_owned-find_active_by_hash later user (scope_of c.project) c.project digest r.1.rows
          r.0.memory stored.valid.apart found)
        (ground (arith, h', q', again))
