-- ===== src/Service/Alone.antt =====
-- A transaction of `remember` that no other task interferes with meets no other row in the index.
use Prim.Native.String.{String}
use text.Mathlib.TextEquality.{eq_iff}
use recallum_mcp.Prelude.{
  ℕ, ◌≡◌, refl, ap, inl, inr, Bool, true, false, ◌&&◌, ◌||◌, Option, none, some, List, [], ◌∷◌, map,
  if◌then◌else◌, Bool-cases, ◌==◌, ==_iff, arith,
}
use recallum_mcp.Model.{Scope, ok}
use recallum_mcp.Limits.{MemoryLimits}
use recallum_mcp.Store.{
  Row, Db, done, Values, is_none, is_todo, bump, same_scope, same_text, project_text, has_expired,
  is_active, update_where, retire, same_key, has_key, expired_key, clashes, new_row, insert_row,
  create_memory, find_active_by_hash,
}
use recallum_mcp.Service.{Metadata, Outside, Draft, Checked, check_draft}
use recallum_mcp.Service.Remember.{
  Attempt, returned, RememberResult, scope_of, values_of, insert_new, store_new,
  remember_in_session,
}

==_sym : (a b : ℕ) → (a == b) ≡ (b == a)
==_sym a b = ground (arith, ==_iff a b, ==_iff b a)

same_text_sym : (s t : String) → same_text s t ≡ same_text t s
same_text_sym s t = ground (arith, eq_iff s t, eq_iff t s)

same_scope_sym : (s t : Scope) → same_scope s t ≡ same_scope t s
same_scope_sym Scope.global Scope.global = refl
same_scope_sym Scope.global Scope.project = refl
same_scope_sym Scope.project Scope.global = refl
same_scope_sym Scope.project Scope.project = refl

module _ {V M : Type 0} (id user now : ℕ) (v : Values V M) where
  same_key-new_row :
      (r : Row V M)
      → same_key (new_row id user now v) r ≡ has_key user v.scope v.project v.content_hash r
  unfolding same_key new_row has_key
  same_key-new_row r = cc (
    ==_sym user r.user_id,
    same_scope_sym v.scope r.scope,
    same_text_sym (project_text v.project) (project_text r.project),
    ==_sym v.content_hash r.content_hash,
  )

  -- Where the search finds nothing, the retired table leaves room for the new row.
  clashes-find_active_by_hash :
      (rows : List (Row V M))
      → find_active_by_hash now user v.scope v.project v.content_hash rows ≡ none
      → clashes (new_row id user now v) (update_where (expired_key now user v) (retire now) rows)
        ≡ false
  unfolding clashes find_active_by_hash expired_key
  clashes-find_active_by_hash [] h = refl
  clashes-find_active_by_hash (r ∷ rows) h =
      let key = same_key-new_row r in
      elim (Bool-cases (has_key user v.scope v.project v.content_hash r)) [
        | inr k ↦ ground (arith, key, k, clashes-find_active_by_hash rows (ground (arith, h, k)))
        | inl k ↦ elim (Bool-cases (is_active r)) [
          | inr a ↦ ground (arith, k, a, clashes-find_active_by_hash rows (ground (arith, h, a)))
          | inl a ↦ elim (Bool-cases (has_expired now r.expires_at)) [
            | inl x ↦
                ground (arith, k, a, x, clashes-find_active_by_hash rows (ground (arith, h, x)))
            | inr x ↦ absurd (ground (arith, h, k, a, x))
          ]
        ]
      ]

  -- So the insert succeeds.
  create_memory-find_active_by_hash :
      (db : Db V M)
      → find_active_by_hash now user v.scope v.project v.content_hash db.rows ≡ none
      → (r : Row V M × Db V M) × (create_memory id user now v db ≡ done r)
        × (r.0 ≡ new_row id user now v)
        × (r.1.rows
            ≡ new_row id user now v ∷ update_where (expired_key now user v) (retire now) db.rows)
  unfolding create_memory insert_row
  create_memory-find_active_by_hash db h =
      let free = clashes-find_active_by_hash db.rows h in
      let new = new_row id user now v in
      (
        (
          new,
          record {
            rows = new ∷ update_where (expired_key now user v) (retire now) db.rows;
            generation = bump user db.generation;
          },
        ),
        ground (arith, free),
        refl,
        refl,
      )

-- The transaction returns a new memory with the identifier and what was checked, and leaves it in front
-- of the rows of the table, of which those of its key that are active and have expired are deleted.
pub record Creates {V J : Type 0} (id user now content_hash : ℕ) (c : Checked J)
    (embedding_degraded : Bool) (db : Db V (Metadata J))
    (outcome : Attempt (RememberResult V (Metadata J) × Db V (Metadata J))) : Type 0 where
  pub result : RememberResult V (Metadata J)
  pub after : Db V (Metadata J)
  pub returns : outcome ≡ returned (result, after)
  pub created : result.created ≡ true
  pub named : result.memory.id ≡ id
  pub owned : result.memory.user_id ≡ user
  pub content : result.memory.content ≡ c.content
  pub hashed : result.memory.content_hash ≡ content_hash
  pub project : result.memory.project ≡ c.project
  pub category : result.memory.category ≡ c.category
  pub kind : result.memory.kind ≡ c.kind
  pub importance : result.memory.importance ≡ c.importance
  pub expires_at : result.memory.expires_at ≡ c.expires_at
  pub active : is_active result.memory ≡ true
  pub degraded : result.embedding_degraded ≡ embedding_degraded
  pub stored :
      after.rows
      ≡ result.memory
        ∷ map
            (λ r.
              if has_key user (scope_of c.project) c.project content_hash r
                && is_active r
                && has_expired now r.expires_at
              then retire now r
              else r)
            db.rows

Creates-along :
    {V J : Type 0} {id user now hash : ℕ} {c : Checked J} {degraded : Bool} {db : Db V (Metadata J)}
    (o p : Attempt (RememberResult V (Metadata J) × Db V (Metadata J)))
    → o ≡ p
    → Creates id user now hash c degraded db p
    → Creates id user now hash c degraded db o
Creates-along o p e c = rw e c

module _ {V J F : Type 0} (outside : Outside V J) (limits : MemoryLimits F) where
  insert_new-alone :
      (user id now : ℕ) (degraded : Bool) (c : Checked J) (source_client : Option String)
      (vector : V) (model : String) (db : Db V (Metadata J))
      → find_active_by_hash now user
          (scope_of c.project)
          c.project
          (outside.digest c.content)
          db.rows
        ≡ none
      → Creates id user now (outside.digest c.content) c degraded db (
          insert_new outside limits user id now degraded
            (values_of outside limits c source_client vector model)
            db)
  unfolding insert_new new_row values_of expired_key
  insert_new-alone user id now degraded c source_client vector model db h =
      let v = values_of outside limits c source_client vector model in
      let (made, q, new, rows) = create_memory-find_active_by_hash id user now v db h in
      record {
        result = record { memory = made.0; created = true; embedding_degraded = degraded };
        after = made.1;
        returns = ground (arith, q);
        created = refl;
        named = ap (λ x. x.id) new;
        owned = ap (λ x. x.user_id) new;
        content = ap (λ x. x.content) new;
        hashed = ap (λ x. x.content_hash) new;
        project = ap (λ x. x.project) new;
        category = ap (λ x. x.category) new;
        kind = ap (λ x. x.kind) new;
        importance = ap (λ x. x.importance) new;
        expires_at = ap (λ x. x.expires_at) new;
        active = ap (λ x. is_active x) new;
        stored = rw new rows;
        degraded = refl;
      }

  -- A draft that would be a todo without an end.
  abbrev pub is_endless_todo : Checked J → Bool
  is_endless_todo c = is_todo c.kind && is_none c.expires_at

  -- With a vector of the right size or a degraded embedding, and where no other task interferes, a
  -- draft that passes the checks and is no todo without a time to live is stored as a new, active
  -- memory with the checked content, if no active, unexpired memory has its key: the table afterwards
  -- is this memory and the rows of before, of which the expired, active ones of the key are deleted.
  pub remember_in_session_alone :
      (user id now : ℕ) (draft : Draft J) (c : Checked J) (vector : V) (degraded : Bool)
      (db : Db V (Metadata J))
      → check_draft outside limits now draft ≡ ok c
      → is_endless_todo c ≡ false
      → (degraded || outside.has_dimensions vector) ≡ true
      → find_active_by_hash now user
          (scope_of c.project)
          c.project
          (outside.digest c.content)
          db.rows
        ≡ none
      → Creates id user now (outside.digest c.content) c degraded db (
          remember_in_session outside limits user id now draft
            (record { vector = some vector; degraded = degraded })
            db
            db)
  unfolding remember_in_session store_new values_of
  remember_in_session_alone user id now draft c vector true db h t e n =
      Creates-along _ _ (ground (arith, h, t, n)) (
        insert_new-alone user id now true c draft.source_client outside.zeros
          "embedding service unavailable" db n)
  remember_in_session_alone user id now draft c vector false db h t e n =
      Creates-along _ _ (ground (arith, h, t, n, e))
        (insert_new-alone user id now false c draft.source_client vector outside.model db n)
