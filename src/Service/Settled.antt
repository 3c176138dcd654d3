-- ===== src/Service/Settled.antt =====
-- How the loop of `remember` ends.
use Prim.Native.String.{String}
use recallum_mcp.Prelude.{
  ℕ, zero, suc, ◌≡◌, refl, ◌⊎◌, inl, inr, Bool, true, false, not, ◌&&◌, ◌||◌, Option, List,
  Bool-cases, Option-cases, ◌==◌, arith,
}
use recallum_mcp.Model.{Result, ok, raise, MemoryValidationError}
use recallum_mcp.Limits.{MemoryLimits}
use recallum_mcp.Store.{Row, Db, Values, is_none, is_todo, create_memory, find_active_by_hash}
use recallum_mcp.Store.Edit.{update_attributes}
use recallum_mcp.Store.Rows.{Outcome-cases}
use recallum_mcp.Service.{Metadata, Outside, Draft, Checked, check_draft}
use recallum_mcp.Service.Remember.{
  Failure, invalid, conflict, embedding_error, embed_outside, loop_exited, Attempt, returned,
  raised, RememberResult, Embedding, scope_of, repeat_changes, repeat, values_of, insert_new,
  store_new, remember_in_session,
}
use recallum_mcp.Service.Loop.{
  Turn, embed_for_write, attempt, settle, attempts, first_embedding, remember,
}

pub Result-cases :
    {A : Type 0} (o : Result A)
    → ((e : MemoryValidationError) × (o ≡ raise e)) ⊎ ((a : A) × (o ≡ ok a))
Result-cases (raise e) = inl (e, refl)
Result-cases (ok a) = inr (a, refl)

-- It returned, or raised what a caller of `remember` is to see; or it asks for a vector, where there
-- is none.
abbrev ends : {A : Type 0} → Bool → Attempt A → Bool
ends embedded (returned a) = true
ends embedded (raised (invalid e)) = true
ends embedded (raised conflict) = true
ends embedded (raised embedding_error) = true
ends embedded (raised embed_outside) = not embedded
ends embedded (raised loop_exited) = false

abbrev pub is_settled : {A : Type 0} → Attempt A → Bool
is_settled o = ends true o

abbrev is_embedded : {V : Type 0} → Embedding V → Bool
is_embedded e = e.degraded || not (is_none e.vector)

Attempt-cases :
    {A : Type 0} (o : Attempt A) → ((a : A) × (o ≡ returned a)) ⊎ ((f : Failure) × (o ≡ raised f))
Attempt-cases (returned a) = inl (a, refl)
Attempt-cases (raised f) = inr (f, refl)

module _ {V J F : Type 0} (outside : Outside V J) (limits : MemoryLimits F) where
  insert_new-ends :
      (embedded : Bool) (user id now : ℕ) (degraded : Bool) (v : Values V (Metadata J))
      (db : Db V (Metadata J))
      → ends embedded (insert_new outside limits user id now degraded v db) ≡ true
  unfolding insert_new
  insert_new-ends embedded user id now degraded v db =
      elim (Outcome-cases (create_memory id user now v db)) [
        | inl (x, q) ↦ ground (arith, q)
        | inr (r, q) ↦ ground (arith, q)
      ]

  repeat-ends :
      (embedded : Bool) (user now : ℕ) (c : Checked J) (r : Row V (Metadata J))
      (db : Db V (Metadata J))
      → ends embedded (repeat outside limits user now c r db) ≡ true
  unfolding repeat
  repeat-ends embedded user now c r db =
      elim (Outcome-cases (update_attributes user r.id (repeat_changes outside limits c r) db)) [
        | inl (x, q) ↦ ground (arith, q)
        | inr (a, q) ↦ ground (arith, q)
      ]

  store_new-ends :
      (user id now : ℕ) (c : Checked J) (client : Option String) (e : Embedding V)
      (db : Db V (Metadata J))
      → ends (is_embedded e) (store_new outside limits user id now c client e db) ≡ true
  unfolding store_new
  store_new-ends user id now c client e db =
      let new = insert_new-ends (is_embedded e) user id now in
      elim (Bool-cases (is_todo c.kind && is_none c.expires_at)) [
        | inl t ↦ ground (arith, t)
        | inr t ↦ elim (Bool-cases e.degraded) [
          | inl d ↦ ground (
            arith,
            t,
            d,
            new true
                (values_of outside limits c client outside.zeros "embedding service unavailable")
                db,
          )
          | inr d ↦ elim (Option-cases e.vector) [
            | inl n ↦ ground (arith, t, d, n)
            | inr (v, n) ↦
                ground
                  (arith, t, d, n, new false (values_of outside limits c client v outside.model) db)
          ]
        ]
      ]

  remember_in_session-ends :
      (user id now : ℕ) (draft : Draft J) (e : Embedding V) (seen db : Db V (Metadata J))
      → ends (is_embedded e) (remember_in_session outside limits user id now draft e seen db) ≡ true
  unfolding remember_in_session
  remember_in_session-ends user id now draft e seen db =
      elim (Result-cases (check_draft outside limits now draft)) [
        | inl (x, q) ↦ ground (arith, q)
        | inr (c, q) ↦
            let found =
              find_active_by_hash now user (scope_of c.project) c.project (outside.digest c.content)
                seen.rows in
            elim (Option-cases (
              find_active_by_hash now user (scope_of c.project) c.project (outside.digest c.content)
                seen.rows)) [
                  | inl n ↦
                      ground (arith, q, n, store_new-ends user id now c draft.source_client e db)
                  | inr (r, n) ↦ ground (arith, q, n, repeat-ends (is_embedded e) user now c r db)
                ]
      ]

  attempt-ends :
      (user : ℕ) (draft : Draft J) (e : Embedding V) (turn : Turn V (Metadata J))
      (db : Db V (Metadata J))
      → ends (is_embedded e) (attempt outside limits user draft e turn db).0 ≡ true
  unfolding attempt
  attempt-ends user draft e turn db =
      let seen = turn.before db in
      let session =
        remember_in_session-ends user turn.id turn.now draft e seen (turn.during seen) in
      elim (Attempt-cases (
        remember_in_session outside limits user turn.id turn.now draft e seen (turn.during seen))) [
          | inl (r, q) ↦ ground (arith, q)
          | inr (f, q) ↦ ground (arith, q, session)
        ]

  embed_for_write-embedded :
      (normalized : List ℕ) → is_embedded (embed_for_write outside limits normalized) ≡ true
  unfolding embed_for_write
  embed_for_write-embedded normalized = elim (Option-cases (outside.embed normalized)) [
    | inl n ↦ ground (arith, n)
    | inr (v, n) ↦ ground (arith, n)
  ]

  settle-settled :
      (is_last : Bool) (normalized : List ℕ) (e : Embedding V)
      (again once : Embedding V
        → Db V (Metadata J)
        → Attempt (RememberResult V (Metadata J)) × Db V (Metadata J))
      → (is_last ≡ false
          → (e' : Embedding V) (db' : Db V (Metadata J)) → is_settled (again e' db').0 ≡ true)
      → ((e' : Embedding V) (db' : Db V (Metadata J))
          → is_embedded e' ≡ true
          → is_settled (once e' db').0 ≡ true)
      → (outcome : Attempt (RememberResult V (Metadata J))) (db : Db V (Metadata J))
      → ends (is_embedded e) outcome ≡ true
      → is_settled (settle outside limits is_last normalized e again once outcome db).0 ≡ true
  unfolding settle
  settle-settled is_last normalized e again once f g (returned r) db h = refl
  settle-settled is_last normalized e again once f g (raised (invalid x)) db h = refl
  settle-settled is_last normalized e again once f g (raised embedding_error) db h = refl
  settle-settled true normalized e again once f g (raised conflict) db h = refl
  settle-settled false normalized e again once f g (raised conflict) db h = f refl e db
  settle-settled true normalized e again once f g (raised embed_outside) db h =
      g (embed_for_write outside limits normalized) db (embed_for_write-embedded normalized)
  settle-settled false normalized e again once f g (raised embed_outside) db h =
      f refl (embed_for_write outside limits normalized) db
  settle-settled is_last normalized e again once f g (raised loop_exited) db h =
      absurd (ground (arith, h))

  attempts-settled :
      (left number user : ℕ) (draft : Draft J) (normalized : List ℕ) (e : Embedding V)
      (turns : ℕ → Turn V (Metadata J)) (db : Db V (Metadata J))
      → is_settled (attempts outside limits (suc left) number user draft normalized e turns db).0
        ≡ true
  unfolding attempts
  attempts-settled zero number user draft normalized e turns db =
      settle-settled (zero == 0) normalized e _ _ (λ h. absurd (ground (arith, h)))
        (λ e' db' h. rw h at (attempt-ends user draft e' (turns (suc number)) db')) _ _
        (attempt-ends user draft e (turns number) db)
  attempts-settled (suc left) number user draft normalized e turns db =
      settle-settled (suc left == 0) normalized e _ _
        (λ h e' db'. attempts-settled left (suc number) user draft normalized e' turns db')
        (λ e' db' h. rw h at (attempt-ends user draft e' (turns (suc number)) db')) _ _
        (attempt-ends user draft e (turns number) db)

  -- Whatever other tasks do meanwhile and whatever the client embeds, `remember` returns or raises a
  -- domain error, the unique index's error or an embedding error: the loop never runs out of
  -- attempts, and `_EmbedOutsideSession` never leaves it.
  pub remember-settled :
      (user : ℕ) (draft : Draft J) (e : Embedding V) (turns : ℕ → Turn V (Metadata J))
      (db : Db V (Metadata J))
      → is_settled (remember outside limits user draft e turns db).0 ≡ true
  unfolding remember
  remember-settled user draft e turns db =
      let now = (turns 0).now in
      elim (Result-cases (check_draft outside limits now draft)) [
        | inl (x, q) ↦ ground (arith, q)
        | inr (c, q) ↦ ground (
          arith,
          q,
          attempts-settled 2 1 user draft c.content (first_embedding outside limits user now c e db)
              turns db,
        )
      ]
