-- ===== src/Service/Perform.antt =====
-- The calls of the service that write, as one function, and sequences of writes of one user.
use recallum_mcp.Prelude.{ℕ, ◌≡◌, refl, ◌∙◌, ◌==◌, false}
use recallum_mcp.Limits.{MemoryLimits}
use recallum_mcp.Validate.{Text}
use recallum_mcp.Store.{Db}
use recallum_mcp.Store.Rows.{IsValid}
use recallum_mcp.Store.System.{Step-IsValid, Step}
use recallum_mcp.Store.Isolated.{Step-Untouched}
use recallum_mcp.Store.Others.{Untouched}
use recallum_mcp.Service.{Metadata, Outside, Draft}
use recallum_mcp.Service.Remember.{Attempt, returned, raised, Embedding, remember_in_session}
use recallum_mcp.Service.Revise.{
  UpdateRequest, MergeRequest, update, merge, reassign, reconfirm, forget,
}

-- A call of the service that writes.
pub data Request (V J : Type 0) : Type 0 where
  remembers : Draft J → Embedding V → Request V J
  updates : ℕ → UpdateRequest J → Request V J
  merges : MergeRequest J → Request V J
  reassigns : Text → Text → Request V J
  reconfirms : ℕ → Request V J
  forgets : ℕ → Request V J

-- The table after a transaction: what it raises leaves the table as it was.
abbrev pub table_after : {A M V : Type 0} → Db V M → Attempt (A × Db V M) → Db V M
table_after db (returned (a, after)) = after
table_after db (raised f) = db

module _ {V J F : Type 0} (outside : Outside V J) (limits : MemoryLimits F) where
  -- The table after a call, with the identifier of the row that it may insert and its instant.
  unfoldable pub perform : ℕ → ℕ → ℕ → Request V J → Db V (Metadata J) → Db V (Metadata J)
  perform user new_id now (remembers draft e) db =
      table_after db (remember_in_session outside limits user new_id now draft e db db)
  perform user new_id now (updates id u) db =
      table_after db (update outside limits user id new_id now u db)
  perform user new_id now (merges m) db = table_after db (merge outside limits user new_id now m db)
  perform user new_id now (reassigns from to) db =
      table_after db (reassign outside limits user from to db)
  perform user new_id now (reconfirms id) db = (reconfirm user id now db).1
  perform user new_id now (forgets id) db = (forget user id now db).1

module _ {V M : Type 0} (user : ℕ) where
  -- A sequence of writes of one user.
  pub data Writes (first : Db V M) : Db V M → Type 0 where
    no_write : Writes first first
    write :
        {before after : Db V M} → Writes first before → Step user before after → Writes first after

  pub Writes-IsValid :
      (first : Db V M) {last : Db V M} → Writes first last → IsValid first.rows → IsValid last.rows
  Writes-IsValid first no_write w = w
  Writes-IsValid first (write r s) w = Step-IsValid user s (Writes-IsValid first r w)

  pub Writes-Untouched :
      (other : ℕ) (first : Db V M)
      → (user == other) ≡ false
      → {last : Db V M} → Writes first last
      → Untouched other first last
  Writes-Untouched other first n no_write = record { rows = refl; generation = refl }
  Writes-Untouched other first n (write r s) =
      let before = Writes-Untouched other first n r in
      let after = Step-Untouched user other s n in
      record { rows = after.rows ∙ before.rows; generation = after.generation ∙ before.generation }

-- A valid table stays valid, and other users' rows and generations stay as they are.
pub record IsSafe {V M : Type 0} (user : ℕ) (before after : Db V M) : Type 0 where
  pub valid : IsValid before.rows → IsValid after.rows
  pub isolated : (other : ℕ) → (user == other) ≡ false → Untouched other before after
