-- ===== src/Service/Remember.antt =====
-- The transaction of `remember` in memory/service.py (`_remember_in_session`).
use Prim.Native.String.{String}
use text.Mathlib.Text
use recallum_mcp.Prelude.{
  ℕ, Bool, true, false, not, ◌&&◌, Option, none, some, List, ◌==◌, if◌then◌else◌,
}
use recallum_mcp.Model.{
  Scope, Kind, failure, solution, architecture, convention, todo, command, same_category, ok, raise,
  MemoryValidationError, todo_without_ttl,
}
use recallum_mcp.Limits.{MemoryLimits}
use recallum_mcp.Store.{
  Row, Db, done, failed, Values, is_none, is_todo, create_memory, find_active_by_hash,
}
use recallum_mcp.Store.Edit.{Changes, update_attributes, mark_reconfirmed}
use recallum_mcp.Service.{Metadata, Outside, Draft, Checked, same_text_list, check_draft}

-- What `remember` raises: a domain error, the unique index's IntegrityError, EmbeddingError,
-- `_EmbedOutsideSession`, and the RuntimeError behind the loop.
pub data Failure : Type 0 where
  invalid : MemoryValidationError → Failure
  conflict embedding_error embed_outside loop_exited : Failure

pub data Attempt (A : Type 0) : Type 0 where
  returned : A → Attempt A
  raised : Failure → Attempt A

-- The result, without the two advisories (similar memories, the language).
pub record RememberResult (V M : Type 0) : Type 0 where
  pub memory : Row V M
  pub created : Bool
  pub embedding_degraded : Bool

-- The arguments `embedding` and `embedding_degraded`.
pub record Embedding (V : Type 0) : Type 0 where
  pub vector : Option V
  pub degraded : Bool

abbrev pub same_kind : Kind → Kind → Bool
same_kind failure failure = true
same_kind solution solution = true
same_kind architecture architecture = true
same_kind convention convention = true
same_kind todo todo = true
same_kind command command = true
same_kind _ _ = false

-- `"project" if project is not None else "global"`
abbrev pub scope_of : Option String → Scope
scope_of none = Scope.global
scope_of (some p) = Scope.project

-- `new if new is not None and new != old else None`
abbrev pub if_changed : {A : Type 0} → (A → A → Bool) → Option A → A → Option A
if_changed same none old = none
if_changed same (some new) old = if same new old then none else some new

abbrev pub kind_if_changed : Option Kind → Option Kind → Option Kind
kind_if_changed none old = none
kind_if_changed (some new) none = some new
kind_if_changed (some new) (some old) = if same_kind new old then none else some new

-- `==` of two source references.
abbrev pub same_ref : Option (List ℕ) → Option (List ℕ) → Bool
same_ref none none = true
same_ref (some s) (some t) = same_text_list s t
same_ref _ _ = false

abbrev pub or_unknown : Option String → String
or_unknown none = "unknown"
or_unknown (some t) = t

-- The first that is not None of the reconfirmed, the refreshed and the existing row.
abbrev pub current_of {ℓ} : {A : Type ℓ} → Option A → Option A → A → A
current_of (some a) refreshed existing = a
current_of none (some a) existing = a
current_of none none existing = existing

module _ {V J F : Type 0} (outside : Outside V J) (limits : MemoryLimits F) where
  -- What a repeat changes of the row that it repeats.
  unfoldable pub repeat_changes : Checked J → Row V (Metadata J) → Changes (Metadata J)
  repeat_changes c existing = record {
    importance = if c.importance == existing.importance then none else some c.importance;
    category = if same_category c.category existing.category then none else some c.category;
    metadata = if outside.same_metadata c.metadata existing.metadata then none else some c.metadata;
    expires_at = c.expires_at;
    clear_expires_at = false;
    source_type = if_changed Text.◌==◌ c.source_type existing.source_type;
    source_ref = c.source_ref;
    set_source_ref = c.set_source_ref && not (same_ref c.source_ref existing.source_ref);
    kind = kind_if_changed c.kind existing.kind;
  }

  -- A repeat refreshes and reconfirms the row.
  unfoldable pub repeat :
      ℕ
      → ℕ
      → Checked J
      → Row V (Metadata J)
      → Db V (Metadata J)
      → Attempt (RememberResult V (Metadata J) × Db V (Metadata J))
  repeat user now c existing db =
      elim (update_attributes user existing.id (repeat_changes c existing) db) [
        | failed e ↦ raised (invalid todo_without_ttl)
        | done (refreshed, db1) ↦
            let (reconfirmed, db2) = mark_reconfirmed user existing.id now db1 in
            returned (
              record {
                memory = current_of reconfirmed refreshed existing;
                created = false;
                embedding_degraded = false;
              },
              db2,
            )
      ]

  unfoldable pub values_of : Checked J → Option String → V → String → Values V (Metadata J)
  values_of c source_client vector model = record {
    scope = scope_of c.project;
    project = c.project;
    category = c.category;
    kind = c.kind;
    content = c.content;
    content_hash = outside.digest c.content;
    embedding = vector;
    embedding_model = some model;
    importance = c.importance;
    source_client = source_client;
    metadata = c.metadata;
    expires_at = c.expires_at;
    source_type = or_unknown c.source_type;
    source_ref = c.source_ref;
    anchors = c.anchors;
  }

  unfoldable pub insert_new :
      ℕ
      → ℕ
      → ℕ
      → Bool
      → Values V (Metadata J)
      → Db V (Metadata J)
      → Attempt (RememberResult V (Metadata J) × Db V (Metadata J))
  insert_new user id now degraded v db = elim (create_memory id user now v db) [
    | failed e ↦ raised conflict
    | done (r, after) ↦
        returned (record { memory = r; created = true; embedding_degraded = degraded }, after)
  ]

  -- The new memory of a text that is not stored yet.
  unfoldable pub store_new :
      ℕ
      → ℕ
      → ℕ
      → Checked J
      → Option String
      → Embedding V
      → Db V (Metadata J)
      → Attempt (RememberResult V (Metadata J) × Db V (Metadata J))
  store_new user id now c source_client e db =
      if is_todo c.kind && is_none c.expires_at
      then raised (invalid todo_without_ttl)
      else if e.degraded
      then insert_new user id now true
          (values_of c source_client outside.zeros "embedding service unavailable") db
      else elim e.vector [
        | none ↦ raised embed_outside
        | some vector ↦
            if outside.has_dimensions vector
            then insert_new user id now false (values_of c source_client vector outside.model) db
            else raised embedding_error
      ]

  -- `_remember_in_session`: the search reads `seen`, the writes find `db`.
  unfoldable pub remember_in_session :
      ℕ
      → ℕ
      → ℕ
      → Draft J
      → Embedding V
      → Db V (Metadata J)
      → Db V (Metadata J)
      → Attempt (RememberResult V (Metadata J) × Db V (Metadata J))
  remember_in_session user id now draft e seen db = elim (check_draft outside limits now draft) [
    | raise x ↦ raised (invalid x)
    | ok c ↦
        elim (find_active_by_hash now user (scope_of c.project) c.project (outside.digest c.content)
          seen.rows) [
            | some existing ↦ repeat user now c existing db
            | none ↦ store_new user id now c draft.source_client e db
          ]
  ]
