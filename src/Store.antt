-- ===== src/Store.antt =====
-- The table of memories: what the writing methods of db/repositories/memory_repo.py do to its rows.
-- A method runs in one transaction at the instant `now` and is a function of the database; where it
-- raises, the transaction is rolled back, so that no database comes with a failure. A vector is of a
-- type `V` and a metadata object of a type `M`; a new row's identifier is an argument.
use Prim.Native.String.{String}
use text.Mathlib.Text
use recallum_mcp.Prelude.{
  ℕ, zero, suc, ◌+◌, max, Bool, true, false, not, ◌&&◌, ◌||◌, Option, none, some, List, [], ◌∷◌,
  map, length, keep, mem, leb, ltb, ◌==◌, if◌then◌else◌,
}
use recallum_mcp.Model.{Category, Scope, Kind, todo, Memory}
use recallum_mcp.Visibility.{same_project}
pub mod Edit
pub mod Bulk
pub mod Rows
pub mod Valid
pub mod Kept
mod Replaced
mod Projects
pub mod Others
mod Moved
pub mod Isolated
pub mod System
mod Examples

pub record Anchor : Type 0 where
  pub anchor_type : String
  pub identifier : List ℕ

-- A row of the table: the columns of `Memory` that are read elsewhere, and the others.
pub record Row (V M : Type 0) : Type 0 where
  pub memory : Memory
  pub open memory use *
  pub user_id : ℕ
  pub content_hash : ℕ
  pub embedding : V
  pub embedding_model : Option String
  pub source_client : Option String
  pub source_type : String
  pub source_ref : Option (List ℕ)
  pub metadata : M
  pub anchors : List Anchor

-- The table, and `memory_generation` of each user.
pub record Db (V M : Type 0) : Type 0 where
  pub rows : List (Row V M)
  pub generation : ℕ → ℕ

pub data RepositoryError : Type 0 where
  integrity todo_requires_ttl bucket_mismatch : RepositoryError

pub data Outcome (A : Type 0) : Type 0 where
  done : A → Outcome A
  failed : RepositoryError → Outcome A

-- `is None` and `is not None`
abbrev pub is_none {ℓ} : {A : Type ℓ} → Option A → Bool
is_none none = true
is_none (some a) = false

-- `new if new is not None else old`
abbrev pub given {ℓ} : {A : Type ℓ} → Option A → A → A
given none old = old
given (some new) old = new

abbrev pub given_kind : Option Kind → Option Kind → Option Kind
given_kind none old = old
given_kind (some new) old = some new

abbrev pub same_scope : Scope → Scope → Bool
same_scope Scope.global Scope.global = true
same_scope Scope.project Scope.project = true
same_scope _ _ = false

abbrev pub is_todo : Option Kind → Bool
is_todo (some todo) = true
is_todo _ = false

-- `expires_at <= now()`, and false where it is null
abbrev pub has_expired : ℕ → Option ℕ → Bool
has_expired now none = false
has_expired now (some t) = leb t now

-- `coalesce(project, "")`
abbrev pub project_text : Option String → String
project_text none = ""
project_text (some p) = p

abbrev pub same_text : String → String → Bool
same_text = Text.◌==◌

abbrev pub bump : ℕ → (ℕ → ℕ) → ℕ → ℕ
bump user generation u = if u == user then generation u + 1 else generation u

module _ {V M : Type 0} where
  abbrev pub is_active : Row V M → Bool
  is_active r = is_none r.deleted_at

  abbrev pub owned : ℕ → ℕ → Row V M → Bool
  owned user id r = r.id == id && r.user_id == user && is_active r

  -- The rows that the partial unique index holds apart from an active row.
  unfoldable pub same_key : Row V M → Row V M → Bool
  same_key r s =
      r.user_id == s.user_id
      && same_scope r.scope s.scope
      && same_text (project_text r.project) (project_text s.project)
      && r.content_hash == s.content_hash

  unfoldable pub clashes : Row V M → List (Row V M) → Bool
  clashes new [] = false
  clashes new (r ∷ rows) = (is_active r && same_key new r) || clashes new rows

  -- `session.add` and the flush
  unfoldable pub insert_row : Row V M → List (Row V M) → Outcome (List (Row V M))
  insert_row new rows = if clashes new rows then failed integrity else done (new ∷ rows)

  -- `update(Memory).where(…).values(…)`
  abbrev pub update_where : (Row V M → Bool) → (Row V M → Row V M) → List (Row V M) → List (Row V M)
  update_where p f = map (λ r. if p r then f r else r)

  abbrev pub retire : ℕ → Row V M → Row V M
  retire now r = record r { memory = record r.memory { deleted_at = some now } }

  abbrev pub link : ℕ → Row V M → Row V M
  link next r = record r { memory = record r.memory { superseded_by = some next } }

-- What an insert is given, besides the owner, the identifier and the instant.
pub record Values (V M : Type 0) : Type 0 where
  pub scope : Scope
  pub project : Option String
  pub category : Category
  pub kind : Option Kind
  pub content : List ℕ
  pub content_hash : ℕ
  pub embedding : V
  pub embedding_model : Option String
  pub importance : ℕ
  pub source_client : Option String
  pub metadata : M
  pub expires_at : Option ℕ
  pub source_type : String
  pub source_ref : Option (List ℕ)
  pub anchors : List Anchor

module _ {V M : Type 0} where
  unfoldable pub new_row : ℕ → ℕ → ℕ → Values V M → Row V M
  new_row id user now v = record {
    memory = record {
      id = id;
      scope = v.scope;
      project = v.project;
      category = v.category;
      kind = v.kind;
      content = v.content;
      importance = v.importance;
      created_at = now;
      reconfirmed_at = none;
      last_recalled_at = none;
      recall_count = 0;
      context_count = 0;
      reconfirm_count = 0;
      deleted_at = none;
      expires_at = v.expires_at;
      superseded_by = none;
    };
    user_id = user;
    content_hash = v.content_hash;
    embedding = v.embedding;
    embedding_model = v.embedding_model;
    source_client = v.source_client;
    source_type = v.source_type;
    source_ref = v.source_ref;
    metadata = v.metadata;
    anchors = v.anchors;
  }

  -- The key that a write is deduplicated by.
  unfoldable pub has_key : ℕ → Scope → Option String → ℕ → Row V M → Bool
  has_key user scope project content_hash r =
      r.user_id == user
      && same_scope r.scope scope
      && same_text (project_text r.project) (project_text project)
      && r.content_hash == content_hash

  -- The expired rows that still stand in the index under the key of an insert.
  unfoldable pub expired_key : ℕ → ℕ → Values V M → Row V M → Bool
  expired_key now user v r =
      has_key user v.scope v.project v.content_hash r && is_active r && has_expired now r.expires_at

  unfoldable pub create_memory : ℕ → ℕ → ℕ → Values V M → Db V M → Outcome (Row V M × Db V M)
  create_memory id user now v db =
      let new = new_row id user now v in
      elim (insert_row new (update_where (expired_key now user v) (retire now) db.rows)) [
        | failed e ↦ failed e
        | done rows ↦ done (new, record { rows = rows; generation = bump user db.generation })
      ]

  unfoldable pub find_active_by_hash :
      ℕ → ℕ → Scope → Option String → ℕ → List (Row V M) → Option (Row V M)
  find_active_by_hash now user scope project content_hash [] = none
  find_active_by_hash now user scope project content_hash (r ∷ rows) =
      if has_key user scope project content_hash r
        && is_active r
        && not (has_expired now r.expires_at)
      then some r
      else find_active_by_hash now user scope project content_hash rows

  -- The row of the statements that lock one memory.
  unfoldable pub find_owned : ℕ → ℕ → List (Row V M) → Option (Row V M)
  find_owned user id [] = none
  find_owned user id (r ∷ rows) = if owned user id r then some r else find_owned user id rows
