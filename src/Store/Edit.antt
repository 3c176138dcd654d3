-- ===== src/Store/Edit.antt =====
-- The methods of the repository that write one memory: `update_attributes`, `supersede`,
-- `soft_delete`, `mark_reconfirmed` and `replace_embedding`.
use Prim.Native.String.{String}
use recallum_mcp.Prelude.{
  ℕ, ◌+◌, Bool, true, false, not, ◌&&◌, ◌||◌, Option, none, some, List, if◌then◌else◌,
}
use recallum_mcp.Model.{Category, Kind}
use recallum_mcp.Store.{
  Row, Db, Outcome, done, failed, todo_requires_ttl, Values, is_none, given, given_kind, is_todo,
  bump, owned, update_where, retire, link, new_row, insert_row, find_owned,
}

-- The arguments of `update_attributes`.
pub record Changes (M : Type 0) : Type 0 where
  pub importance : Option ℕ
  pub category : Option Category
  pub metadata : Option M
  pub expires_at : Option ℕ
  pub clear_expires_at : Bool
  pub source_type : Option String
  pub source_ref : Option (List ℕ)
  pub set_source_ref : Bool
  pub kind : Option Kind

-- The arguments of `supersede`.
pub record Correction (V M : Type 0) : Type 0 where
  pub content : List ℕ
  pub content_hash : ℕ
  pub embedding : V
  pub embedding_model : Option String
  pub category : Option Category
  pub kind : Option Kind
  pub importance : Option ℕ
  pub metadata : Option M
  pub source_client : Option String
  pub source_type : Option String
  pub source_ref : Option (List ℕ)
  pub set_source_ref : Bool

abbrev pub changes_any : {M : Type 0} → Changes M → Bool
changes_any c =
    not (is_none c.importance)
    || not (is_none c.category)
    || not (is_none c.metadata)
    || not (is_none c.expires_at)
    || c.clear_expires_at
    || not (is_none c.source_type)
    || c.set_source_ref
    || not (is_none c.kind)

abbrev pub changed_expiry : {M : Type 0} → Changes M → Option ℕ → Option ℕ
changed_expiry c old =
    if c.clear_expires_at then none else elim c.expires_at [ none ↦ old | some t ↦ some t ]

module _ {V M : Type 0} where
  unfoldable pub change_row : Changes M → Row V M → Row V M
  change_row c r = record r {
    memory = record r.memory {
      importance = given c.importance r.importance;
      category = given c.category r.category;
      expires_at = changed_expiry c r.expires_at;
      kind = given_kind c.kind r.kind;
    };
    metadata = given c.metadata r.metadata;
    source_type = given c.source_type r.source_type;
    source_ref = if c.set_source_ref then c.source_ref else r.source_ref;
  }

  -- A durable todo, which is refused.
  abbrev pub is_durable_todo : Row V M → Bool
  is_durable_todo r = is_todo r.kind && is_none r.expires_at

  unfoldable pub update_attributes :
      ℕ → ℕ → Changes M → Db V M → Outcome (Option (Row V M) × Db V M)
  update_attributes user id c db = elim (find_owned user id db.rows) [
    | none ↦ done (none, db)
    | some r ↦
        if is_durable_todo (change_row c r)
        then failed todo_requires_ttl
        else done (
          some (change_row c r),
          record {
            rows = update_where (owned user id) (change_row c) db.rows;
            generation = if changes_any c then bump user db.generation else db.generation;
          },
        )
  ]

  -- The values of a replacement.
  unfoldable pub replacement_values : Correction V M → Row V M → Values V M
  replacement_values c original = record {
    scope = original.scope;
    project = original.project;
    category = given c.category original.category;
    kind = given_kind c.kind original.kind;
    content = c.content;
    content_hash = c.content_hash;
    embedding = c.embedding;
    embedding_model = c.embedding_model;
    importance = given c.importance original.importance;
    source_client = elim c.source_client [ none ↦ original.source_client | some s ↦ some s ];
    metadata = given c.metadata original.metadata;
    expires_at = none;
    source_type = given c.source_type original.source_type;
    source_ref = if c.set_source_ref then c.source_ref else original.source_ref;
    anchors = original.anchors;
  }

  -- The rows are retired, the new one inserted, and then the retired ones linked to it.
  unfoldable pub replace_rows :
      (Row V M → Bool) → ℕ → ℕ → ℕ → Values V M → Db V M → Outcome (Row V M × Db V M)
  replace_rows replaced new_id user now v db =
      let new = new_row new_id user now v in
      elim (insert_row new (update_where replaced (λ r. link new_id (retire now r)) db.rows)) [
        | failed e ↦ failed e
        | done rows ↦ done (new, record { rows = rows; generation = bump user db.generation })
      ]

  unfoldable pub supersede :
      ℕ → ℕ → ℕ → ℕ → Correction V M → Db V M → Outcome (Option (Row V M) × Db V M)
  supersede user id new_id now c db = elim (find_owned user id db.rows) [
    | none ↦ done (none, db)
    | some original ↦
        if is_todo (given_kind c.kind original.kind)
        then failed todo_requires_ttl
        else elim (replace_rows (owned user id) new_id user now (replacement_values c original)
            db) [ failed e ↦ failed e | done (new, db') ↦ done (some new, db') ]
  ]

  unfoldable pub soft_delete : ℕ → ℕ → ℕ → Db V M → Bool × Db V M
  soft_delete user id now db = elim (find_owned user id db.rows) [
    | none ↦ (false, db)
    | some r ↦ (
      true,
      record {
        rows = update_where (owned user id) (retire now) db.rows;
        generation = bump user db.generation;
      },
    )
  ]

  abbrev pub reconfirm_row : ℕ → Row V M → Row V M
  reconfirm_row now r = record r {
    memory = record r.memory { reconfirmed_at = some now; reconfirm_count = r.reconfirm_count + 1 };
  }

  unfoldable pub mark_reconfirmed : ℕ → ℕ → ℕ → Db V M → Option (Row V M) × Db V M
  mark_reconfirmed user id now db = elim (find_owned user id db.rows) [
    | none ↦ (none, db)
    | some r ↦ (
      some (reconfirm_row now r),
      record {
        rows = update_where (owned user id) (reconfirm_row now) db.rows;
        generation = bump user db.generation;
      },
    )
  ]

  unfoldable pub replace_embedding : ℕ → ℕ → V → String → Db V M → Bool × Db V M
  replace_embedding user id embedding model db = elim (find_owned user id db.rows) [
    | none ↦ (false, db)
    | some r ↦ (
      true,
      record db {
        rows =
            update_where (owned user id)
              (λ r. record r { embedding = embedding; embedding_model = some model }) db.rows;
      },
    )
  ]
