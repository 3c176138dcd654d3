-- ===== src/Model.antt =====
-- The stored data: db/models.py (`Memory`) and the memory errors of
-- memory/__init__.py. An identifier (a UUID) is the number that its 128 bits write, so that
-- `str(id)`, which has a fixed width in lower case, orders as the number does; an instant is the
-- number of microseconds since the first one that `datetime` has. A text that is measured or cut
-- is the list of its code points; one that is only compared is a `String`.
use Prim.Native.String.{String}
use recallum_mcp.Prelude.{ℕ, Bool, true, false, Option, List}

pub data Category : Type 0 where
  preference decision constraint fact : Category

pub data Scope : Type 0 where
  global project : Scope

pub data Kind : Type 0 where
  failure solution architecture convention todo command : Kind

-- `==` of two categories.
abbrev pub same_category : Category → Category → Bool
same_category preference preference = true
same_category decision decision = true
same_category constraint constraint = true
same_category fact fact = true
same_category _ _ = false

-- The columns of a memory that are read outside of its table; Store adds the others (the owner, the
-- hash, the vector and its model, the provenance, the metadata, the anchors), but for the text search
-- document. Check constraints of the table bound `scope`, `category`, `kind`.
pub record Memory : Type 0 where
  pub id : ℕ
  pub scope : Scope
  pub project : Option String
  pub category : Category
  pub kind : Option Kind
  pub content : List ℕ
  pub importance : ℕ
  pub created_at : ℕ
  pub reconfirmed_at : Option ℕ
  pub last_recalled_at : Option ℕ
  pub recall_count : ℕ
  pub context_count : ℕ
  pub reconfirm_count : ℕ
  pub deleted_at : Option ℕ
  pub expires_at : Option ℕ
  pub superseded_by : Option ℕ

-- A memory input that violates a domain rule, by the message that it is refused with.
pub data MemoryValidationError : Type 0 where
  project_required unknown_scope unknown_strategy : MemoryValidationError
  content_empty content_too_long project_too_long source_ref_too_long : MemoryValidationError
  unknown_category unknown_kind unknown_source_type : MemoryValidationError
  importance_out_of_range ttl_not_positive ttl_too_long : MemoryValidationError
  metadata_too_many_keys metadata_key_empty metadata_not_primitive metadata_too_long :
      MemoryValidationError
  unknown_anchor_type anchor_empty anchor_too_long too_many_anchors : MemoryValidationError
  todo_without_ttl expiry_with_content expiry_both : MemoryValidationError
  sources_repeat too_few_sources too_many_sources sources_span_buckets : MemoryValidationError
  content_taken projects_required projects_identical : MemoryValidationError

pub data Result {ℓ} (A : Type ℓ) : Type ℓ where
  ok : A → Result A
  raise : MemoryValidationError → Result A
