-- ===== src/Service/Revise.antt =====
-- The other writes of memory/service.py: `update`, `merge`, `reassign_project`, `reconfirm` and
-- `forget`, each in one transaction that no other task enters.
use Prim.Native.String.{String}
use recallum_mcp.Prelude.{
  ℕ, Bool, not, ◌&&◌, ◌||◌, Option, none, some, List, length, ltb, ◌==◌, if◌then◌else◌,
}
use recallum_mcp.Model.{
  Category, Result, ok, raise, MemoryValidationError, todo_without_ttl, expiry_with_content,
  expiry_both, sources_repeat, too_few_sources, too_many_sources, sources_span_buckets,
  content_taken, projects_required, projects_identical,
}
use recallum_mcp.Limits.{MemoryLimits}
use recallum_mcp.Validate.{
  ℤ, Text, normalize_content, normalize_project, validate_category, validate_kind,
  validate_importance, validate_ttl, validate_source_type, validate_source_ref,
}
use recallum_mcp.Store.{
  Row, Db, RepositoryError, Outcome, done, failed, integrity, todo_requires_ttl, bucket_mismatch,
  is_none,
}
use recallum_mcp.Store.Edit.{
  Changes, Correction, update_attributes, supersede, soft_delete, mark_reconfirmed,
}
use recallum_mcp.Store.Bulk.{Consolidation, unique, merge_memories, reassign_project}
use recallum_mcp.Service.{Metadata, Outside, ◌>>=◌, if_given, same_text_list, validate_metadata}
use recallum_mcp.Service.Remember.{Attempt, returned, raised, invalid, embedding_error}

-- The arguments of `update`.
pub record UpdateRequest (J : Type 0) : Type 0 where
  pub content : Option Text
  pub category : Option String
  pub kind : Option String
  pub importance : Option ℤ
  pub metadata : Option (Metadata J)
  pub source_client : Option String
  pub ttl_seconds : Option ℤ
  pub clear_expiry : Bool
  pub source_type : Option String
  pub source_ref : Option Text

-- The arguments of `merge`.
pub record MergeRequest (J : Type 0) : Type 0 where
  pub source_ids : List ℕ
  pub content : Text
  pub category : String
  pub importance : Option ℤ
  pub metadata : Option (Metadata J)
  pub source_client : Option String

-- The domain error that an error of the repository is turned into.
abbrev pub refusal_of : RepositoryError → MemoryValidationError
refusal_of integrity = content_taken
refusal_of todo_requires_ttl = todo_without_ttl
refusal_of bucket_mismatch = sources_span_buckets

abbrev pub reply_of : {A : Type 0} → Outcome A → Attempt A
reply_of (done a) = returned a
reply_of (failed e) = raised (invalid (refusal_of e))

module _ {V J F : Type 0} (outside : Outside V J) (limits : MemoryLimits F) where
  -- The checks of `update`, before it looks at the content.
  unfoldable pub check_update : ℕ → UpdateRequest J → Result (Changes (Metadata J))
  check_update now u =
      if not (is_none u.content) && (not (is_none u.ttl_seconds) || u.clear_expiry)
      then raise expiry_with_content
      else if not (is_none u.ttl_seconds) && u.clear_expiry
      then raise expiry_both
      else do
        category ← if_given validate_category u.category
        kind ← if_given validate_kind u.kind
        importance ← if_given validate_importance u.importance
        metadata ← if_given (λ m. validate_metadata outside limits (some m)) u.metadata
        expires_at ← validate_ttl limits.ttl_max_seconds now u.ttl_seconds
        source_type ← validate_source_type u.source_type
        source_ref ← validate_source_ref outside.nfc outside.is_space u.source_ref
        ok (record {
          importance = importance;
          category = category;
          metadata = metadata;
          expires_at = expires_at;
          clear_expires_at = u.clear_expiry;
          source_type = source_type;
          source_ref = source_ref;
          set_source_ref = not (is_none u.source_ref);
          kind = kind;
        })

  abbrev pub correction_of :
      Text → V → Option String → Changes (Metadata J) → Correction V (Metadata J)
  correction_of content embedding source_client c = record {
    content = content;
    content_hash = outside.digest content;
    embedding = embedding;
    embedding_model = some outside.model;
    category = c.category;
    kind = c.kind;
    importance = c.importance;
    metadata = c.metadata;
    source_client = source_client;
    source_type = c.source_type;
    source_ref = c.source_ref;
    set_source_ref = c.set_source_ref;
  }

  -- A correction of the content replaces the memory by one with a new identifier.
  unfoldable pub correct :
      ℕ
      → ℕ
      → ℕ
      → ℕ
      → Text
      → Option String
      → Changes (Metadata J)
      → Db V (Metadata J)
      → Attempt (Option (Row V (Metadata J)) × Db V (Metadata J))
  correct user id new_id now content source_client c db =
      elim (normalize_content outside.nfc outside.is_space limits.max_content_chars content) [
        | raise e ↦ raised (invalid e)
        | ok normalized ↦ elim (outside.embed normalized) [
          | none ↦ raised embedding_error
          | some embedding ↦
              reply_of (
                supersede user id new_id now (correction_of normalized embedding source_client c)
                  db)
        ]
      ]

  unfoldable pub update :
      ℕ
      → ℕ
      → ℕ
      → ℕ
      → UpdateRequest J
      → Db V (Metadata J)
      → Attempt (Option (Row V (Metadata J)) × Db V (Metadata J))
  update user id new_id now u db = elim (check_update now u) [
    | raise e ↦ raised (invalid e)
    | ok c ↦ elim u.content [
      | none ↦ reply_of (update_attributes user id c db)
      | some content ↦ correct user id new_id now content u.source_client c db
    ]
  ]

  abbrev pub consolidation_of :
      MergeRequest J → Text → Category → Option ℕ → Metadata J → V → Consolidation V (Metadata J)
  consolidation_of m content category importance metadata embedding = record {
    content = content;
    content_hash = outside.digest content;
    embedding = embedding;
    embedding_model = some outside.model;
    category = category;
    importance = importance;
    source_client = m.source_client;
    metadata = metadata;
  }

  -- The checks of `merge`: the text to embed, and the consolidation but for its vector.
  unfoldable pub check_merge : MergeRequest J → Result (Text × (V → Consolidation V (Metadata J)))
  check_merge m =
      if not (length (unique m.source_ids) == length m.source_ids)
      then raise sources_repeat
      else if ltb (length (unique m.source_ids)) 2
      then raise too_few_sources
      else if ltb limits.merge_max_sources (length (unique m.source_ids))
      then raise too_many_sources
      else do
        content ← normalize_content outside.nfc outside.is_space limits.max_content_chars m.content
        category ← validate_category m.category
        importance ← if_given validate_importance m.importance
        metadata ← validate_metadata outside limits m.metadata
        ok (content, consolidation_of m content category importance metadata)

  unfoldable pub merge :
      ℕ
      → ℕ
      → ℕ
      → MergeRequest J
      → Db V (Metadata J)
      → Attempt (Option (Row V (Metadata J) × List ℕ) × Db V (Metadata J))
  merge user new_id now m db = elim (check_merge m) [
    | raise e ↦ raised (invalid e)
    | ok (content, consolidation) ↦ elim (outside.embed content) [
      | none ↦ raised embedding_error
      | some embedding ↦
          reply_of
            (merge_memories user (unique m.source_ids) new_id now (consolidation embedding) db)
    ]
  ]

  -- `reassign_project` of the service.
  unfoldable pub reassign :
      ℕ → Text → Text → Db V (Metadata J) → Attempt ((ℕ × List ℕ) × Db V (Metadata J))
  reassign user from_project to_project db =
      elim (normalize_project outside.nfc outside.is_space limits.max_project_chars
        (some from_project)) [
          | raise e ↦ raised (invalid e)
          | ok from ↦
              elim (normalize_project outside.nfc outside.is_space limits.max_project_chars
                (some to_project)) [
                  | raise e ↦ raised (invalid e)
                  | ok to ↦ elim from [
                    | none ↦ raised (invalid projects_required)
                    | some f ↦ elim to [
                      | none ↦ raised (invalid projects_required)
                      | some t ↦
                          if same_text_list f t
                          then raised (invalid projects_identical)
                          else returned
                              (reassign_project user (outside.spell f) (outside.spell t) db)
                    ]
                  ]
                ]
        ]

-- `reconfirm` and `forget`, whose results are whether they found the memory.
module _ {V M : Type 0} where
  abbrev pub reconfirm : ℕ → ℕ → ℕ → Db V M → Option (Row V M) × Db V M
  reconfirm user id now db = mark_reconfirmed user id now db

  abbrev pub forget : ℕ → ℕ → ℕ → Db V M → Bool × Db V M
  forget user id now db = soft_delete user id now db
