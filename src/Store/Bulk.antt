-- ===== src/Store/Bulk.antt =====
-- The methods of the repository that write several memories: `merge_memories`, `apply_usage` and
-- `reassign_project`.
use Prim.Native.String.{String}
use recallum_mcp.Prelude.{
  ℕ, ◌+◌, max, Bool, true, false, not, ◌&&◌, Option, none, some, List, [], ◌∷◌, map, length, keep,
  mem, ◌==◌, if◌then◌else◌, sort_by, ascending, descending,
}
use recallum_mcp.Model.{Category, Scope}
use recallum_mcp.Store.{
  Row, Db, Outcome, done, failed, bucket_mismatch, Values, given, same_scope, same_text,
  project_text, bump, is_active, update_where,
}
use recallum_mcp.Store.Edit.{replace_rows}
use recallum_mcp.Usage.{Delta}

-- The arguments of `merge_memories`.
pub record Consolidation (V M : Type 0) : Type 0 where
  pub content : List ℕ
  pub content_hash : ℕ
  pub embedding : V
  pub embedding_model : Option String
  pub category : Category
  pub importance : Option ℕ
  pub source_client : Option String
  pub metadata : M

-- `list(dict.fromkeys(ids))`
abbrev pub unique : List ℕ → List ℕ
unique [] = []
unique (i ∷ ids) = i ∷ keep (λ j. not (j == i)) (unique ids)

-- The later of the two instants, as `GREATEST` and `COALESCE` give it.
abbrev pub served_since : Option ℕ → Option ℕ → Option ℕ
served_since old none = old
served_since none (some at) = some at
served_since (some old) (some at) = some (max old at)

abbrev pub delta_of : ℕ → List (ℕ × Delta) → Option Delta
delta_of id [] = none
delta_of id ((i, d) ∷ deltas) = if i == id then some d else delta_of id deltas

module _ {V M : Type 0} where
  abbrev pub chosen : ℕ → List ℕ → Row V M → Bool
  chosen user ids r = r.user_id == user && mem r.id ids && is_active r

  abbrev pub loudest : List (Row V M) → ℕ
  loudest [] = 0
  loudest (r ∷ rows) = max r.importance (loudest rows)

  abbrev pub in_bucket : Row V M → Row V M → Bool
  in_bucket r s =
      same_scope r.scope s.scope && same_text (project_text r.project) (project_text s.project)

  abbrev pub all_in_bucket : Row V M → List (Row V M) → Bool
  all_in_bucket r [] = true
  all_in_bucket r (s ∷ rows) = in_bucket r s && all_in_bucket r rows

  abbrev pub merged_values : Consolidation V M → Row V M → List (Row V M) → Values V M
  merged_values c first rows = record {
    scope = first.scope;
    project = first.project;
    category = c.category;
    kind = none;
    content = c.content;
    content_hash = c.content_hash;
    embedding = c.embedding;
    embedding_model = c.embedding_model;
    importance = given c.importance (loudest rows);
    source_client = c.source_client;
    metadata = c.metadata;
    expires_at = none;
    source_type = "unknown";
    source_ref = none;
    anchors = [];
  }

  -- Every source is active when the two updates run, so that they write the chosen rows.
  unfoldable pub merge_memories :
      ℕ → List ℕ → ℕ → ℕ → Consolidation V M → Db V M → Outcome (Option (Row V M × List ℕ) × Db V M)
  merge_memories user source_ids new_id now c db =
      let ids = unique source_ids in
      let rows = keep (chosen user ids) db.rows in
      if not (length rows == length ids) then done (none, db) else elim rows [
        | [] ↦ failed bucket_mismatch
        | first ∷ others ↦
            if not (all_in_bucket first others)
            then failed bucket_mismatch
            else elim (replace_rows (chosen user ids) new_id user now
                (merged_values c first (first ∷ others)) db) [
                  | failed e ↦ failed e
                  | done (new, db') ↦ done (some (new, map (λ r. r.id) (first ∷ others)), db')
                ]
      ]

  abbrev pub use_row : Option Delta → Row V M → Row V M
  use_row none r = r
  use_row (some d) r = record r {
    memory = record r.memory {
      recall_count = r.recall_count + d.recall_delta;
      context_count = r.context_count + d.context_delta;
      last_recalled_at = served_since r.last_recalled_at d.served_at;
    };
  }

  -- `apply_usage`, whose identifiers differ.
  unfoldable pub apply_usage : ℕ → List (ℕ × Delta) → Db V M → Db V M
  apply_usage user deltas db = record db {
    rows =
        update_where (λ r. r.user_id == user && is_active r) (λ r. use_row (delta_of r.id deltas) r)
          db.rows;
  }

  -- `scope == "project"` and `project == …`, which is not so of a null
  abbrev pub same_project_row : String → Row V M → Bool
  same_project_row project r = elim r.project [
    | none ↦ false
    | some p ↦ same_scope r.scope Scope.project && same_text p project
  ]

  -- The active rows of a user's project.
  abbrev pub in_project : ℕ → String → Row V M → Bool
  in_project user project r = r.user_id == user && is_active r && same_project_row project r

  unfoldable pub target_hashes : ℕ → String → List (Row V M) → List ℕ
  target_hashes user project rows = map (λ r. r.content_hash) (keep (in_project user project) rows)

  unfoldable pub is_moved : ℕ → String → List ℕ → Row V M → Bool
  is_moved user from hashes r = in_project user from r && not (mem r.content_hash hashes)

  abbrev pub move_row : String → Row V M → Row V M
  move_row project r = record r { memory = record r.memory { project = some project } }

  unfoldable pub reassign_project : ℕ → String → String → Db V M → (ℕ × List ℕ) × Db V M
  reassign_project user from to db =
      let hashes = target_hashes user to db.rows in
      let moved = length (keep (is_moved user from hashes) db.rows) in
      let conflicts =
        keep (λ (r : Row V M). in_project user from r && mem r.content_hash hashes) db.rows in
      (
        (
          moved,
          map (λ r. r.id)
              (sort_by (descending (λ r. r.created_at))
                (sort_by (ascending (λ r. r.id)) conflicts)),
        ),
        record {
          rows = update_where (is_moved user from hashes) (move_row to) db.rows;
          generation = if moved == 0 then db.generation else bump user db.generation;
        },
      )
