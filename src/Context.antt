-- ===== src/Context.antt =====
-- `SessionContextBudget.assemble` of memory/context.py: dedup, group, and budget the memories of a
-- session snapshot. The profile block of the result is the caller's and is not part of it.
use Prim.Native.String.{String}
use recallum_mcp.Prelude.{
  ℕ, zero, suc, ◌+◌, ◌-◌, Bool, true, false, ◌||◌, Option, none, some, List, [], ◌∷◌, ◌++◌, map,
  length, take, keep, mem, leb, ltb, if◌then◌else◌, descending, sort_by,
}
use recallum_mcp.Model.{Category, Scope, Memory, same_category}
use recallum_mcp.Budget.{RecallStrategy, category_order_for_strategy, estimate_tokens, exceeds}
use recallum_mcp.Profile.{ellipsis, or_else}
pub mod Fill
pub mod Groups
pub mod Distinct
pub mod Snapshot
pub mod Order
mod Examples

pub record SessionContextBudget : Type 0 where
  pub max_items : ℕ
  pub max_chars : ℕ
  pub truncate_floor : ℕ
  pub max_tokens : Option ℕ
  pub strategy : Option RecallStrategy

-- schemas.py
pub record ContextItem : Type 0 where
  pub id : ℕ
  pub category : Category
  pub content : List ℕ
  pub scope : Scope
  pub project : Option String
  pub importance : ℕ
  pub created_at : ℕ
  pub reconfirmed_at : Option ℕ
  pub content_truncated : Bool
  pub stale : Bool

pub record ContextGroup : Type 0 where
  pub category : Category
  pub items : List ContextItem

pub record ContextResult : Type 0 where
  pub project : Option String
  pub focus : Option String
  pub groups : List ContextGroup
  pub total_items : ℕ
  pub total_available : ℕ
  pub omitted : ℕ
  pub omitted_by_category : List (Category × ℕ)
  pub truncated : Bool

-- The arguments of `assemble`. A mapping is a list of its entries; `None` is the empty one, which
-- the code treats alike.
pub record Request : Type 0 where
  pub global_memories : List Memory
  pub project_memories : List Memory
  pub focus_memories : List Memory
  pub project : Option String
  pub total_available : ℕ
  pub total_available_by_category : List (Category × ℕ)
  pub focus : Option String
  pub stale_before : Option ℕ
  pub exclude_ids : List ℕ
  pub profile_item_count : ℕ
  pub profile_items_by_category : List (Category × ℕ)

-- The importance pools in one: by importance, then recency, globals first among equals.
unfoldable pub merged : List Memory → List Memory → List Memory
merged global_memories project_memories =
    sort_by (descending (λ m. m.importance))
      (sort_by (descending (λ m. m.created_at)) (global_memories ++ project_memories))

-- The loop over `seen`, which keeps the first occurrence.
unfoldable pub first_seen : List ℕ → List Memory → List Memory
first_seen seen [] = []
first_seen seen (m ∷ ms) = elim (mem m.id seen) [
  | true ↦ first_seen seen ms
  | false ↦ m ∷ first_seen (m.id ∷ seen) ms
]

unfoldable pub ordered : Request → List Memory
ordered r =
    first_seen r.exclude_ids (r.focus_memories ++ merged r.global_memories r.project_memories)

abbrev pub is_stale : Option ℕ → Memory → Bool
is_stale none m = false
is_stale (some cutoff) m = ltb (or_else m.reconfirmed_at m.created_at) cutoff

abbrev pub context_item : Option ℕ → Memory → ContextItem
context_item stale_before m = record {
  id = m.id;
  category = m.category;
  content = m.content;
  scope = m.scope;
  project = m.project;
  importance = m.importance;
  created_at = m.created_at;
  reconfirmed_at = m.reconfirmed_at;
  content_truncated = false;
  stale = is_stale stale_before m;
}

-- `grouped.get(category, [])`
abbrev pub grouped : Option ℕ → List Memory → Category → List ContextItem
grouped stale_before ms category =
    map (context_item stale_before) (keep (λ m. same_category m.category category) ms)

-- `content[: remaining - 1]`, where the index -1 leaves the last character out.
abbrev pub slice_before : List ℕ → ℕ → List ℕ
slice_before content zero = take (length content - 1) content
slice_before content (suc k) = take k content

abbrev pub clip : ContextItem → ℕ → ContextItem
clip item remaining = record item {
  content = slice_before item.content remaining ++ ellipsis ∷ [];
  content_truncated = true;
}

-- The counters of the assembly.
pub record Counters : Type 0 where
  pub total_items : ℕ
  pub used_chars : ℕ
  pub used_tokens : ℕ
  pub exhausted : Bool

module _ (b : SessionContextBudget) where
  -- The loop over the items of one category: what is kept, and the counters after it.
  unfoldable pub fill_items : List ContextItem → Counters → List ContextItem × Counters
  fill_items [] c = ([], c)
  fill_items (item ∷ items) c =
      let cost = estimate_tokens item.content in
      let remaining = b.max_chars - c.used_chars in
      if leb b.max_items c.total_items
      then ([], record c { exhausted = true })
      else if exceeds b.max_tokens (c.used_tokens + cost)
      then ([], record c { exhausted = true })
      else if ltb remaining (length item.content)
      then if leb b.truncate_floor remaining
        then (
          clip item remaining ∷ [],
          record c {
            total_items = c.total_items + 1;
            used_chars = b.max_chars;
            used_tokens = c.used_tokens + cost;
            exhausted = true;
          },
        )
        else ([], record c { exhausted = true })
      else let rest = fill_items items (record c {
        total_items = c.total_items + 1;
        used_chars = c.used_chars + length item.content;
        used_tokens = c.used_tokens + cost;
      }) in
        (item ∷ rest.0, rest.1)

  abbrev pub add_group : Category → List ContextItem → List ContextGroup → List ContextGroup
  add_group category [] groups = groups
  add_group category (item ∷ items) groups =
      record { category = category; items = item ∷ items } ∷ groups

  -- The loop over the categories.
  unfoldable pub fill_groups :
      (Category → List ContextItem) → List Category → Counters → List ContextGroup × Counters
  fill_groups items_of [] c = ([], c)
  fill_groups items_of (category ∷ categories) c = elim c.exhausted [
    | true ↦ ([], c)
    | false ↦
        let kept = fill_items (items_of category) c in
        let rest = fill_groups items_of categories kept.1 in
        (add_group category kept.0 rest.0, rest.1)
  ]

-- `mapping.get(category, 0)`
abbrev pub count_in : Category → List (Category × ℕ) → ℕ
count_in category [] = 0
count_in category ((c, n) ∷ rest) = if same_category c category then n else count_in category rest

abbrev pub served_by_category : List ContextGroup → List (Category × ℕ)
served_by_category = map (λ g. (g.category, length g.items))

-- The categories of which more is available than was served, with the difference.
unfoldable pub gaps :
    List (Category × ℕ) → List (Category × ℕ) → List (Category × ℕ) → List (Category × ℕ)
gaps served profile [] = []
gaps served profile ((category, available) ∷ rest) =
    let shown = count_in category served + count_in category profile in
    if ltb shown available
    then (category, available - shown) ∷ gaps served profile rest
    else gaps served profile rest

abbrev pub start : Counters
start = record { total_items = 0; used_chars = 0; used_tokens = 0; exhausted = false }

unfoldable pub filled : SessionContextBudget → Request → List ContextGroup × Counters
filled b r =
    fill_groups b (grouped r.stale_before (ordered r)) (category_order_for_strategy b.strategy)
      start

unfoldable pub assemble : SessionContextBudget → Request → ContextResult
unfolding filled
assemble b r =
    let (groups, c) = filled b r in
    let combined = c.total_items + r.profile_item_count in
    let omitted = r.total_available - combined in
    record {
      project = r.project;
      focus = r.focus;
      groups = groups;
      total_items = combined;
      total_available = r.total_available;
      omitted = omitted;
      omitted_by_category =
          gaps (served_by_category groups) r.profile_items_by_category
            r.total_available_by_category;
      truncated = c.exhausted || ltb 0 omitted;
    }
