-- ===== src/Profile.antt =====
-- The rule-based profile slices of memory/profile_select.py.
use Prim.Native.String.{String}
use recallum_mcp.Prelude.{
  ℕ, ◌+◌, ◌-◌, ◌*◌, Bool, true, false, not, ◌&&◌, ◌||◌, Option, none, some, List, [], ◌∷◌, ◌++◌,
  map, length, take, keep, mem, leb, ltb, if◌then◌else◌, ascending, descending, sort_by,
}
use recallum_mcp.Model.{Category, preference, constraint, Scope, Memory}
use recallum_mcp.Limits.{MemoryLimits}
pub mod Served
pub mod Slices
pub mod Reserve
mod Examples

-- schemas.py
pub record ProfileItem : Type 0 where
  pub id : ℕ
  pub category : Category
  pub content : List ℕ
  pub scope : Scope
  pub project : Option String
  pub importance : ℕ
  pub content_truncated : Bool

abbrev pub ellipsis : ℕ
ellipsis = 0x2026

-- `_clip_content`; a `remaining` below 0 is 0 here, and is treated alike.
unfoldable pub clip_content : List ℕ → ℕ → Option (List ℕ × Bool)
clip_content content remaining =
    if leb remaining 0
    then none
    else if leb (length content) remaining
    then some (content, false)
    else if ltb remaining 2
    then none
    else some (take (remaining - 1) content ++ ellipsis ∷ [], true)

-- `a or b` of an optional instant and an instant.
abbrev pub or_else : Option ℕ → ℕ → ℕ
or_else none d = d
or_else (some t) d = t

abbrev pub confirmed_at : Memory → ℕ
confirmed_at m = or_else m.reconfirmed_at m.created_at

abbrev pub is_static_eligible : Memory → ℕ → Bool
is_static_eligible m min_importance = elim m.category [
  | preference ↦ true
  | constraint ↦ true
  | _ ↦ false
]

abbrev pub recalled_since : Option ℕ → ℕ → Bool
recalled_since none since = false
recalled_since (some t) since = leb since t

abbrev pub is_dynamic_eligible : Memory → ℕ → Bool
is_dynamic_eligible m since = recalled_since m.last_recalled_at since

abbrev pub item_of : Memory → List ℕ → Bool → ProfileItem
item_of m content truncated = record {
  id = m.id;
  category = m.category;
  content = content;
  scope = m.scope;
  project = m.project;
  importance = m.importance;
  content_truncated = truncated;
}

-- The loop of `_budget_items`, with `len(kept)` and `used`.
budget_from : ℕ → ℕ → ℕ → ℕ → List Memory → List ProfileItem
budget_from max_items max_chars n used [] = []
budget_from max_items max_chars n used (m ∷ ms) =
    if leb max_items n
    then []
    else if leb (max_chars - used) 0
    then []
    else elim (clip_content m.content (max_chars - used)) [
      | none ↦ []
      | some (content, truncated) ↦
          item_of m content truncated
          ∷ budget_from max_items max_chars (n + 1) (used + length content) ms
    ]

unfoldable pub budget_items : List Memory → ℕ → ℕ → List ProfileItem
unfolding budget_from
budget_items ms max_items max_chars = budget_from max_items max_chars 0 0 ms

-- `timedelta(days=…)`, in microseconds
abbrev pub days : ℕ → ℕ
days n = n * 86_400_000_000

-- The filter and the three sorts of `select_profile_slices`.
unfoldable pub static_candidates : List Memory → ℕ → List Memory
static_candidates ms min_importance = sort_by (descending (λ m. m.importance)) (
    sort_by (descending confirmed_at)
      (sort_by (ascending (λ m. m.id)) (keep (λ m. is_static_eligible m min_importance) ms)))

-- What `profile_content_hash` serialises.
pub record Payload : Type 0 where
  pub static : List ProfileItem
  pub dynamic : List ProfileItem

pub record SelectedProfile (D : Type 0) : Type 0 where
  pub static : List ProfileItem
  pub dynamic : List ProfileItem
  pub source_memory_ids : List ℕ
  pub content_hash : D

-- `sha256` stands for the digest of the canonical JSON text.
abbrev pub profile_content_hash :
    {D : Type 0} → (Payload → D) → List ProfileItem → List ProfileItem → D
profile_content_hash sha256 static dynamic = sha256 (record { static = static; dynamic = dynamic })

-- `far_past` stands for `datetime.replace(year=1970)`.
module _ (far_past : ℕ → ℕ) where
  abbrev pub recalled_key : Memory → ℕ
  recalled_key m = or_else m.last_recalled_at (far_past m.created_at)

  unfoldable pub dynamic_candidates : List Memory → ℕ → List ℕ → List Memory
  dynamic_candidates ms since exclude_ids = sort_by (descending recalled_key) (
      sort_by (descending (λ m. m.created_at)) (
        sort_by (ascending (λ m. m.id))
          (keep (λ m. not (mem m.id exclude_ids) && is_dynamic_eligible m since) ms)))

  -- The clock is past the first `profile_dynamic_window_days` days of the calendar.
  unfoldable pub select_dynamic_slice :
      {F : Type 0} → List Memory → MemoryLimits F → ℕ → List ℕ → List ProfileItem
  select_dynamic_slice ms limits now exclude_ids =
      budget_items
        (dynamic_candidates ms (now - days limits.profile_dynamic_window_days) exclude_ids)
        limits.profile_dynamic_max_items limits.profile_dynamic_max_chars

  unfoldable pub select_profile_slices :
      {F D : Type 0} → (Payload → D) → List Memory → MemoryLimits F → ℕ → SelectedProfile D
  select_profile_slices sha256 ms limits now =
      let static =
        budget_items (static_candidates ms limits.profile_static_min_importance)
          limits.profile_static_max_items limits.profile_static_max_chars in
      let dynamic = select_dynamic_slice ms limits now (map (λ item. item.id) static) in
      record {
        static = static;
        dynamic = dynamic;
        source_memory_ids = map (λ item. item.id) (static ++ dynamic);
        content_hash = profile_content_hash sha256 static dynamic;
      }

-- `apply_profile_budget`; `used_items` and `used_chars` go through both calls of `_take`.
module _ (max_items max_chars : ℕ) where
  unfoldable pub take_items : List ProfileItem → ℕ → ℕ → List ProfileItem × ℕ × ℕ
  take_items [] n used = ([], n, used)
  take_items (item ∷ source) n used =
      if leb max_items n
      then ([], n, used)
      else if leb (max_chars - used) 0
      then ([], n, used)
      else elim (clip_content item.content (max_chars - used)) [
        | none ↦ ([], n, used)
        | some (content, clipped) ↦
            let rest = take_items source (n + 1) (used + length content) in
            (
              record item {
                content = content;
                content_truncated = item.content_truncated || clipped;
              }
                  ∷ rest.0,
              rest.1,
              rest.2,
            )
      ]

  unfoldable pub apply_profile_budget :
      List ProfileItem → List ProfileItem → List ProfileItem × List ProfileItem × List ℕ
  apply_profile_budget static dynamic =
      let (out_static, n, used) = take_items static 0 0 in
      let (out_dynamic, _, _) = take_items dynamic n used in
      (out_static, out_dynamic, map (λ item. item.id) (out_static ++ out_dynamic))
