-- ===== src/Budget.antt =====
-- The token estimates and the packing of memory/token_budget.py. A text that is none of the four
-- category names is `none` here; `math.ceil(len(content) / 4)` is exact, being far below 2 ^ 53.
use Prim.Native.String.{String}
use text.Mathlib.Text.{◌==◌ as str_eq}
use recallum_mcp.Prelude.{
  ℕ, suc, ◌+◌, ◌/◌, Bool, ◌||◌, Option, none, some, List, [], ◌∷◌, length, ltb, leb, if◌then◌else◌,
  sort_by, true, false, map, ◌&&◌, ◌==◌,
}
use recallum_mcp.Model.{Category, preference, decision, constraint, fact, same_category}
use recallum_mcp.Model.{Result, ok, raise, unknown_strategy}
pub mod Pack
mod Sorted
pub mod Reorder
mod Examples

abbrev pub token_hit_overhead : ℕ
token_hit_overhead = 8

pub data RecallStrategy : Type 0 where
  coding debugging planning review architecture : RecallStrategy

abbrev pub strategies : List RecallStrategy
strategies = coding ∷ debugging ∷ planning ∷ review ∷ architecture ∷ []

abbrev pub strategy_name : RecallStrategy → String
strategy_name coding = "coding"
strategy_name debugging = "debugging"
strategy_name planning = "planning"
strategy_name review = "review"
strategy_name architecture = "architecture"

-- `STRATEGY_CATEGORY_PRIORITY`
abbrev pub strategy_category_priority : RecallStrategy → List Category
strategy_category_priority debugging = fact ∷ constraint ∷ decision ∷ preference ∷ []
strategy_category_priority review = constraint ∷ decision ∷ preference ∷ fact ∷ []
strategy_category_priority architecture = decision ∷ constraint ∷ fact ∷ preference ∷ []
strategy_category_priority planning = decision ∷ constraint ∷ fact ∷ preference ∷ []
strategy_category_priority coding = constraint ∷ decision ∷ fact ∷ preference ∷ []

unfoldable pub estimate_tokens : List ℕ → ℕ
estimate_tokens content = (length content + 3) / 4 + token_hit_overhead

-- `strategy not in STRATEGIES`, and which one it is.
find_strategy : String → List RecallStrategy → Result (Option RecallStrategy)
find_strategy name [] = raise unknown_strategy
find_strategy name (s ∷ rest) =
    if str_eq (strategy_name s) name then ok (some s) else find_strategy name rest

unfoldable pub validate_strategy : Option String → Result (Option RecallStrategy)
unfolding find_strategy
validate_strategy none = ok none
validate_strategy (some name) = find_strategy name strategies

unfoldable pub category_order_for_strategy : Option RecallStrategy → List Category
category_order_for_strategy none = preference ∷ constraint ∷ decision ∷ fact ∷ []
category_order_for_strategy (some s) = strategy_category_priority s

-- The index of the category among the priorities, or their number: `priority.get(c, fallback)`.
abbrev pub index_in : List Category → Option Category → ℕ
index_in [] c = 0
index_in (p ∷ ps) none = suc (index_in ps none)
index_in (p ∷ ps) (some c) = if same_category p c then 0 else suc (index_in ps (some c))

abbrev pub priority_of : RecallStrategy → Option Category → ℕ
priority_of s = index_in (strategy_category_priority s)

-- `max_tokens is not None and used_tokens + cost > max_tokens`
abbrev pub exceeds : Option ℕ → ℕ → Bool
exceeds none total = false
exceeds (some most) total = ltb most total

module _ {ℓ} {T : Type ℓ} where
  -- `enumerate(items)`, from a position on.
  abbrev pub enumerate : ℕ → List T → List (ℕ × T)
  enumerate position [] = []
  enumerate position (item ∷ items) = (position, item) ∷ enumerate (position + 1) items

  -- The order of the tuples `(priority, position)`, for the priority of an item.
  abbrev pub goes_first : (T → ℕ) → ℕ × T → ℕ × T → Bool
  goes_first priority (i, x) (j, y) =
      ltb (priority x) (priority y) || (priority x == priority y && ltb i j)

  unfoldable pub reorder_by_strategy :
      List T → Option RecallStrategy → (T → Option Category) → List T
  reorder_by_strategy items none category_of = items
  reorder_by_strategy items (some s) category_of =
      map (λ pair. pair.1)
        (sort_by (goes_first (λ item. priority_of s (category_of item))) (enumerate 0 items))

  -- The loop of `pack_by_token_budget`, with `len(kept)` and `used_tokens`.
  pack_from : ℕ → Option ℕ → (T → List ℕ) → ℕ → ℕ → List T → List T
  pack_from max_items max_tokens content_of n used [] = []
  pack_from max_items max_tokens content_of n used (item ∷ items) =
      let total = used + estimate_tokens (content_of item) in
      let rest = pack_from max_items max_tokens content_of (n + 1) total items in
      if leb max_items n || exceeds max_tokens total then [] else item ∷ rest

  unfoldable pub pack_by_token_budget : List T → ℕ → Option ℕ → (T → List ℕ) → List T
  unfolding pack_from
  pack_by_token_budget items max_items max_tokens content_of =
      pack_from max_items max_tokens content_of 0 0 items
