-- ===== src/Context/Examples.antt =====
-- Tests and instances of the session snapshot.
use mathlib.Core.List.{Perm}
use recallum_mcp.Prelude.{
  ◌≡◌, refl, ◌≤◌, ◌+◌, ◌-◌, ◌⊎◌, true, false, none, some, [], ◌∷◌, length, mem, AllPairs,
  AllPairs-any, Falling, sort_by, arith,
}
use recallum_mcp.Model.{Memory, preference, constraint, fact}
use recallum_mcp.Samples.{tabs, dark, no_force_push, port}
use recallum_mcp.Budget.{category_order_for_strategy, estimate_tokens}
use recallum_mcp.Budget.Pack.{Within}
use recallum_mcp.Context.{
  SessionContextBudget, Request, merged, first_seen, context_item, fill_items, fill_groups, gaps,
  count_in, ordered, assemble,
}
use recallum_mcp.Context.Fill.{chars, tokens, IsTaken}
use recallum_mcp.Context.Distinct.{shows}
use recallum_mcp.Context.Order.{merged-order, count_in-gaps}
use recallum_mcp.Context.Snapshot.{
  candidates, shown, assemble-Within, assemble-IsTaken, assemble-distinct, assemble_complete,
}

abbrev budget : SessionContextBudget
budget = record {
  max_items = 5;
  max_chars = 9;
  truncate_floor = 2;
  max_tokens = none;
  strategy = none;
}

abbrev request : Request
request = record {
  global_memories = tabs ∷ dark ∷ [];
  project_memories = no_force_push ∷ port ∷ [];
  focus_memories = port ∷ tabs ∷ [];
  project = some "app";
  total_available = 6;
  total_available_by_category = (preference, 2) ∷ (fact, 4) ∷ [];
  focus = none;
  stale_before = some 25;
  exclude_ids = 3 ∷ [];
  profile_item_count = 1;
  profile_items_by_category = (constraint, 1) ∷ [];
}

program : Unit {0}
unfolding assemble ordered merged first_seen fill_items fill_groups gaps category_order_for_strategy
    estimate_tokens sort_by
program = tt

-- The focused preference leads the group; the excluded constraint is gone; the fact is left out,
-- the one character left being below the floor.
snapshot :
    (shown budget request ≡ context_item (some 25) tabs ∷ context_item (some 25) dark ∷ [])
    × ((assemble budget request).omitted ≡ 3)
    × ((assemble budget request).omitted_by_category ≡ (fact, 4) ∷ [])
    × ((assemble budget request).truncated ≡ true)
unfolding program
snapshot = (refl, refl, refl, refl)

assemble-Within_example :
    (length (shown budget request) ≤ 5)
    × (chars (shown budget request) ≤ 9)
    × Within none (tokens (shown budget request))
    × ((assemble budget request).total_items ≡ length (shown budget request) + 1)
    × ((assemble budget request).omitted ≡ 6 - (length (shown budget request) + 1))
assemble-Within_example = assemble-Within budget (omega arith) request

assemble-IsTaken_example : IsTaken budget 9 (candidates budget request) (shown budget request)
assemble-IsTaken_example = assemble-IsTaken budget (omega arith) request

assemble-distinct_example :
    (shows 3 (shown budget request) ≤ 1)
    × ((mem 3 request.exclude_ids ≡ false) ⊎ (shows 3 (shown budget request) ≡ 0))
assemble-distinct_example = assemble-distinct budget (omega arith) request 3

-- With room for all and all served, the snapshot is complete.
abbrev roomy : SessionContextBudget
roomy = record budget { max_chars = 100 }

abbrev small : Request
small = record request { total_available = 4; total_available_by_category = [] }

assemble_complete_example :
    (shown roomy small ≡ candidates roomy small)
    × ((assemble roomy small).omitted ≡ 0)
    × (4 ≤ (assemble roomy small).total_items)
unfolding program
assemble_complete_example = assemble_complete roomy (omega arith) small refl

abbrev Any : Memory → Memory → Type 0
Any x y = Unit

merged-order_sample :
    Perm (merged (tabs ∷ []) (port ∷ [])) (tabs ∷ port ∷ [])
    × AllPairs
        (Falling (λ m. m.importance) (Falling (λ m. m.created_at) Any))
        (merged (tabs ∷ []) (port ∷ []))
merged-order_sample = merged-order (tabs ∷ []) (port ∷ []) Any (AllPairs-any (tabs ∷ port ∷ []))

count_in-gaps_sample :
    count_in fact (gaps ((fact, 1) ∷ []) [] request.total_available_by_category)
    ≡ count_in fact request.total_available_by_category - (1 + 0)
count_in-gaps_sample =
    count_in-gaps ((fact, 1) ∷ []) [] request.total_available_by_category fact
      ((refl, tt), (tt, tt))
