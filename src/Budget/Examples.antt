-- ===== src/Budget/Examples.antt =====
-- Tests and instances of the token budget.
use recallum_mcp.Prelude.{◌≡◌, refl, some, List, [], ◌∷◌, sort_by}
use recallum_mcp.Model.{Memory, ok, raise, unknown_strategy}
use recallum_mcp.Samples.{tabs, dark, no_force_push, port}
use recallum_mcp.Budget.{
  estimate_tokens, validate_strategy, coding, reorder_by_strategy, pack_by_token_budget,
}
use recallum_mcp.Budget.Pack.{IsPacked, pack_by_token_budget-IsPacked}
use recallum_mcp.Budget.Reorder.{IsReordered, reorder_by_strategy-IsReordered}

abbrev memories : List Memory
memories = tabs ∷ port ∷ no_force_push ∷ dark ∷ []

estimates : (estimate_tokens [] ≡ 8) × (estimate_tokens dark.content ≡ 9)
unfolding estimate_tokens
estimates = (refl, refl)

strategy_names :
    (validate_strategy (some "coding") ≡ ok (some coding))
    × (validate_strategy (some "Coding") ≡ raise unknown_strategy)
unfolding validate_strategy
strategy_names = (refl, refl)

for_coding :
    reorder_by_strategy memories (some coding) (λ m. some m.category)
    ≡ no_force_push ∷ port ∷ tabs ∷ dark ∷ []
unfolding reorder_by_strategy sort_by
for_coding = refl

two_fit : pack_by_token_budget memories 10 (some 20) (λ m. m.content) ≡ tabs ∷ port ∷ []
unfolding pack_by_token_budget estimate_tokens
two_fit = refl

pack_by_token_budget-IsPacked_example :
    IsPacked 10
      (some 20)
      (λ m. m.content)
      memories
      (pack_by_token_budget memories 10 (some 20) (λ m. m.content))
pack_by_token_budget-IsPacked_example =
    pack_by_token_budget-IsPacked 10 (some 20) (λ m. m.content) memories

reorder_by_strategy-IsReordered_example : IsReordered (λ (m : Memory). some m.category) memories
reorder_by_strategy-IsReordered_example =
    reorder_by_strategy-IsReordered (λ m. some m.category) memories
