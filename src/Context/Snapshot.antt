-- ===== src/Context/Snapshot.antt =====
-- What `assemble` promises of a snapshot.
use recallum_mcp.Prelude.{
  ℕ, ◌+◌, ◌-◌, ◌≤◌, ◌≡◌, refl, ◌⊎◌, inl, inr, false, List, length, mem, Bool-cases, Option, none,
  some, arith,
}
use recallum_mcp.Budget.{category_order_for_strategy}
use recallum_mcp.Budget.Pack.{Within, Within-zero}
use recallum_mcp.Context.{
  SessionContextBudget, ContextItem, Request, ordered, grouped, filled, start, assemble,
}
use recallum_mcp.Context.Fill.{chars, tokens, IsTaken, IsFilled}
use recallum_mcp.Context.Groups.{items_in, candidates_in, fill_groups-IsFilled}
use recallum_mcp.Context.Distinct.{shows, IsTaken-shows, candidates-once, candidates-excluded}

-- The memories that a snapshot may show, in the order of the strategy's categories, and in each
-- category the focus first and then the importance pools.
abbrev pub candidates : SessionContextBudget → Request → List ContextItem
candidates b r =
    candidates_in (grouped r.stale_before (ordered r)) (category_order_for_strategy b.strategy)

abbrev pub shown : SessionContextBudget → Request → List ContextItem
shown b r = items_in (assemble b r).groups

Within-le : (most : Option ℕ) (m n : ℕ) → m ≤ n → Within most n → Within most m
Within-le none m n h w = tt
Within-le (some most) m n h w = omega arith

module _ (b : SessionContextBudget) (floored : 1 ≤ b.truncate_floor) (r : Request) where
  filled-IsFilled : IsFilled b (candidates b r) start (items_in (filled b r).0) (filled b r).1
  unfolding filled
  filled-IsFilled =
      fill_groups-IsFilled b floored (grouped r.stale_before (ordered r))
        (category_order_for_strategy b.strategy) start refl
        (record { few = omega arith; small = omega arith; cheap = Within-zero b.max_tokens })

  -- With a truncation floor above 0, a snapshot keeps all three budgets: at most `max_items` items,
  -- at most `max_chars` characters, and at most `max_tokens` estimated tokens if they are bounded;
  -- the total that it reports is the number of its items and of the profile's; and it reports as
  -- omitted what is available beyond that total.
  pub assemble-Within :
      (length (shown b r) ≤ b.max_items)
      × (chars (shown b r) ≤ b.max_chars)
      × Within b.max_tokens (tokens (shown b r))
      × ((assemble b r).total_items ≡ length (shown b r) + r.profile_item_count)
      × ((assemble b r).omitted ≡ r.total_available - (length (shown b r) + r.profile_item_count))
  unfolding assemble
  assemble-Within =
      let f = filled-IsFilled in
      (
        omega (arith, f.counted, f.few),
        omega (arith, f.measured, f.small),
        Within-le b.max_tokens _ _ (omega (arith, f.paid)) f.cheap,
        omega (arith, f.counted),
        omega (arith, f.counted),
      )

  -- With a truncation floor above 0, a snapshot shows the candidates from the first on, in their
  -- order and with none skipped: each whole while it fits, and only the last one clipped, to exactly
  -- the characters left, which are at least the floor.
  pub assemble-IsTaken : IsTaken b b.max_chars (candidates b r) (shown b r)
  unfolding assemble
  assemble-IsTaken =
      let all : b.max_chars - 0 ≡ b.max_chars = omega arith in rw all at filled-IsFilled.taken

  -- With a truncation floor above 0, no identifier stands in a snapshot twice, and none that the
  -- request excludes.
  pub assemble-distinct :
      (a : ℕ)
      → (shows a (shown b r) ≤ 1) × ((mem a r.exclude_ids ≡ false) ⊎ (shows a (shown b r) ≡ 0))
  assemble-distinct a =
      let few = IsTaken-shows a b b.max_chars (candidates b r) (shown b r) assemble-IsTaken in
      (
        omega (arith, few, candidates-once a r b.strategy),
        elim (Bool-cases (mem a r.exclude_ids)) [
          | inl e ↦ inr (omega (arith, few, candidates-excluded a r b.strategy e))
          | inr e ↦ inl e
        ],
      )

  -- With a truncation floor above 0, a snapshot that is not marked truncated shows every candidate
  -- whole, and leaves out nothing that is available.
  pub assemble_complete :
      (assemble b r).truncated ≡ false
      → (shown b r ≡ candidates b r)
        × ((assemble b r).omitted ≡ 0)
        × (r.total_available ≤ (assemble b r).total_items)
  unfolding assemble
  assemble_complete h =
      let whole = filled-IsFilled.whole in
      (elim whole [ inl e ↦ ground arith | inr (e, _) ↦ e ], ground arith, ground arith)
