-- ===== src/Context/Distinct.antt =====
-- A memory is a candidate once at most, and an excluded one never.
use recallum_mcp.Prelude.{
  ℕ, ◌+◌, ◌-◌, ◌≤◌, ◌≡◌, refl, inl, inr, true, Option, none, some, List, [], ◌∷◌, ◌++◌, length, mem,
  sum_of, sum_of-append, if◌then◌else◌, ◌==◌, arith,
}
use recallum_mcp.Model.{Memory, preference, decision, constraint, fact}
use recallum_mcp.Budget.{RecallStrategy, coding, debugging, planning, review, architecture}
use recallum_mcp.Budget.{category_order_for_strategy}
use recallum_mcp.Context.{SessionContextBudget, ContextItem, Request, first_seen, ordered, grouped}
use recallum_mcp.Context.Fill.{IsTaken}
use recallum_mcp.Context.Groups.{candidates_in}

module _ (a : ℕ) where
  -- How often an identifier stands in a list.
  abbrev pub uses : List Memory → ℕ
  uses = sum_of (λ m. if m.id == a then 1 else 0)

  abbrev pub is_shown : ContextItem → ℕ
  is_shown item = if item.id == a then 1 else 0

  abbrev pub shows : List ContextItem → ℕ
  shows = sum_of is_shown

  first_seen-excluded :
      (seen : List ℕ) (ms : List Memory) → mem a seen ≡ true → uses (first_seen seen ms) ≡ 0
  unfolding first_seen
  first_seen-excluded seen [] h = refl
  first_seen-excluded seen (m ∷ ms) h =
      ground (arith, first_seen-excluded seen ms, first_seen-excluded (m.id ∷ seen) ms)

  first_seen-once : (seen : List ℕ) (ms : List Memory) → uses (first_seen seen ms) ≤ 1
  unfolding first_seen
  first_seen-once seen [] = omega arith
  first_seen-once seen (m ∷ ms) = ground (
    arith,
    first_seen-once seen ms,
    first_seen-once (m.id ∷ seen) ms,
    first_seen-excluded (m.id ∷ seen) ms,
  )

  -- The four categories share the memories out.
  grouped-share :
      (stale : Option ℕ) (ms : List Memory)
      → shows (grouped stale ms preference)
          + shows (grouped stale ms decision)
          + shows (grouped stale ms constraint)
          + shows (grouped stale ms fact)
        ≡ uses ms
  grouped-share stale [] = omega arith
  grouped-share stale (m ∷ ms) = ground (arith, grouped-share stale ms)

  four :
      (p q r s : List ContextItem)
      → shows (p ++ (q ++ (r ++ (s ++ [])))) ≡ shows p + shows q + shows r + shows s
  four p q r s = omega (
    arith,
    sum_of-append is_shown p (q ++ (r ++ (s ++ []))),
    sum_of-append is_shown q (r ++ (s ++ [])),
    sum_of-append is_shown r (s ++ []),
    sum_of-append is_shown s [],
  )

  candidates-share :
      (stale : Option ℕ) (ms : List Memory) (s : Option RecallStrategy)
      → shows (candidates_in (grouped stale ms) (category_order_for_strategy s)) ≡ uses ms
  unfolding category_order_for_strategy
  candidates-share stale ms none = omega (
    arith,
    four (grouped stale ms preference) (grouped stale ms constraint) (grouped stale ms decision)
        (grouped stale ms fact),
    grouped-share stale ms,
  )
  candidates-share stale ms (some coding) = omega (
    arith,
    four (grouped stale ms constraint) (grouped stale ms decision) (grouped stale ms fact)
        (grouped stale ms preference),
    grouped-share stale ms,
  )
  candidates-share stale ms (some debugging) = omega (
    arith,
    four (grouped stale ms fact) (grouped stale ms constraint) (grouped stale ms decision)
        (grouped stale ms preference),
    grouped-share stale ms,
  )
  candidates-share stale ms (some planning) = omega (
    arith,
    four (grouped stale ms decision) (grouped stale ms constraint) (grouped stale ms fact)
        (grouped stale ms preference),
    grouped-share stale ms,
  )
  candidates-share stale ms (some review) = omega (
    arith,
    four (grouped stale ms constraint) (grouped stale ms decision) (grouped stale ms preference)
        (grouped stale ms fact),
    grouped-share stale ms,
  )
  candidates-share stale ms (some architecture) = omega (
    arith,
    four (grouped stale ms decision) (grouped stale ms constraint) (grouped stale ms fact)
        (grouped stale ms preference),
    grouped-share stale ms,
  )

  module _ (b : SessionContextBudget) where
    pub IsTaken-shows :
        (r : ℕ) (cs items : List ContextItem) → IsTaken b r cs items → shows items ≤ shows cs
    IsTaken-shows r [] [] h = omega arith
    IsTaken-shows r (c ∷ cs) [] h = omega arith
    IsTaken-shows r [] (item ∷ items) h = absurd h
    IsTaken-shows r (c ∷ cs) (item ∷ items) (inl (e, _, t)) =
        rw e (omega (arith, IsTaken-shows (r - length c.content) cs items t))
    IsTaken-shows r (c ∷ cs) (item ∷ items) (inr (e, _, _, last)) = rw (e, last) (omega arith)

  pub candidates-once :
      (r : Request) (s : Option RecallStrategy)
      → shows (candidates_in (grouped r.stale_before (ordered r)) (category_order_for_strategy s))
        ≤ 1
  unfolding ordered
  candidates-once r s =
      omega (arith, candidates-share r.stale_before (ordered r) s, first_seen-once r.exclude_ids _)

  pub candidates-excluded :
      (r : Request) (s : Option RecallStrategy)
      → mem a r.exclude_ids ≡ true
      → shows (candidates_in (grouped r.stale_before (ordered r)) (category_order_for_strategy s))
        ≡ 0
  unfolding ordered
  candidates-excluded r s h =
      omega (
        arith,
        candidates-share r.stale_before (ordered r) s,
        first_seen-excluded r.exclude_ids _ h,
      )
