-- ===== src/Budget/Reorder.antt =====
-- What `reorder_by_strategy` does to the order.
use recallum_mcp.Prelude.{
  ℕ, suc, ◌≤◌, ◌<◌, ◌≡◌, ◌∙◌, ap, refl, inl, inr, Bool, true, false, ◌&&◌, not, Option, none, some,
  List, [], ◌∷◌, ◌++◌, map, keep, length, ◌==◌, Bool-cases, arith,
}
use mathlib.Core.List.{map-append}
use recallum_mcp.Model.{Category, preference, decision, constraint, fact, same_category}
use recallum_mcp.Budget.{
  index_in, strategy_category_priority, RecallStrategy, coding, debugging, planning, review,
  architecture, priority_of, enumerate, reorder_by_strategy,
}
use recallum_mcp.Budget.Sorted.{has_priority, buckets, sort_by-buckets, kept_items}

-- The test of a category; `none` is a text that names no category.
abbrev pub is_of : Option Category → Option Category → Bool
is_of none none = true
is_of (some c) (some d) = same_category c d
is_of _ _ = false

-- Two tests of a category agree on all five.
abbrev same_truth : Bool → Bool → Bool
same_truth true b = b
same_truth false b = not b

abbrev agree : (Option Category → Bool) → (Option Category → Bool) → Bool
agree f g =
    same_truth (f none) (g none)
    && (same_truth (f (some preference)) (g (some preference))
        && (same_truth (f (some decision)) (g (some decision))
            && (same_truth (f (some constraint)) (g (some constraint))
                && same_truth (f (some fact)) (g (some fact)))))

agree-each : (f g : Option Category → Bool) → agree f g ≡ true → (c : Option Category) → f c ≡ g c
agree-each f g h none = ground (arith, h)
agree-each f g h (some preference) = ground (arith, h)
agree-each f g h (some decision) = ground (arith, h)
agree-each f g h (some constraint) = ground (arith, h)
agree-each f g h (some fact) = ground (arith, h)

-- The categories of an order have its positions as priorities.
abbrev places : ℕ → (Option Category → ℕ) → List (Option Category) → Bool
places low priority [] = true
places low priority (c ∷ order) =
    agree (λ d. priority d == low) (is_of c) && places (suc low) priority order

index_in-bound : (cs : List Category) (c : Option Category) → index_in cs c ≤ length cs
index_in-bound [] c = omega arith
index_in-bound (p ∷ cs) none = ground (arith, index_in-bound cs none)
index_in-bound (p ∷ cs) (some c) = ground (arith, index_in-bound cs (some c))

module _ {ℓ} {T : Type ℓ} (category_of : T → Option Category) where
  -- The items of the first category in their order, then those of the second, and so on.
  abbrev pub grouped : List (Option Category) → List T → List T
  grouped [] items = []
  grouped (c ∷ order) items = keep (λ item. is_of c (category_of item)) items ++ grouped order items

  keep-each :
      (f g : Option Category → Bool) (items : List T)
      → ((c : Option Category) → f c ≡ g c)
      → keep (λ item. f (category_of item)) items ≡ keep (λ item. g (category_of item)) items
  keep-each f g [] h = refl
  keep-each f g (item ∷ items) h =
      let rest = keep-each f g items h in
      let at = h (category_of item) in
      elim (Bool-cases (g (category_of item))) [
        | inl e ↦ rw (at, e) (ap (◌∷◌ item) rest)
        | inr e ↦ rw (at, e) rest
      ]

  buckets-grouped :
      (priority : Option Category → ℕ) (low : ℕ) (order : List (Option Category)) (items : List T)
      → places low priority order ≡ true
      → map
          (λ (pair : ℕ × T). pair.1)
          (buckets (λ item. priority (category_of item)) low (length order) (enumerate 0 items))
        ≡ grouped order items
  buckets-grouped priority low [] items h = refl
  buckets-grouped priority low (c ∷ order) items h =
      let p = λ (item : T). priority (category_of item) in
      let rest = buckets-grouped priority (suc low) order items (ground (arith, h)) in
      let each = agree-each (λ d. priority d == low) (is_of c) (ground (arith, h)) in
      let kept = kept_items (λ item. priority (category_of item)) low 0 items in
      let same = keep-each (λ d. priority d == low) (is_of c) items each in
      map-append (λ (pair : ℕ × T). pair.1)
        (keep (has_priority (λ item. priority (category_of item)) low) (enumerate 0 items))
        (buckets (λ item. priority (category_of item)) (suc low) (length order) (enumerate 0 items))
      ∙ ap
          (λ (l : List T).
            l
            ++ map (λ (pair : ℕ × T). pair.1)
                (buckets (λ item. priority (category_of item)) (suc low) (length order)
                  (enumerate 0 items)))
          (kept ∙ same)
      ∙ ap (◌++◌ (keep (λ item. is_of c (category_of item)) items)) rest

  by_places :
      (s : RecallStrategy) (order : List (Option Category)) (items : List T)
      → ((c : Option Category) → priority_of s c < length order)
      → places 0 (priority_of s) order ≡ true
      → reorder_by_strategy items (some s) category_of ≡ grouped order items
  unfolding reorder_by_strategy
  by_places s order items h p =
      let sorted =
        sort_by-buckets (λ item. priority_of s (category_of item)) (length order) 0 items
          (λ item. h (category_of item)) in
      ap (map (λ (pair : ℕ × T). pair.1)) sorted ∙ buckets-grouped (priority_of s) 0 order items p

  below : (s : RecallStrategy) (c : Option Category) → priority_of s c < 5
  below coding c = omega (arith, index_in-bound (strategy_category_priority coding) c)
  below debugging c = omega (arith, index_in-bound (strategy_category_priority debugging) c)
  below planning c = omega (arith, index_in-bound (strategy_category_priority planning) c)
  below review c = omega (arith, index_in-bound (strategy_category_priority review) c)
  below architecture c = omega (arith, index_in-bound (strategy_category_priority architecture) c)

  -- What each strategy puts first.
  pub record IsReordered (items : List T) : Type ℓ where
    pub untouched : reorder_by_strategy items none category_of ≡ items
    pub for_debugging :
        reorder_by_strategy items (some debugging) category_of
        ≡ grouped (some fact ∷ some constraint ∷ some decision ∷ some preference ∷ none ∷ []) items
    pub for_review :
        reorder_by_strategy items (some review) category_of
        ≡ grouped (some constraint ∷ some decision ∷ some preference ∷ some fact ∷ none ∷ []) items
    pub for_architecture :
        reorder_by_strategy items (some architecture) category_of
        ≡ grouped (some decision ∷ some constraint ∷ some fact ∷ some preference ∷ none ∷ []) items
    pub for_planning :
        reorder_by_strategy items (some planning) category_of
        ≡ grouped (some decision ∷ some constraint ∷ some fact ∷ some preference ∷ none ∷ []) items
    pub for_coding :
        reorder_by_strategy items (some coding) category_of
        ≡ grouped (some constraint ∷ some decision ∷ some fact ∷ some preference ∷ none ∷ []) items

  -- The reordered list is, category by category in the order of the strategy, the items of the
  -- category in the order that they were in, and then those of no known category: debugging puts facts
  -- first, then constraints, decisions and preferences; review constraints, decisions, preferences and
  -- facts; architecture and planning decisions, constraints, facts and preferences; and coding
  -- constraints, decisions, facts and preferences. Without a strategy the items stay as they are.
  pub reorder_by_strategy-IsReordered : (items : List T) → IsReordered items
  unfolding reorder_by_strategy
  reorder_by_strategy-IsReordered items = record {
    untouched = refl;
    for_debugging =
        by_places debugging
          (some fact ∷ some constraint ∷ some decision ∷ some preference ∷ none ∷ []) items
          (below debugging) refl;
    for_review =
        by_places review (some constraint ∷ some decision ∷ some preference ∷ some fact ∷ none ∷ [])
          items (below review) refl;
    for_architecture =
        by_places architecture
          (some decision ∷ some constraint ∷ some fact ∷ some preference ∷ none ∷ []) items
          (below architecture) refl;
    for_planning =
        by_places planning
          (some decision ∷ some constraint ∷ some fact ∷ some preference ∷ none ∷ []) items
          (below planning) refl;
    for_coding =
        by_places coding (some constraint ∷ some decision ∷ some fact ∷ some preference ∷ none ∷ [])
          items (below coding) refl;
  }
