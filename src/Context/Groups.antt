-- ===== src/Context/Groups.antt =====
-- All categories of a snapshot: the groups in their order, against all candidates in that order.
use recallum_mcp.Prelude.{
  ℕ, ◌+◌, ◌-◌, ◌≤◌, ◌≡◌, refl, ap, inl, inr, true, false, List, [], ◌∷◌, ◌++◌, length,
  length-append, sum_of-append, Bool-cases, arith,
}
use mathlib.Core.List.{append-nil}
use recallum_mcp.Model.{Category}
use recallum_mcp.Budget.{estimate_tokens}
use recallum_mcp.Context.{
  SessionContextBudget, ContextItem, ContextGroup, Counters, add_group, fill_items, fill_groups,
}
use recallum_mcp.Context.Fill.{chars, IsTaken, IsFilled, IsWithin, fill_items-IsFilled}

-- The items of all groups, in order.
abbrev pub items_in : List ContextGroup → List ContextItem
items_in [] = []
items_in (g ∷ gs) = g.items ++ items_in gs

-- The candidates of all categories, in order.
abbrev pub candidates_in : (Category → List ContextItem) → List Category → List ContextItem
candidates_in items_of [] = []
candidates_in items_of (c ∷ cs) = items_of c ++ candidates_in items_of cs

module _ (b : SessionContextBudget) where
  items_in-add_group :
      (category : Category) (kept : List ContextItem) (groups : List ContextGroup)
      → items_in (add_group b category kept groups) ≡ kept ++ items_in groups
  items_in-add_group category [] groups = refl
  items_in-add_group category (item ∷ kept) groups = refl

  IsTaken-append :
      (r : ℕ) (xs ys kept : List ContextItem) → IsTaken b r xs kept → IsTaken b r (xs ++ ys) kept
  IsTaken-append r [] [] [] h = tt
  IsTaken-append r [] (y ∷ ys) [] h = tt
  IsTaken-append r (x ∷ xs) ys [] h = tt
  IsTaken-append r [] ys (item ∷ kept) h = absurd h
  IsTaken-append r (x ∷ xs) ys (item ∷ kept) (inl (e, fits, t)) =
      inl (e, fits, IsTaken-append (r - length x.content) xs ys kept t)
  IsTaken-append r (x ∷ xs) ys (item ∷ kept) (inr h) = inr h

  IsTaken-whole :
      (r : ℕ) (xs ys more : List ContextItem)
      → chars xs ≤ r
      → IsTaken b (r - chars xs) ys more
      → IsTaken b r (xs ++ ys) (xs ++ more)
  IsTaken-whole r [] ys more h t = let all : r - 0 ≡ r = omega arith in rw all at t
  IsTaken-whole r (x ∷ xs) ys more h t =
      let left : r - (length x.content + chars xs) ≡ r - length x.content - chars xs =
        omega arith in
      inl (
        refl,
        omega arith,
        IsTaken-whole (r - length x.content) xs ys more (omega arith) (rw left at t),
      )

  stopped :
      (xs ys kept : List ContextItem) (c d : Counters)
      → IsFilled b xs c kept d
      → d.exhausted ≡ true
      → IsFilled b (xs ++ ys) c (kept ++ []) d
  stopped xs ys kept c d f e = rw append-nil (record {
    counted = f.counted;
    few = f.few;
    measured = f.measured;
    small = f.small;
    paid = f.paid;
    cheap = f.cheap;
    taken = IsTaken-append _ xs ys kept f.taken;
    whole = inl e;
  })

  went_on :
      (xs ys more : List ContextItem) (c d e : Counters)
      → IsFilled b xs c xs d
      → chars xs ≤ b.max_chars - c.used_chars
      → IsFilled b ys d more e
      → IsFilled b (xs ++ ys) c (xs ++ more) e
  went_on xs ys more c d e f k g =
      let left : b.max_chars - d.used_chars ≡ b.max_chars - c.used_chars - chars xs =
        omega (arith, f.measured) in
      record {
        counted = omega (arith, f.counted, g.counted, length-append xs more);
        few = g.few;
        measured =
            omega (arith, f.measured, g.measured, sum_of-append (λ i. length i.content) xs more);
        small = g.small;
        paid =
            omega (arith, f.paid, g.paid, sum_of-append (λ i. estimate_tokens i.content) xs more);
        cheap = g.cheap;
        taken = IsTaken-whole _ xs ys more k (rw left at g.taken);
        whole = elim g.whole [
          | inl stop ↦ inl stop
          | inr (same, fits) ↦
              inr
                (ap (λ l. xs ++ l) same, omega (arith, sum_of-append (λ i. length i.content) xs ys))
        ];
      }

  fill_groups-stopped :
      (items_of : Category → List ContextItem) (categories : List Category) (c : Counters)
      → c.exhausted ≡ true
      → fill_groups b items_of categories c ≡ ([], c)
  unfolding fill_groups
  fill_groups-stopped items_of [] c h = refl
  fill_groups-stopped items_of (category ∷ categories) c h = ground arith

  fill_groups-next :
      (items_of : Category → List ContextItem) (category : Category) (categories : List Category)
      (c : Counters)
      → c.exhausted ≡ false
      → fill_groups b items_of (category ∷ categories) c ≡ (
        add_group b category
            (fill_items b (items_of category) c).0
            (fill_groups b items_of categories (fill_items b (items_of category) c).1).0,
        (fill_groups b items_of categories (fill_items b (items_of category) c).1).1,
      )
  unfolding fill_groups
  fill_groups-next items_of category categories c h = ground arith

  module _ (floored : 1 ≤ b.truncate_floor) (items_of : Category → List ContextItem) where
    pub fill_groups-IsFilled :
        (categories : List Category) (c : Counters)
        → c.exhausted ≡ false
        → IsWithin b c
        → IsFilled b
            (candidates_in items_of categories)
            c
            (items_in (fill_groups b items_of categories c).0)
            (fill_groups b items_of categories c).1
    unfolding fill_groups
    fill_groups-IsFilled [] c h w = record {
      counted = omega arith;
      few = w.few;
      measured = omega arith;
      small = w.small;
      paid = omega arith;
      cheap = w.cheap;
      taken = tt;
      whole = inr (refl, omega arith);
    }
    fill_groups-IsFilled (category ∷ categories) c h w =
        let xs = items_of category in
        let ys = candidates_in items_of categories in
        let kept = (fill_items b xs c).0 in
        let d = (fill_items b xs c).1 in
        let f = fill_items-IsFilled b floored xs c w in
        let w' : IsWithin b d = record { few = f.few; small = f.small; cheap = f.cheap } in
        rw (fill_groups-next items_of category categories c h, items_in-add_group category kept _)
          (elim (Bool-cases d.exhausted) [
            | inl stop ↦
                rw (fill_groups-stopped items_of categories d stop) (stopped xs ys kept c d f stop)
            | inr more ↦ elim f.whole [
              | inl stop ↦ cc
              | inr (same, fits) ↦ rw same (
                  went_on xs ys _ c d _ (rw same at f) fits
                    (fill_groups-IsFilled categories d more w'))
            ]
          ])
