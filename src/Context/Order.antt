-- ===== src/Context/Order.antt =====
-- The order of the importance pools, and the gaps by category.
use mathlib.Core.List.{Perm}
use mathlib.Core.List.Perm
use recallum_mcp.Prelude.{
  ℕ, ◌+◌, ◌-◌, ◌≡◌, refl, ap, true, false, List, [], ◌∷◌, ◌++◌, All, AllPairs, Falling,
  sort_by-perm, sort_by-Falling, arith,
}
use recallum_mcp.Model.{Memory, Category, same_category}
use recallum_mcp.Context.{merged, count_in, gaps}

-- The importance pools are merged without loss, by falling importance, then by falling creation
-- time; where both are equal they keep any order of the globals followed by the project's.
pub merged-order {κ} :
    (globals project : List Memory) (R : Memory → Memory → Type κ)
    → AllPairs R (globals ++ project)
    → Perm (merged globals project) (globals ++ project)
      × AllPairs
          (Falling (λ m. m.importance) (Falling (λ m. m.created_at) R))
          (merged globals project)
unfolding merged
merged-order globals project R h = (
  Perm.trans (sort_by-perm _ _) (sort_by-perm _ _),
  sort_by-Falling _ _ _ (sort_by-Falling _ R _ h),
)

-- The keys of a dictionary differ.
abbrev pub HasDistinctKeys : List (Category × ℕ) → Type 0
HasDistinctKeys = AllPairs (λ x y. same_category x.0 y.0 ≡ false)

same_category_trans :
    (x y c : Category)
    → same_category x c ≡ true
    → same_category x y ≡ false
    → same_category y c ≡ false
same_category_trans x y c h k = ground arith

absent :
    (x c : Category) (rest : List (Category × ℕ))
    → same_category x c ≡ true
    → All (λ y. same_category x y.0 ≡ false) rest
    → count_in c rest ≡ 0
absent x c [] h a = refl
absent x c ((y, n) ∷ rest) h (k, a) = ground (arith, same_category_trans x y c, absent x c rest)

gaps-absent :
    (served profile : List (Category × ℕ)) (x c : Category) (rest : List (Category × ℕ))
    → same_category x c ≡ true
    → All (λ y. same_category x y.0 ≡ false) rest
    → count_in c (gaps served profile rest) ≡ 0
unfolding gaps
gaps-absent served profile x c [] h a = refl
gaps-absent served profile x c ((y, n) ∷ rest) h (k, a) =
    ground (arith, same_category_trans x y c, gaps-absent served profile x c rest)

same_category-eq : (x c : Category) → same_category x c ≡ true → x ≡ c
same_category-eq x c h = ground arith

same_count :
    (x c : Category) (d : List (Category × ℕ))
    → same_category x c ≡ true
    → count_in x d ≡ count_in c d
same_count x c d h = ap (λ k. count_in k d) (same_category-eq x c h)

-- For each category the gap is what is available of it beyond what the groups and the profile show,
-- and a category with no gap is not in the dictionary (it counts 0).
pub count_in-gaps :
    (served profile available : List (Category × ℕ)) (c : Category)
    → HasDistinctKeys available
    → count_in c (gaps served profile available)
      ≡ count_in c available - (count_in c served + count_in c profile)
unfolding gaps
count_in-gaps served profile [] c h = omega arith
count_in-gaps served profile ((x, n) ∷ rest) c (a, h) = ground (
  arith,
  count_in-gaps served profile rest c,
  absent x c rest,
  gaps-absent served profile x c rest,
  same_count x c served,
  same_count x c profile,
)
