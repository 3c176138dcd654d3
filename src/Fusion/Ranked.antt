-- ===== src/Fusion/Ranked.antt =====
-- The order of the fused list.
use recallum_mcp.Prelude.{
  ℕ, ◌≡◌, true, false, List, [], AllPairs, AllPairs-any, Falling, Then, sort_by-AllPairs,
  sort_by-Falling,
}
use recallum_mcp.Fusion.{Floats, add_pools, add_competition_votes, ranked, reciprocal_rank_fusion}

-- The later one first; any order where both are of one time.
abbrev pub Newer : {T S : Type 0} → (T → ℕ) → T × S → T × S → Type 0
Newer created_at_of = Falling (λ e. created_at_of e.0) (λ _ _. Unit {0})

module _ {T S : Type 0} (floats : Floats S) (id_of : T → ℕ) (created_at_of : T → ℕ)
    (asym : (s t : S) → floats.above s t ≡ true → floats.above t s ≡ false)
    (weak : (s t u : S)
      → floats.above t s ≡ false
      → floats.above u t ≡ false
      → floats.above u s ≡ false) where
  -- Where the scores are ordered as numbers are, which excludes NaN, of two entries of the fused list
  -- the first has the higher score, or neither score is higher and it is the newer one or as old.
  pub reciprocal_rank_fusion-order :
      (pools : List (List T × S)) (votes : List ((T → ℕ) × S))
      → AllPairs
          (Then (λ x y. floats.above x.1 y.1) (Newer created_at_of))
          (reciprocal_rank_fusion floats id_of created_at_of pools votes)
  unfolding reciprocal_rank_fusion ranked
  reciprocal_rank_fusion-order pools votes =
      let voted = add_competition_votes floats id_of votes (add_pools floats id_of pools []) in
      sort_by-AllPairs (λ x y. floats.above x.1 y.1) (Newer created_at_of) (λ x y. asym x.1 y.1)
        (λ x y z. weak x.1 y.1 z.1) _
        (sort_by-Falling (λ e. created_at_of e.0) (λ _ _. Unit {0}) voted (AllPairs-any voted))
