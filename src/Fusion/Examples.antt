-- ===== src/Fusion/Examples.antt =====
-- Tests and instances of rank fusion, on numbers in the place of floats.
use recallum_mcp.Prelude.{
  ℕ, ◌+◌, ◌/◌, ◌≡◌, refl, List, [], ◌∷◌, ◌==◌, ltb, AllPairs, Then, sort_by, arith,
}
use recallum_mcp.Fusion.{
  Floats, add_vote, add_pool, add_pools, add_ranks, add_competition_vote, add_competition_votes,
  ranked, reciprocal_rank_fusion,
}
use recallum_mcp.Fusion.Once.{occurs, once, is_found, reciprocal_rank_fusion-once}
use recallum_mcp.Fusion.Ranked.{Newer, reciprocal_rank_fusion-order}

abbrev numbers : Floats ℕ
numbers = record {
  nought = 0;
  add = λ x y. x + y;
  divide = λ x n. x / n;
  is_nought = λ x. x == 0;
  above = λ x y. ltb y x;
}

abbrev itself : ℕ → ℕ
itself n = n

-- Two pools that vote and one of weight 0.
abbrev pools : List (List ℕ × ℕ)
pools = (1 ∷ 2 ∷ 3 ∷ [], 100000) ∷ (3 ∷ 4 ∷ [], 100000) ∷ (5 ∷ [], 0) ∷ []

abbrev votes : List ((ℕ → ℕ) × ℕ)
votes = (itself, 1000) ∷ []

-- 3 stands in both pools, 4 and 2 are second in one, and the vote decides between them.
fused :
    reciprocal_rank_fusion numbers itself itself pools votes
    ≡ (3, 3242) ∷ (1, 1654) ∷ (4, 1628) ∷ (2, 1627) ∷ []
unfolding reciprocal_rank_fusion ranked add_competition_votes add_competition_vote add_ranks
    add_pools add_pool add_vote sort_by
fused = refl

reciprocal_rank_fusion-once_example :
    occurs itself 5 (reciprocal_rank_fusion numbers itself itself pools votes)
    ≡ once (is_found itself numbers 5 pools)
reciprocal_rank_fusion-once_example =
    reciprocal_rank_fusion-once numbers itself itself pools votes 5

reciprocal_rank_fusion-order_example :
    AllPairs
      (Then (λ x y. numbers.above x.1 y.1) (Newer itself))
      (reciprocal_rank_fusion numbers itself itself pools votes)
reciprocal_rank_fusion-order_example =
    reciprocal_rank_fusion-order numbers itself itself (λ s t h. ground arith)
      (λ s t u h k. ground arith) pools votes
