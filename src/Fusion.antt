-- ===== src/Fusion.antt =====
-- Reciprocal rank fusion of retrieval.py. The scores are floats: a type `S` with the addition and the
-- division that the code uses, the truth of a weight, and the order of `sort`. The dictionaries
-- `scores` and `entries` always have the same keys in the same order and are one list of entries.
use recallum_mcp.Prelude.{
  ℕ, zero, suc, ◌+◌, Bool, true, false, Option, none, some, List, [], ◌∷◌, ◌==◌, if◌then◌else◌,
  descending, sort_by,
}
mod Once
mod Ranked
mod Examples

abbrev pub rrf_k : ℕ
rrf_k = 60

-- The operations on floats.
pub record Floats (S : Type 0) : Type 0 where
  pub nought : S
  pub add : S → S → S
  pub divide : S → ℕ → S
  pub is_nought : S → Bool
  pub above : S → S → Bool

-- `value != previous`
abbrev pub differs : ℕ → Option ℕ → Bool
differs value none = true
differs value (some p) = if value == p then false else true

module _ {T S : Type 0} (floats : Floats S) (id_of : T → ℕ) where
  -- `scores[key] += vote` and `entries.setdefault(key, candidate)`
  unfoldable pub add_vote : T → S → List (T × S) → List (T × S)
  add_vote c vote [] = (c, floats.add floats.nought vote) ∷ []
  add_vote c vote ((d, score) ∷ rest) =
      if id_of d == id_of c
      then (d, floats.add score vote) ∷ rest
      else (d, score) ∷ add_vote c vote rest

  unfoldable pub add_pool : S → ℕ → List T → List (T × S) → List (T × S)
  add_pool weight rank [] entries = entries
  add_pool weight rank (c ∷ candidates) entries =
      add_pool weight (rank + 1) candidates
        (add_vote c (floats.divide weight (rrf_k + rank)) entries)

  unfoldable pub add_pools : List (List T × S) → List (T × S) → List (T × S)
  add_pools [] entries = entries
  add_pools ((candidates, weight) ∷ pools) entries =
      add_pools pools
        (if floats.is_nought weight then entries else add_pool weight 1 candidates entries)

  -- The loop of `_add_competition_vote`.
  unfoldable pub add_ranks :
      (T → ℕ) → S → ℕ → ℕ → Option ℕ → List (T × S) → List (T × S) → List (T × S)
  add_ranks key weight position rank previous [] entries = entries
  add_ranks key weight position rank previous ((c, _) ∷ ordered) entries =
      let rank' = if differs (key c) previous then position else rank in
      add_ranks key weight (position + 1) rank' (some (key c)) ordered
        (add_vote c (floats.divide weight (rrf_k + rank')) entries)

  unfoldable pub add_competition_vote : (T → ℕ) → S → List (T × S) → List (T × S)
  add_competition_vote key weight entries =
      if floats.is_nought weight
      then entries
      else add_ranks key weight 1 0 none (sort_by (descending (λ e. key e.0)) entries) entries

  unfoldable pub add_competition_votes : List ((T → ℕ) × S) → List (T × S) → List (T × S)
  add_competition_votes [] entries = entries
  add_competition_votes ((key, weight) ∷ votes) entries =
      add_competition_votes votes (add_competition_vote key weight entries)

module _ {T S : Type 0} (floats : Floats S) (id_of : T → ℕ) (created_at_of : T → ℕ) where
  unfoldable pub ranked : List (T × S) → List (T × S)
  ranked entries =
      sort_by (λ x y. floats.above x.1 y.1) (sort_by (descending (λ e. created_at_of e.0)) entries)

  unfoldable pub reciprocal_rank_fusion : List (List T × S) → List ((T → ℕ) × S) → List (T × S)
  reciprocal_rank_fusion pools votes =
      ranked (add_competition_votes floats id_of votes (add_pools floats id_of pools []))
