-- ===== src/Fusion/Once.antt =====
-- Each candidate of a pool that votes is in the fused list once, and nothing else is.
use recallum_mcp.Prelude.{
  ℕ, ◌+◌, ◌≤◌, ◌≡◌, ◌∙◌, refl, max, Bool, false, ◌||◌, Option, none, some, List, [], ◌∷◌, All,
  All-map, Bool-cases, inl, inr, ◌==◌, if◌then◌else◌, descending, sort_by, insert_by, sort_by-All,
  arith,
}
use recallum_mcp.Fusion.{
  Floats, rrf_k, differs, add_vote, add_pool, add_pools, add_ranks, add_competition_vote,
  add_competition_votes, ranked, reciprocal_rank_fusion,
}

abbrev pub once : Bool → ℕ
once b = if b then 1 else 0

-- Whether a pool has a candidate of an identifier.
abbrev pub in_pool : {T : Type 0} → (T → ℕ) → ℕ → List T → Bool
in_pool id_of a [] = false
in_pool id_of a (c ∷ candidates) = (id_of c == a) || in_pool id_of a candidates

module _ {T S : Type 0} (id_of : T → ℕ) where
  -- How many entries have an identifier.
  abbrev pub occurs : ℕ → List (T × S) → ℕ
  occurs a [] = 0
  occurs a ((c, _) ∷ entries) = if id_of c == a then 1 + occurs a entries else occurs a entries

  -- Whether a pool of nonzero weight has a candidate of an identifier.
  abbrev pub is_found : Floats S → ℕ → List (List T × S) → Bool
  is_found floats a [] = false
  is_found floats a ((candidates, weight) ∷ pools) =
      if floats.is_nought weight
      then is_found floats a pools
      else in_pool id_of a candidates || is_found floats a pools

module _ {T S : Type 0} (floats : Floats S) (id_of : T → ℕ) where
  occurs-add_vote :
      (a : ℕ) (c : T) (vote : S) (entries : List (T × S))
      → occurs id_of a (add_vote floats id_of c vote entries)
        ≡ max (occurs id_of a entries) (once (id_of c == a))
  unfolding add_vote
  occurs-add_vote a c vote [] = ground arith
  occurs-add_vote a c vote ((d, s) ∷ entries) = ground (arith, occurs-add_vote a c vote entries)

  occurs-add_pool :
      (a : ℕ) (weight : S) (rank : ℕ) (candidates : List T) (entries : List (T × S))
      → occurs id_of a (add_pool floats id_of weight rank candidates entries)
        ≡ max (occurs id_of a entries) (once (in_pool id_of a candidates))
  unfolding add_pool
  occurs-add_pool a weight rank [] entries = ground arith
  occurs-add_pool a weight rank (c ∷ candidates) entries =
      let vote = floats.divide weight (rrf_k + rank) in
      ground (
        arith,
        occurs-add_pool a weight (rank + 1) candidates (add_vote floats id_of c vote entries),
        occurs-add_vote a c vote entries,
      )

  occurs-add_pools :
      (a : ℕ) (pools : List (List T × S)) (entries : List (T × S))
      → occurs id_of a (add_pools floats id_of pools entries)
        ≡ max (occurs id_of a entries) (once (is_found id_of floats a pools))
  unfolding add_pools
  occurs-add_pools a [] entries = ground arith
  occurs-add_pools a ((candidates, weight) ∷ pools) entries =
      elim (Bool-cases (floats.is_nought weight)) [
        | inl e ↦ rw e (occurs-add_pools a pools entries)
        | inr e ↦ rw e (
            ground (
              arith,
              occurs-add_pools a pools (add_pool floats id_of weight 1 candidates entries),
              occurs-add_pool a weight 1 candidates entries,
            ))
      ]

  occurs-insert_by :
      (before : T × S → T × S → Bool) (a : ℕ) (e : T × S) (entries : List (T × S))
      → occurs id_of a (insert_by before e entries) ≡ occurs id_of a (e ∷ entries)
  occurs-insert_by before a e [] = refl
  occurs-insert_by before a (c, s) ((d, t) ∷ entries) =
      ground (arith, occurs-insert_by before a (c, s) entries)

  occurs-sort_by :
      (before : T × S → T × S → Bool) (a : ℕ) (entries : List (T × S))
      → occurs id_of a (sort_by before entries) ≡ occurs id_of a entries
  unfolding sort_by
  occurs-sort_by before a [] = refl
  occurs-sort_by before a ((c, s) ∷ entries) = ground (
    arith,
    occurs-insert_by before a (c, s) (sort_by before entries),
    occurs-sort_by before a entries,
  )

  -- The entry's identifier stands among entries.
  abbrev Known : List (T × S) → T × S → Type 0
  Known entries e = 1 ≤ occurs id_of (id_of e.0) entries

  Known-self : (entries : List (T × S)) → All (Known entries) entries
  Known-self [] = tt
  Known-self (e ∷ entries) = (
    ground arith,
    All-map (Known entries) (Known (e ∷ entries)) (λ x h. ground arith) entries
        (Known-self entries),
  )

  occurs-add_ranks :
      (a : ℕ) (key : T → ℕ) (weight : S) (position rank : ℕ) (previous : Option ℕ)
      (order entries : List (T × S))
      → All (Known entries) order
      → occurs id_of a (add_ranks floats id_of key weight position rank previous order entries)
        ≡ occurs id_of a entries
  unfolding add_ranks
  occurs-add_ranks a key weight position rank previous [] entries k = refl
  occurs-add_ranks a key weight position rank previous ((c, s) ∷ order) entries (p, k) =
      let rank' = if differs (key c) previous then position else rank in
      let vote = floats.divide weight (rrf_k + rank') in
      let more = add_vote floats id_of c vote entries in
      let known : All (Known more) order =
        All-map (Known entries) (Known more)
          (λ x h. omega (arith, h, occurs-add_vote (id_of x.0) c vote entries)) order k in
      occurs-add_ranks a key weight (position + 1) rank' (some (key c)) order more known
      ∙ ground (arith, occurs-add_vote a c vote entries)

  occurs-add_competition_vote :
      (a : ℕ) (key : T → ℕ) (weight : S) (entries : List (T × S))
      → occurs id_of a (add_competition_vote floats id_of key weight entries)
        ≡ occurs id_of a entries
  unfolding add_competition_vote
  occurs-add_competition_vote a key weight entries = elim (Bool-cases (floats.is_nought weight)) [
    | inl e ↦ rw e refl
    | inr e ↦ rw e (
        occurs-add_ranks a key weight 1 0 none (sort_by (descending (λ x. key x.0)) entries) entries
          (sort_by-All _ (Known entries) entries (Known-self entries)))
  ]

  occurs-add_competition_votes :
      (a : ℕ) (votes : List ((T → ℕ) × S)) (entries : List (T × S))
      → occurs id_of a (add_competition_votes floats id_of votes entries) ≡ occurs id_of a entries
  unfolding add_competition_votes
  occurs-add_competition_votes a [] entries = refl
  occurs-add_competition_votes a ((key, weight) ∷ votes) entries =
      occurs-add_competition_votes a votes (add_competition_vote floats id_of key weight entries)
      ∙ occurs-add_competition_vote a key weight entries

module _ {T S : Type 0} (floats : Floats S) (id_of : T → ℕ) (created_at_of : T → ℕ) where
  -- The fused list has each candidate of a pool of nonzero weight once, however many pools and ranks
  -- it has, and no other; the competition votes let none in and keep none out.
  pub reciprocal_rank_fusion-once :
      (pools : List (List T × S)) (votes : List ((T → ℕ) × S)) (a : ℕ)
      → occurs id_of a (reciprocal_rank_fusion floats id_of created_at_of pools votes)
        ≡ once (is_found id_of floats a pools)
  unfolding reciprocal_rank_fusion ranked
  reciprocal_rank_fusion-once pools votes a =
      let found = add_pools floats id_of pools [] in
      let voted = add_competition_votes floats id_of votes found in
      ground (
        arith,
        occurs-sort_by floats id_of (λ x y. floats.above x.1 y.1) a
            (sort_by (descending (λ e. created_at_of e.0)) voted),
        occurs-sort_by floats id_of (descending (λ e. created_at_of e.0)) a voted,
        occurs-add_competition_votes floats id_of a votes found,
        occurs-add_pools floats id_of a pools [],
      )
