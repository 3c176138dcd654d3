-- ===== src/Hygiene/Examples.antt =====
-- Tests and instances of the hygiene report.
use recallum_mcp.Prelude.{
  All, ℕ, ◌≡◌, ◌↔◌, refl, inl, inr, true, ◌&&◌, none, List, [], ◌∷◌, map, mem, any_of, sort_by,
  if◌then◌else◌, ◌==◌, arith,
}
use recallum_mcp.Model.{Memory, Scope}
use recallum_mcp.Samples.{tabs, dark, no_force_push, port}
use recallum_mcp.Hygiene.{
  GraphPair, DuplicateCluster, Run, returned, key_error, ids_of, same_bucket_pairs, find, union,
  union_all, group_all, look_up, cluster_of, clusters_of, text_before, cluster_before,
  cluster_by_bucket,
}
use recallum_mcp.Hygiene.Joined.{Connected}
use recallum_mcp.Hygiene.Clustered.{together, IsCluster}
use recallum_mcp.Hygiene.Exact.{
  cluster_by_bucket-together, cluster_by_bucket-IsCluster, cluster_by_bucket-unknown,
}
use recallum_mcp.Hygiene.Contradictions.{candidate_of, candidates_of, find_contradictions, is_of}
use recallum_mcp.Hygiene.Contradictions.Cues.{find_contradictions-found}

program : Unit {0}
unfolding same_bucket_pairs find union union_all group_all look_up cluster_of clusters_of
    text_before cluster_before cluster_by_bucket sort_by candidate_of candidates_of
    find_contradictions
program = tt

abbrev pair : ℕ → ℕ → ℕ → GraphPair
pair source target similarity = record {
  source_id = source;
  target_id = target;
  similarity = similarity;
}

abbrev four : List Memory
four = port ∷ dark ∷ no_force_push ∷ tabs ∷ []

-- A chain in the global bucket, and a pair that would leave it.
abbrev pairs : List GraphPair
pairs = pair 4 2 91 ∷ pair 1 3 95 ∷ pair 2 1 93 ∷ []

abbrev shown : Run (List DuplicateCluster × List GraphPair) → List (List ℕ)
shown (returned r) = map (λ c. ids_of c.members) r.0
shown _ = []

-- The chain is one cluster, in the order of the identifiers, without the memory of a project.
chain : shown (cluster_by_bucket four pairs) ≡ (1 ∷ 2 ∷ 4 ∷ []) ∷ []
unfolding program
chain = refl

-- No pair, no cluster.
apart : shown (cluster_by_bucket four []) ≡ []
unfolding program
apart = refl

cluster_by_bucket-IsCluster_example :
    (clusters : List DuplicateCluster) × (cluster_by_bucket four pairs
      ≡ returned (clusters, same_bucket_pairs four pairs))
    × All (IsCluster (ids_of four) (same_bucket_pairs four pairs)) clusters
unfolding program
cluster_by_bucket-IsCluster_example =
    cluster_by_bucket-IsCluster four pairs (refl, (refl, (refl, tt)))

abbrev linked_three : DuplicateCluster
linked_three = record {
  bucket = record { scope = Scope.global; project = none };
  members = tabs ∷ dark ∷ port ∷ [];
  min_similarity = 91;
  max_similarity = 93;
}

cluster_by_bucket-together_example :
    (together 1 4 (linked_three ∷ []) ≡ true) ↔ Connected (same_bucket_pairs four pairs) 1 4
unfolding program
cluster_by_bucket-together_example =
    cluster_by_bucket-together four pairs (pair 4 2 91 ∷ pair 2 1 93 ∷ []) (linked_three ∷ []) 1 4
      (refl, (refl, (refl, tt))) refl (ground arith) refl refl

cluster_by_bucket-unknown_example :
    cluster_by_bucket four (pair 4 2 91 ∷ pair 8 9 99 ∷ []) ≡ key_error
cluster_by_bucket-unknown_example =
    cluster_by_bucket-unknown four (pair 4 2 91 ∷ pair 8 9 99 ∷ []) (pair 8 9 99) (inr (inl refl))
      refl refl

-- The cue 7 in a content that has the code point of "b".
abbrev cues : List ℕ → List ℕ
cues content = if mem b'b' content then 7 ∷ [] else []

told : map (λ c. c.without_cue.id) (find_contradictions cues four pairs) ≡ 3 ∷ 2 ∷ []
unfolding program
told = refl

find_contradictions-found_example :
    any_of
      (λ c. c.similarity == 93 && is_of 2 1 c)
      (find_contradictions cues four (pair 2 1 93 ∷ []))
    ≡ true
find_contradictions-found_example =
    find_contradictions-found cues four (pair 2 1 93) dark tabs (pair 2 1 93 ∷ []) (inl refl) refl
      refl (7, inr (refl, refl))
