-- ===== src/Hygiene/Exact.antt =====
-- `_cluster_by_bucket` as a whole: it ends, its clusters are what the pairs connect, and it raises
-- a KeyError for a pair of two memories that it was not given.
use recallum_mcp.Prelude.{
  Among, All, ℕ, zero, suc, ◌+◌, ◌<◌, ◌≡◌, ◌≢◌, ◌↔◌, ◌⊎◌, refl, sym, ◌∙◌, ap, inl, inr, true, false,
  ◌&&◌, List, [], ◌∷◌, length, mem, any_of-sort_by, sort_by, sort_by-All, ◌==◌, ==_iff, Bool-cases,
  arith,
}
use recallum_mcp.Model.{Memory}
use recallum_mcp.Hygiene.{
  GraphPair, DuplicateCluster, returned, key_error, ids_of, same_bucket_pairs, find, union,
  union_all, cluster_before, cluster_by_bucket,
}
use recallum_mcp.Hygiene.Forest.{Forest, singles, union_lem}
use recallum_mcp.Hygiene.Joined.{Connected, Known, union_all-Connected}
use recallum_mcp.Hygiene.Grouped.{
  Groups, Grouped, has_root, of_root, group_by, group_by-Grouped, group_all_lem,
}
use recallum_mcp.Hygiene.Gathered.{
  AnyKnown, Unknown, same_bucket_pairs-Known, same_bucket_pairs-alike, unknown_stays,
}
use recallum_mcp.Hygiene.Clustered.{holds, together, IsCluster, mem-of_root}
use recallum_mcp.Hygiene.Whole.{All-of_mem, grouped, clusters_of_lem}

grouped-root :
    (root : ℕ → ℕ) (ids : List ℕ) (x y : ℕ) (groups : Groups)
    → Grouped root ids groups
    → grouped x y groups ≡ true
    → root x ≡ root y
grouped-root root ids x y [] g h = cc
grouped-root root ids x y ((r, group) ∷ groups) (e, _, g) h =
    elim (Bool-cases (mem x group && mem y group)) [
      | inr n ↦ grouped-root root ids x y groups g (ground (arith, h, n))
      | inl both ↦
          let two : (mem x (of_root root r ids) && mem y (of_root root r ids)) ≡ true =
            rw e at both in
          let at_x = mem-of_root root r x ids in
          let at_y = mem-of_root root r y ids in
          ground (arith, two, at_x, at_y, ==_iff (root x) r, ==_iff (root y) r)
    ]

root-grouped :
    (root : ℕ → ℕ) (ids : List ℕ) (x y : ℕ) (groups : Groups)
    → Grouped root ids groups
    → mem x ids ≡ true
    → mem y ids ≡ true
    → root x ≡ root y
    → has_root (root x) groups ≡ true
    → grouped x y groups ≡ true
root-grouped root ids x y [] g in_x in_y same h = cc
root-grouped root ids x y ((r, group) ∷ groups) (e, _, g) in_x in_y same h =
    elim (Bool-cases (r == root x)) [
      | inr n ↦
          let rest = root-grouped root ids x y groups g in_x in_y same (ground (arith, h, n)) in
          ground (arith, rest)
      | inl at ↦
          let own : root x ≡ r = ground (arith, at, ==_iff r (root x)) in
          let at_x : mem x (of_root root r ids) ≡ true =
            mem-of_root root r x ids ∙ rw (in_x, (==_iff (root x) r).1 own) refl in
          let at_y : mem y (of_root root r ids) ≡ true =
            mem-of_root root r y ids ∙ rw (in_y, (==_iff (root y) r).1 (sym same ∙ own)) refl in
          rw e (rw (at_x, at_y) refl)
    ]

-- Identifiers are in one of the groups by root exactly when they have one root.
group_by-root :
    (root : ℕ → ℕ) (ids : List ℕ) (x y : ℕ)
    → mem x ids ≡ true
    → mem y ids ≡ true
    → (grouped x y (group_by root ids []) ≡ true) ↔ (root x ≡ root y)
group_by-root root ids x y in_x in_y =
    let (g, complete) = group_by-Grouped root ids in
    (
      grouped-root root ids x y (group_by root ids []) g,
      λ same.
          root-grouped root ids x y (group_by root ids []) g in_x in_y same
            (elim (Bool-cases (has_root (root x) (group_by root ids []))) [
              | inl h ↦ h
              | inr h ↦
                  let at_x = mem-of_root root (root x) x ids in
                  let empty : mem x [] ≡ mem x ids && (root x == root x) =
                    rw (complete (root x) h) at at_x in
                  absurd (ground (arith, empty, in_x, ==_iff (root x) (root x)))
            ]),
    )

-- The clusters are right, and two memories share one exactly when the pairs connect them.
pub record IsClustered (memories : List Memory) (pairs : List GraphPair)
    (clusters : List DuplicateCluster) : Type 0 where
  pub right : All (IsCluster (ids_of memories) pairs) clusters
  pub both :
      (x y : ℕ)
      → x ≢ y
      → mem x (ids_of memories) ≡ true
      → mem y (ids_of memories) ≡ true
      → (together x y clusters ≡ true) ↔ Connected pairs x y

abbrev Found : Type 0
Found = List DuplicateCluster × List GraphPair

returned_eq : (r s : Found) → returned r ≡ returned s → r ≡ s
returned_eq r s e = cc

-- It returns, and besides its pairs of one bucket the clusters of them.
cluster_by_bucket-IsClustered :
    (memories : List Memory) (pairs : List GraphPair)
    → All (AnyKnown (ids_of memories)) pairs
    → (clusters : List DuplicateCluster) × (cluster_by_bucket memories pairs
        ≡ returned (clusters, same_bucket_pairs memories pairs))
      × IsClustered memories (same_bucket_pairs memories pairs) clusters
unfolding cluster_by_bucket
cluster_by_bucket-IsClustered memories pairs h =
    let keys = ids_of memories in
    let known = same_bucket_pairs-Known memories pairs h in
    let (parent, united, s, exact) =
      union_all-Connected (ids_of memories) (same_bucket_pairs memories pairs) known in
    let gathered =
      group_all_lem (ids_of memories) s.root s.depth s.bound
        (suc (length (same_bucket_pairs memories pairs))) (ids_of memories) parent [] s.forest
        (All-of_mem (λ x. mem x (ids_of memories) ≡ true) (ids_of memories) (λ x m. m)) s.enough in
    let (g, _) = group_by-Grouped s.root (ids_of memories) in
    let (clusters, made, m) =
      clusters_of_lem memories pairs s.root known s.joined s.reached
        (group_by s.root (ids_of memories) []) g in
    (
      sort_by cluster_before clusters,
      rw (united, gathered, made) refl,
      record {
        right =
            sort_by-All cluster_before
              (IsCluster (ids_of memories) (same_bucket_pairs memories pairs)) clusters m.right;
        both = λ x y n in_x in_y.
            let at =
              any_of-sort_by cluster_before (λ c. holds x c && holds y c) clusters ∙ m.both x y n in
            let (there, here) = group_by-root s.root (ids_of memories) x y in_x in_y in
            (λ t. (exact x y).0 (there (sym at ∙ t)), λ c. at ∙ here ((exact x y).1 c));
      },
    )

-- Where each pair has a known end, two different memories that were given share a cluster of the
-- result exactly when a chain of the pairs of one bucket connects them.
pub cluster_by_bucket-together :
    (memories : List Memory) (pairs same : List GraphPair) (clusters : List DuplicateCluster)
    (x y : ℕ)
    → All (AnyKnown (ids_of memories)) pairs
    → cluster_by_bucket memories pairs ≡ returned (clusters, same)
    → x ≢ y
    → mem x (ids_of memories) ≡ true
    → mem y (ids_of memories) ≡ true
    → (together x y clusters ≡ true) ↔ Connected (same_bucket_pairs memories pairs) x y
cluster_by_bucket-together memories pairs same clusters x y h e n in_x in_y =
    let (found, made, r) = cluster_by_bucket-IsClustered memories pairs h in
    let whole =
      returned_eq (clusters, same) (found, same_bucket_pairs memories pairs) (sym e ∙ made) in
    let own : clusters ≡ found = ap (λ (r : Found). r.0) whole in rw own (r.both x y n in_x in_y)

-- Where each pair has a known end, the function returns, and each cluster has two members or more,
-- in the order of their identifiers and all of its bucket; with a member it has all memories that
-- the pairs of one bucket connect to it; and its bounds hold of the similarities of its pairs.
pub cluster_by_bucket-IsCluster :
    (memories : List Memory) (pairs : List GraphPair)
    → All (AnyKnown (ids_of memories)) pairs
    → (clusters : List DuplicateCluster) × (cluster_by_bucket memories pairs
        ≡ returned (clusters, same_bucket_pairs memories pairs))
      × All (IsCluster (ids_of memories) (same_bucket_pairs memories pairs)) clusters
cluster_by_bucket-IsCluster memories pairs h =
    let (found, made, r) = cluster_by_bucket-IsClustered memories pairs h in (found, made, r.right)

union_all-Unknown :
    (keys : List ℕ) (root depth : ℕ → ℕ) (bound fuel : ℕ) (pairs : List GraphPair) (parent : ℕ → ℕ)
    (q : GraphPair)
    → Forest keys root depth bound parent
    → All (λ p. Known keys p ⊎ Unknown keys p) pairs
    → Among q pairs
    → Unknown keys q
    → bound + length pairs < fuel
    → union_all keys fuel pairs parent ≡ key_error
unfolding union_all union find
union_all-Unknown keys root depth bound fuel [] parent q f k m u h = elim m [ ]
union_all-Unknown keys root depth bound zero (p ∷ pairs) parent q f k m u h =
    absurd (omega (arith, h))
union_all-Unknown keys root depth bound (suc fuel) (p ∷ pairs) parent q f (inr n, ks) m u h =
    rw n.0 refl
union_all-Unknown keys root depth bound (suc fuel) (p ∷ pairs) parent q f (inl k, ks) (inl e) u h =
    let broken : mem p.source_id keys ≡ false = rw e at u.0 in absurd (ground (arith, broken, k.0))
union_all-Unknown keys root depth bound (suc fuel) (p ∷ pairs) parent q f (inl k, ks) (inr m) u h =
    let (parent', united, made) =
      union_lem keys root depth bound (suc fuel) p.source_id p.target_id parent f k.0 k.1
        (omega (arith, h)) in
    rw united (
      union_all-Unknown keys made.root' made.depth' (suc bound) (suc fuel) pairs parent' q
        made.forest ks m u (omega (arith, h)))

-- A pair of two memories that are not given passes the test for one bucket, as `None` equals `None`,
-- and `_cluster_by_bucket` raises a KeyError at it.
pub cluster_by_bucket-unknown :
    (memories : List Memory) (pairs : List GraphPair) (q : GraphPair)
    → Among q pairs
    → mem q.source_id (ids_of memories) ≡ false
    → mem q.target_id (ids_of memories) ≡ false
    → cluster_by_bucket memories pairs ≡ key_error
unfolding cluster_by_bucket
cluster_by_bucket-unknown memories pairs q m s t =
    let failed =
      union_all-Unknown (ids_of memories) (λ x. x) (λ x. 0) 0
        (suc (length (same_bucket_pairs memories pairs))) (same_bucket_pairs memories pairs)
        (λ x. x) q (singles (ids_of memories)) (same_bucket_pairs-alike memories pairs)
        (unknown_stays memories q pairs m (s, t)) (s, t) (omega arith) in
    rw failed refl
