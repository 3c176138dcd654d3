-- ===== src/Hygiene/Whole.antt =====
-- The clusters of all groups.
use recallum_mcp.Prelude.{
  All, All-map, All-append, ℕ, ◌≤◌, ◌<◌, ◌≡◌, ◌≢◌, refl, sym, ◌∙◌, ap, inl, inr, Bool, true, false,
  ◌&&◌, List, [], ◌∷◌, ◌++◌, length, mem, any_of, any_of-append, ltb, ◌==◌, ==_iff, Bool-cases,
  List-cases, arith, some,
}
use recallum_mcp.Model.{Memory}
use recallum_mcp.Hygiene.{
  Bucket, GraphPair, DuplicateCluster, returned, bucket_of, by_id, ids_of, same_bucket_pairs,
  look_up, sims_of, cluster_of, clusters_of,
}
use recallum_mcp.Hygiene.Joined.{Connected, Known, SameRoot, root-Connected}
use recallum_mcp.Hygiene.Grouped.{Groups, Grouped, of_root}
use recallum_mcp.Hygiene.Gathered.{bucket_found, Connected-bucket, look_up_lem, bucket_known}
use recallum_mcp.Hygiene.Clustered.{
  holds, together, IsCluster, mem-of_root, holds-sorted, sorted-IsCluster, no_sims,
}

pub All-of_mem : (P : ℕ → Type 0) (xs : List ℕ) → ((x : ℕ) → mem x xs ≡ true → P x) → All P xs
All-of_mem P [] h = tt
All-of_mem P (x ∷ xs) h =
    (h x (ground (arith, ==_iff x x)), All-of_mem P xs (λ y m. h y (ground (arith, m))))

-- Fewer than two identifiers are no two.
few_mem : (x y : ℕ) (ids : List ℕ) → length ids < 2 → x ≢ y → (mem x ids && mem y ids) ≡ false
few_mem x y [] h n = refl
few_mem x y (i ∷ []) h n = elim (Bool-cases (i == x)) [
  | inl e ↦ elim (Bool-cases (i == y)) [
    | inl f ↦ absurd (n (ground (arith, e, f)))
    | inr f ↦ ground (arith, f)
  ]
  | inr e ↦ ground (arith, e)
]
few_mem x y (i ∷ j ∷ ids) h n = absurd (omega (arith, h))

length-ids_of : (members : List Memory) → length (ids_of members) ≡ length members
length-ids_of [] = refl
length-ids_of (m ∷ members) = omega (arith, length-ids_of members)

-- Some group has both identifiers.
abbrev pub grouped : ℕ → ℕ → Groups → Bool
grouped x y = any_of (λ group. mem x group.1 && mem y group.1)

module _ (memories : List Memory) (all : List GraphPair) (root : ℕ → ℕ)
    (known : All (Known (ids_of memories)) (same_bucket_pairs memories all))
    (joined : All (SameRoot root) (same_bucket_pairs memories all))
    (reached : (x : ℕ) → Connected (same_bucket_pairs memories all) x (root x)) where
  -- The members of a group are looked up, and are of one bucket.
  members_lem :
      (r id : ℕ) (ids : List ℕ)
      → of_root root r (ids_of memories) ≡ id ∷ ids
      → (b : Bucket) × (members : List Memory) × (look_up memories
            (of_root root r (ids_of memories))
          ≡ returned members)
        × (ids_of members ≡ of_root root r (ids_of memories))
        × All (λ m. bucket_of m ≡ b) members
  members_lem r id ids e =
      let here : mem id (of_root root r (ids_of memories)) ≡ true =
        rw e (ground (arith, ==_iff id id)) in
      let at = mem-of_root root r id (ids_of memories) in
      let (b, found) = bucket_known id memories (ground (arith, at, here)) in
      let (members, looked, same, own) = look_up_lem memories b (of_root root r (ids_of memories)) (
        All-of_mem (λ x. bucket_found (by_id x memories) ≡ some b)
          (of_root root r (ids_of memories))
          (λ x m.
            let at_x = mem-of_root root r x (ids_of memories) in
            let own : root id ≡ r = ground (arith, at, here, ==_iff (root id) r) in
            let own_x : root x ≡ r = ground (arith, at_x, m, ==_iff (root x) r) in
            Connected-bucket memories all
              (root-Connected (same_bucket_pairs memories all) root reached x id (own_x ∙ sym own))
            ∙ found)) in
      (b, members, looked, same, own)

  abbrev IsRight : List ℕ → List DuplicateCluster → Type 0
  IsRight ids clusters =
      All (IsCluster (ids_of memories) (same_bucket_pairs memories all)) clusters
      × ((x y : ℕ) → x ≢ y → together x y clusters ≡ mem x ids && mem y ids)

  cluster_of-IsRight :
      (r : ℕ) (b : Bucket) (members : List Memory)
      → ids_of members ≡ of_root root r (ids_of memories)
      → All (λ m. bucket_of m ≡ b) members
      → 2 ≤ length members
      → IsRight (of_root root r (ids_of memories)) (
          cluster_of members
            (sims_of (of_root root r (ids_of memories)) (same_bucket_pairs memories all)))
  unfolding cluster_of
  cluster_of-IsRight r b [] same own two = absurd (omega (arith, two))
  cluster_of-IsRight r b (m ∷ members) same own two =
      let keys = ids_of memories in
      elim (List-cases
        (sims_of (of_root root r (ids_of memories)) (same_bucket_pairs memories all))) [
          | inl e ↦ rw e (
            tt,
            λ x y n. sym (
                no_sims (ids_of memories) (same_bucket_pairs memories all) root known joined reached
                  r (m ∷ members) same e x y n),
          )
          | inr (s, sims, e) ↦ rw e (
            (
              sorted-IsCluster (ids_of memories) (same_bucket_pairs memories all) root known joined
                  reached r (m ∷ members) same (bucket_of m) s sims
                  (All-map (λ x. bucket_of x ≡ b) (λ x. bucket_of x ≡ bucket_of m)
                    (λ x f. f ∙ sym own.0) (m ∷ members) own)
                  two e,
              tt,
            ),
            λ x y n.
                let at_x =
                  holds-sorted (ids_of memories) (same_bucket_pairs memories all) root known joined
                    reached r (m ∷ members) same x in
                let at_y =
                  holds-sorted (ids_of memories) (same_bucket_pairs memories all) root known joined
                    reached r (m ∷ members) same y in
                ground (
                  arith,
                  at_x,
                  at_y,
                  mem-of_root root r x (ids_of memories),
                  mem-of_root root r y (ids_of memories),
                ),
          )
        ]

  -- What the loop over the groups makes of them.
  pub record IsMade (groups : Groups) (clusters : List DuplicateCluster) : Type 0 where
    pub right : All (IsCluster (ids_of memories) (same_bucket_pairs memories all)) clusters
    pub both : (x y : ℕ) → x ≢ y → together x y clusters ≡ grouped x y groups

  pub clusters_of_lem :
      (groups : Groups)
      → Grouped root (ids_of memories) groups
      → (clusters : List DuplicateCluster) × (clusters_of memories
            (same_bucket_pairs memories all)
            groups
          ≡ returned clusters)
        × IsMade groups clusters
  unfolding clusters_of
  clusters_of_lem [] g = ([], refl, record { right = tt; both = λ x y n. refl })
  clusters_of_lem ((r, ids) ∷ groups) (e, _, g) =
      let (rest, made, m) = clusters_of_lem groups g in
      elim (Bool-cases (ltb (length ids) 2)) [
        | inl few ↦ (
          rest,
          rw (made, few) refl,
          record {
            right = m.right;
            both = λ x y n. ground (arith, m.both x y n, few_mem x y ids (ground (arith, few)) n);
          },
        )
        | inr many ↦ elim (List-cases ids) [
          | inl none_left ↦ absurd (ground (arith, many, none_left))
          | inr (id, others, f) ↦
              let (b, members, looked, same, own) = members_lem r id others (sym e ∙ f) in
              let enough : 2 ≤ length ids = ground (arith, many) in
              let two : 2 ≤ length members =
                omega (arith, length-ids_of members, ap length same, ap length e, enough) in
              let (right, both) = cluster_of-IsRight r b members same own two in
              (
                cluster_of members (sims_of ids (same_bucket_pairs memories all)) ++ rest,
                rw (made, many, e, looked) refl,
                record {
                  right = rw e (
                      All-append (IsCluster (ids_of memories) (same_bucket_pairs memories all))
                        (cluster_of members (
                          sims_of (of_root root r (ids_of memories))
                            (same_bucket_pairs memories all)))
                        rest right m.right);
                  both = λ x y n. rw e (
                      any_of-append (λ c. holds x c && holds y c)
                        (cluster_of members (
                          sims_of (of_root root r (ids_of memories))
                            (same_bucket_pairs memories all)))
                        rest
                      ∙ rw (both x y n, m.both x y n) refl);
                },
              )
        ]
      ]
