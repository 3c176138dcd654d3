-- ===== src/Hygiene/Clustered.antt =====
-- From a group to its cluster.
use recallum_mcp.Prelude.{
  All-at, Among, All, AllPairs, AllPairs-map, AllPairs-any, Rising, sort_by-Rising, sort_by-All, ℕ,
  ◌≤◌, ◌≡◌, ◌≢◌, ◌↔◌, refl, sym, ◌∙◌, ap, inl, inr, Bool, true, false, ◌&&◌, List, [], ◌∷◌, length,
  mem, any_of, sort_by, any_of-sort_by, length-sort_by, ◌==◌, ==_iff, Bool-cases, arith,
}
use recallum_mcp.Model.{Memory}
use recallum_mcp.Hygiene.{
  Bucket, GraphPair, DuplicateCluster, bucket_of, ids_of, by_text_of_id, sims_of, least, greatest,
}
use recallum_mcp.Hygiene.Joined.{
  Connected, itself, back, onward, linked, Known, SameRoot, Connected-root, root-Connected,
}
use recallum_mcp.Hygiene.Grouped.{of_root}

-- The cluster has the memory of the identifier, and some cluster has both.
abbrev pub holds : ℕ → DuplicateCluster → Bool
holds x c = any_of (λ m. m.id == x) c.members

abbrev pub together : ℕ → ℕ → List DuplicateCluster → Bool
together x y = any_of (λ c. holds x c && holds y c)

-- What is right of a cluster: two members or more, in the order of their identifiers and all of its
-- bucket; a member with all that the pairs connect to it; and the range of its pairs' similarities.
pub record IsCluster (keys : List ℕ) (pairs : List GraphPair) (c : DuplicateCluster) : Type 0 where
  pub several : 2 ≤ length c.members
  pub ascending : AllPairs (λ a b. a.id ≤ b.id) c.members
  pub one_bucket : All (λ m. bucket_of m ≡ c.bucket) c.members
  pub whole :
      (x y : ℕ) → holds x c ≡ true → mem y keys ≡ true → (holds y c ≡ true) ↔ Connected pairs x y
  pub range :
      (q : GraphPair)
      → Among q pairs
      → holds q.source_id c ≡ true
      → holds q.target_id c ≡ true
      → (c.min_similarity ≤ q.similarity) × (q.similarity ≤ c.max_similarity)

any_of-ids : (x : ℕ) (ms : List Memory) → any_of (λ m. m.id == x) ms ≡ mem x (ids_of ms)
any_of-ids x [] = refl
any_of-ids x (m ∷ ms) = ground (arith, any_of-ids x ms)

pub mem-of_root :
    (root : ℕ → ℕ) (r x : ℕ) (ids : List ℕ)
    → mem x (of_root root r ids) ≡ mem x ids && (root x == r)
mem-of_root root r x [] = refl
mem-of_root root r x (i ∷ ids) =
    let rest = mem-of_root root r x ids in
    elim (Bool-cases (i == x)) [
      | inl q ↦
          let at : i ≡ x = (==_iff i x).0 q in
          let own : (root i == r) ≡ (root x == r) = ap (λ (k : ℕ). root k == r) at in
          ground (arith, q, own, rest)
      | inr q ↦ ground (arith, q, rest)
    ]

pub least-le : (s x : ℕ) (sims : List ℕ) → Among x (s ∷ sims) → least s sims ≤ x
least-le s x [] (inl e) = omega (arith, e)
least-le s x [] (inr m) = elim m [ ]
least-le s x (t ∷ sims) (inl e) = omega (arith, e)
least-le s x (t ∷ sims) (inr m) = omega (arith, least-le t x sims m)

le-greatest : (s x : ℕ) (sims : List ℕ) → Among x (s ∷ sims) → x ≤ greatest s sims
le-greatest s x [] (inl e) = omega (arith, e)
le-greatest s x [] (inr m) = elim m [ ]
le-greatest s x (t ∷ sims) (inl e) = omega (arith, e)
le-greatest s x (t ∷ sims) (inr m) = omega (arith, le-greatest t x sims m)

sims_of-Among :
    (ids : List ℕ) (q : GraphPair) (pairs : List GraphPair)
    → Among q pairs
    → mem q.source_id ids ≡ true
    → mem q.target_id ids ≡ true
    → Among q.similarity (sims_of ids pairs)
sims_of-Among ids q [] m s t = elim m [ ]
sims_of-Among ids q (p ∷ pairs) (inl e) s t =
    let s' : mem p.source_id ids ≡ true = rw e at s in
    let t' : mem p.target_id ids ≡ true = rw e at t in rw (s', t', e) (inl refl)
sims_of-Among ids q (p ∷ pairs) (inr m) s t =
    let rest = sims_of-Among ids q pairs m s t in
    elim (Bool-cases (mem p.source_id ids && mem p.target_id ids)) [
      | inl e ↦ rw e (inr rest)
      | inr e ↦ rw e rest
    ]

-- Nodes of a root that no pair has are connected to themselves only.
Connected-alone :
    (pairs : List GraphPair) (root : ℕ → ℕ) (r : ℕ)
    → All (SameRoot root) pairs
    → ((q : GraphPair) → Among q pairs → root q.source_id ≢ r)
    → {x y : ℕ} → Connected pairs x y
    → root x ≡ r
    → x ≡ y
Connected-alone pairs root r same free (itself x) h = refl
Connected-alone pairs root r same free (back c) h =
    sym (Connected-alone pairs root r same free c (Connected-root pairs root same c ∙ h))
Connected-alone pairs root r same free (onward c d) h =
    Connected-alone pairs root r same free c h
    ∙ Connected-alone pairs root r same free d (sym (Connected-root pairs root same c) ∙ h)
Connected-alone pairs root r same free (linked q m) h = absurd (free q m h)

module _ (keys : List ℕ) (pairs : List GraphPair) (root : ℕ → ℕ) (known : All (Known keys) pairs)
    (joined : All (SameRoot root) pairs) (reached : (x : ℕ) → Connected pairs x (root x)) (r : ℕ)
    (members : List Memory) (same : ids_of members ≡ of_root root r keys) where
  pub holds-sorted :
      (x : ℕ)
      → any_of (λ m. m.id == x) (sort_by by_text_of_id members) ≡ mem x keys && (root x == r)
  holds-sorted x =
      any_of-sort_by by_text_of_id (λ m. m.id == x) members
      ∙ any_of-ids x members
      ∙ ap (mem x) same
      ∙ mem-of_root root r x keys

  pub sorted-IsCluster :
      (b : Bucket) (s : ℕ) (sims : List ℕ)
      → All (λ m. bucket_of m ≡ b) members
      → 2 ≤ length members
      → sims_of (of_root root r keys) pairs ≡ s ∷ sims
      → IsCluster keys pairs (record {
        bucket = b;
        members = sort_by by_text_of_id members;
        min_similarity = least s sims;
        max_similarity = greatest s sims;
      })
  sorted-IsCluster b s sims own two e = record {
    several = omega (arith, length-sort_by by_text_of_id members, two);
    ascending =
        AllPairs-map (Rising (λ m. m.id) (λ _ _. Unit {0})) (λ a b. a.id ≤ b.id)
          (λ a b h. ground (arith, h)) (sort_by by_text_of_id members)
          (sort_by-Rising (λ m. m.id) (λ _ _. Unit {0}) members (AllPairs-any members));
    one_bucket = sort_by-All by_text_of_id (λ m. bucket_of m ≡ b) members own;
    whole = λ x y h k.
        let at_x = sym (holds-sorted x) ∙ h in
        let at_y = holds-sorted y in
        let x_root : root x ≡ r = ground (arith, at_x, ==_iff (root x) r) in
        (
          λ g.
              let both = sym at_y ∙ g in
              let y_root : root y ≡ r = ground (arith, both, ==_iff (root y) r) in
              root-Connected pairs root reached x y (x_root ∙ sym y_root),
          λ c.
              let y_root : root y ≡ r = sym (Connected-root pairs root joined c) ∙ x_root in
              at_y ∙ rw (k, (==_iff (root y) r).1 y_root) refl,
        );
    range = λ q m hs ht.
        let s' : mem q.source_id (of_root root r keys) ≡ true =
          mem-of_root root r q.source_id keys ∙ sym (holds-sorted q.source_id) ∙ hs in
        let t' : mem q.target_id (of_root root r keys) ≡ true =
          mem-of_root root r q.target_id keys ∙ sym (holds-sorted q.target_id) ∙ ht in
        let within : Among q.similarity (s ∷ sims) =
          rw e at (sims_of-Among (of_root root r keys) q pairs m s' t') in
        (least-le s q.similarity sims within, le-greatest s q.similarity sims within);
  }

  no_pair :
      sims_of (of_root root r keys) pairs ≡ []
      → (q : GraphPair) → Among q pairs
      → root q.source_id ≢ r
  no_pair e q m h =
      let (s, t) = All-at (Known keys) q pairs known m in
      let h' : root q.target_id ≡ r = sym (All-at (SameRoot root) q pairs joined m) ∙ h in
      let s' : mem q.source_id (of_root root r keys) ≡ true =
        mem-of_root root r q.source_id keys ∙ rw (s, (==_iff (root q.source_id) r).1 h) refl in
      let t' : mem q.target_id (of_root root r keys) ≡ true =
        mem-of_root root r q.target_id keys ∙ rw (t, (==_iff (root q.target_id) r).1 h') refl in
      let within : Among q.similarity [] =
        rw e at (sims_of-Among (of_root root r keys) q pairs m s' t') in
      within

  -- A group with no pair has no two identifiers.
  pub no_sims :
      sims_of (of_root root r keys) pairs ≡ []
      → (x y : ℕ) → x ≢ y
      → (mem x (of_root root r keys) && mem y (of_root root r keys)) ≡ false
  no_sims e x y n = elim (Bool-cases (mem x (of_root root r keys) && mem y (of_root root r keys))) [
    | inr f ↦ f
    | inl both ↦
        let in_x = mem-of_root root r x keys in
        let in_y = mem-of_root root r y keys in
        let x_root : root x ≡ r = ground (arith, both, in_x, ==_iff (root x) r) in
        let y_root : root y ≡ r = ground (arith, both, in_y, ==_iff (root y) r) in
        absurd (
          n (
            Connected-alone pairs root r joined (λ q m h. no_pair e q m h)
              (root-Connected pairs root reached x y (x_root ∙ sym y_root)) x_root))
  ]
