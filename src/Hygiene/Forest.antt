-- ===== src/Hygiene/Forest.antt =====
-- The parents of the union-find as a forest: the root and the depth of each node.
use recallum_mcp.Prelude.{
  ℕ, zero, suc, ◌≤◌, ◌<◌, ◌≡◌, ◌≢◌, refl, ◌⊎◌, sym, ◌∙◌, ap, inl, inr, true, false, List, mem, ◌==◌,
  ==_iff, if◌then◌else◌, Bool-cases, arith,
}
use recallum_mcp.Hygiene.{returned, write, find, union}

-- Every path of parents ends in the root of its node, and falls in depth on the way there.
pub record Forest (keys : List ℕ) (root depth : ℕ → ℕ) (bound : ℕ) (parent : ℕ → ℕ) : Type 0 where
  pub end : (x : ℕ) → parent x ≡ x → (root x ≡ x) × (depth x ≡ 0)
  pub same : (x : ℕ) → root (parent x) ≡ root x
  pub top : (x : ℕ) → parent (root x) ≡ root x
  pub falls : (x : ℕ) → parent x ≢ x → depth (parent x) < depth x
  pub low : (x : ℕ) → depth x ≤ bound
  pub closed : (x : ℕ) → mem x keys ≡ true → mem (parent x) keys ≡ true
  pub inside : (x : ℕ) → mem x keys ≡ true → mem (root x) keys ≡ true

-- At first each node is its own parent.
pub singles : (keys : List ℕ) → Forest keys (λ x. x) (λ x. 0) 0 (λ x. x)
singles keys = record {
  end = λ x e. (refl, refl);
  same = λ x. refl;
  top = λ x. refl;
  falls = λ x n. absurd (n refl);
  low = λ x. omega arith;
  closed = λ x k. k;
  inside = λ x k. k;
}

module _ (keys : List ℕ) (root depth : ℕ → ℕ) (bound : ℕ) (parent : ℕ → ℕ)
    (f : Forest keys root depth bound parent) where
  depth-parent : (x : ℕ) → depth (parent x) ≤ depth x
  depth-parent x = elim (Bool-cases (parent x == x)) [
    | inl e ↦ rw ((==_iff (parent x) x).0 e) (omega arith)
    | inr e ↦ omega (arith, f.falls x (λ q. ground (arith, e, q)))
  ]

  -- Path halving keeps the roots and the depths.
  halve-Forest :
      (node : ℕ)
      → mem node keys ≡ true
      → parent node ≢ node
      → Forest keys root depth bound (write node (parent (parent node)) parent)
  halve-Forest node known inner = record {
    end = λ x e. elim (Bool-cases (x == node)) [
      | inl q ↦
          let at : x ≡ node = (==_iff x node).0 q in
          let back : parent (parent node) ≡ node = ground (arith, e, q, at) in
          absurd (omega (arith, f.falls node inner, depth-parent (parent node), ap depth back))
      | inr q ↦ f.end x (ground (arith, e, q))
    ];
    same = λ x. elim (Bool-cases (x == node)) [
      | inl q ↦ rw (q, (==_iff x node).0 q) (f.same (parent node) ∙ f.same node)
      | inr q ↦ rw q (f.same x)
    ];
    top = λ x. elim (Bool-cases (root x == node)) [
      | inl q ↦
          let at : root x ≡ node = (==_iff (root x) node).0 q in
          let t : parent node ≡ node = rw at at (f.top x) in absurd (inner t)
      | inr q ↦ rw q (f.top x)
    ];
    falls = λ x n. elim (Bool-cases (x == node)) [
      | inl q ↦
          rw (q, (==_iff x node).0 q)
            (omega (arith, f.falls node inner, depth-parent (parent node)))
      | inr q ↦ rw q (f.falls x (λ e. n (ground (arith, e, q))))
    ];
    low = f.low;
    closed = λ x k. elim (Bool-cases (x == node)) [
      | inl q ↦ rw q (f.closed (parent node) (f.closed node known))
      | inr q ↦ rw q (f.closed x k)
    ];
    inside = f.inside;
  }

-- A find of a known node with fuel above its depth returns its root and a forest of the same roots.
pub find_lem :
    (keys : List ℕ) (root depth : ℕ → ℕ) (bound fuel node : ℕ) (parent : ℕ → ℕ)
    → Forest keys root depth bound parent
    → mem node keys ≡ true
    → depth node < fuel
    → (q : ℕ → ℕ) × (find keys fuel node parent ≡ returned (root node, q))
      × Forest keys root depth bound q
unfolding find
find_lem keys root depth bound zero node parent f known h = absurd (omega (arith, h))
find_lem keys root depth bound (suc fuel) node parent f known h =
    elim (Bool-cases (parent node == node)) [
      | inl e ↦
          let at : node ≡ root node = sym (f.end node ((==_iff (parent node) node).0 e)).0 in
          (parent, rw (known, e) (ap (λ (r : ℕ). returned (r, parent)) at), f)
      | inr e ↦
          let inner : parent node ≢ node = λ q. ground (arith, e, q) in
          let moved : write node (parent (parent node)) parent node ≡ parent (parent node) =
            rw ((==_iff node node).1 refl) refl in
          let less = depth-parent keys root depth bound parent f (parent node) in
          let falls = f.falls node inner in
          let (q, found, g) =
            find_lem keys root depth bound fuel (write node (parent (parent node)) parent node)
              (write node (parent (parent node)) parent)
              (halve-Forest keys root depth bound parent f node known inner)
              (rw moved (f.closed (parent node) (f.closed node known)))
              (rw moved (omega (arith, less, falls, h))) in
          let at : root (write node (parent (parent node)) parent node) ≡ root node =
            rw moved (f.same (parent node) ∙ f.same node) in
          (q, rw (known, e, f.closed node known) (found ∙ ap (λ (r : ℕ). returned (r, q)) at), g)
    ]

-- The roots and the depths once the tree of the root b hangs on the root a.
abbrev pub hung : ℕ → ℕ → (ℕ → ℕ) → ℕ → ℕ
hung a b root x = if root x == b then a else root x

abbrev pub hung_depth : ℕ → (ℕ → ℕ) → (ℕ → ℕ) → ℕ → ℕ
hung_depth b root depth x = if root x == b then suc (depth x) else depth x

module _ (keys : List ℕ) (root depth : ℕ → ℕ) (bound a b : ℕ) (parent : ℕ → ℕ)
    (f : Forest keys root depth bound parent) (at_a : parent a ≡ a) (at_b : parent b ≡ b)
    (apart : (a == b) ≡ false) (known : mem a keys ≡ true) where
  hang-Forest : Forest keys (hung a b root) (hung_depth b root depth) (suc bound) (write b a parent)
  hang-Forest = record {
    end = λ x e. elim (Bool-cases (x == b)) [
      | inl q ↦ absurd (ground (arith, e, q, apart))
      | inr q ↦
          let (r, d) = f.end x (ground (arith, e, q)) in
          let s : (root x == b) ≡ false = rw r q in (rw s r, rw s d)
    ];
    same = λ x. elim (Bool-cases (x == b)) [
      | inl q ↦
          let r : root x ≡ b = rw ((==_iff x b).0 q) (f.end b at_b).0 in
          let s : root a ≡ a = (f.end a at_a).0 in ground (arith, q, r, s, apart)
      | inr q ↦ rw (q, f.same x) refl
    ];
    top = λ x. elim (Bool-cases (root x == b)) [
      | inl q ↦ rw (q, apart) at_a
      | inr q ↦ rw (q, q) (f.top x)
    ];
    falls = λ x n. elim (Bool-cases (x == b)) [
      | inl q ↦
          let r : root x ≡ b = rw ((==_iff x b).0 q) (f.end b at_b).0 in
          let (s, d) = f.end a at_a in ground (arith, q, r, s, d, apart)
      | inr q ↦
          let d = f.falls x (λ e. n (ground (arith, e, q))) in
          let s = f.same x in ground (arith, q, d, s)
    ];
    low = λ x. ground (arith, f.low x);
    closed = λ x k. elim (Bool-cases (x == b)) [ inl q ↦ rw q known | inr q ↦ rw q (f.closed x k) ];
    inside =
        λ x k. elim (Bool-cases (root x == b)) [ inl q ↦ rw q known | inr q ↦ rw q (f.inside x k) ];
  }

-- A deeper bound holds as well.
Forest-suc :
    (keys : List ℕ) (root depth : ℕ → ℕ) (bound : ℕ) (parent : ℕ → ℕ)
    → Forest keys root depth bound parent
    → Forest keys root depth (suc bound) parent
Forest-suc keys root depth bound parent f = record {
  end = f.end;
  same = f.same;
  top = f.top;
  falls = f.falls;
  low = λ x. omega (arith, f.low x);
  closed = f.closed;
  inside = f.inside;
}

-- What a union of a and b makes of a forest: a forest whose roots join the two, and no others.
pub record Union (keys : List ℕ) (root : ℕ → ℕ) (bound a b : ℕ) (parent : ℕ → ℕ) : Type 0 where
  pub root' : ℕ → ℕ
  pub depth' : ℕ → ℕ
  pub forest : Forest keys root' depth' (suc bound) parent
  pub joined : root' a ≡ root' b
  pub coarser : (x y : ℕ) → root x ≡ root y → root' x ≡ root' y
  pub only : (x : ℕ) → (root' x ≡ root x) ⊎ ((root x ≡ root b) × (root' x ≡ root a))

hung_Union :
    (keys : List ℕ) (root depth : ℕ → ℕ) (bound a b : ℕ) (parent : ℕ → ℕ)
    → Forest keys root depth bound parent
    → mem a keys ≡ true
    → (root a == root b) ≡ false
    → Union keys root bound a b (write (root b) (root a) parent)
hung_Union keys root depth bound a b parent f known apart = record {
  root' = hung (root a) (root b) root;
  depth' = hung_depth (root b) root depth;
  forest =
      hang-Forest keys root depth bound (root a) (root b) parent f (f.top a) (f.top b) apart
        (f.inside a known);
  joined = rw (apart, (==_iff (root b) (root b)).1 refl) refl;
  coarser = λ x y e. rw e refl;
  only = λ x. elim (Bool-cases (root x == root b)) [
    | inl q ↦ inr ((==_iff (root x) (root b)).0 q, rw q refl)
    | inr q ↦ inl (rw q refl)
  ];
}

pub union_lem :
    (keys : List ℕ) (root depth : ℕ → ℕ) (bound fuel a b : ℕ) (parent : ℕ → ℕ)
    → Forest keys root depth bound parent
    → mem a keys ≡ true
    → mem b keys ≡ true
    → bound < fuel
    → (q : ℕ → ℕ) × (union keys fuel a b parent ≡ returned q) × Union keys root bound a b q
unfolding union
union_lem keys root depth bound fuel a b parent f known_a known_b h =
    let (p, found_a, g) =
      find_lem keys root depth bound fuel a parent f known_a (omega (arith, f.low a, h)) in
    let (q, found_b, k) =
      find_lem keys root depth bound fuel b p g known_b (omega (arith, f.low b, h)) in
    elim (Bool-cases (root a == root b)) [
      | inl e ↦ (
        q,
        rw (found_a, found_b, e) refl,
        record {
          root' = root;
          depth' = depth;
          forest = Forest-suc keys root depth bound q k;
          joined = (==_iff (root a) (root b)).0 e;
          coarser = λ x y s. s;
          only = λ x. inl refl;
        },
      )
      | inr e ↦ (
        write (root b) (root a) q,
        rw (found_a, found_b, e) refl,
        hung_Union keys root depth bound a b q k known_a e,
      )
    ]
