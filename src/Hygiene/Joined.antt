-- ===== src/Hygiene/Joined.antt =====
-- The loop of unions: two nodes have one root exactly when the pairs connect them.
use recallum_mcp.Prelude.{
  All, Among, All-at, All-Among, ℕ, suc, ◌+◌, ◌<◌, ◌≡◌, ◌↔◌, refl, sym, ◌∙◌, inl, inr, true, List,
  [], ◌∷◌, length, mem, arith,
}
use recallum_mcp.Hygiene.{GraphPair, returned, union_all}
use recallum_mcp.Hygiene.Forest.{Forest, Union, singles, union_lem}

-- The least equivalence that relates the ends of each pair.
pub data Connected (pairs : List GraphPair) : ℕ → ℕ → Type 0 where
  itself : (x : ℕ) → Connected pairs x x
  back : {x y : ℕ} → Connected pairs x y → Connected pairs y x
  onward : {x y z : ℕ} → Connected pairs x y → Connected pairs y z → Connected pairs x z
  linked : (q : GraphPair) → Among q pairs → Connected pairs q.source_id q.target_id

-- Both ends of the pair are keys.
abbrev pub Known : List ℕ → GraphPair → Type 0
Known keys q = (mem q.source_id keys ≡ true) × (mem q.target_id keys ≡ true)

abbrev pub SameRoot : (ℕ → ℕ) → GraphPair → Type 0
SameRoot root q = root q.source_id ≡ root q.target_id

-- What the loop leaves: a forest whose roots are joined by each pair, and connected to their nodes.
pub record Roots (keys : List ℕ) (all pairs : List GraphPair) (fuel : ℕ) (start : ℕ → ℕ)
    (parent : ℕ → ℕ) : Type 0 where
  pub root : ℕ → ℕ
  pub depth : ℕ → ℕ
  pub bound : ℕ
  pub enough : bound < fuel
  pub forest : Forest keys root depth bound parent
  pub joined : All (SameRoot root) pairs
  pub coarser : (x y : ℕ) → start x ≡ start y → root x ≡ root y
  pub reached : (x : ℕ) → Connected all x (root x)

-- A union of a pair's ends connects no nodes that the pair does not.
Union-reached :
    (keys : List ℕ) (all : List GraphPair) (root : ℕ → ℕ) (bound : ℕ) (pair : GraphPair)
    (parent : ℕ → ℕ) (u : Union keys root bound pair.source_id pair.target_id parent)
    → ((x : ℕ) → Connected all x (root x))
    → Among pair all
    → (x : ℕ) → Connected all x (u.root' x)
Union-reached keys all root bound pair parent u reached m x = elim (u.only x) [
  | inl e ↦ rw e (reached x)
  | inr (e, s) ↦
      let there : Connected all x (root pair.target_id) = rw e at (reached x) in
      rw s (
        onward (onward there (back (reached pair.target_id)))
          (onward (back (linked pair m)) (reached pair.source_id)))
]

pub union_all_lem :
    (keys : List ℕ) (all : List GraphPair) (fuel : ℕ) (pairs : List GraphPair) (root depth : ℕ → ℕ)
    (bound : ℕ) (parent : ℕ → ℕ)
    → Forest keys root depth bound parent
    → ((x : ℕ) → Connected all x (root x))
    → All (Known keys) pairs
    → All (λ q. Among q all) pairs
    → bound + length pairs < fuel
    → (q : ℕ → ℕ) × (union_all keys fuel pairs parent ≡ returned q)
      × Roots keys all pairs fuel root q
unfolding union_all
union_all_lem keys all fuel [] root depth bound parent f r k a h = (
  parent,
  refl,
  record {
    root = root;
    depth = depth;
    bound = bound;
    enough = omega (arith, h);
    forest = f;
    joined = tt;
    coarser = λ x y e. e;
    reached = r;
  },
)
union_all_lem keys all fuel (pair ∷ pairs) root depth bound parent f r (k, ks) (a, rest) h =
    let (p, united, u) =
      union_lem keys root depth bound fuel pair.source_id pair.target_id parent f k.0 k.1
        (omega (arith, h)) in
    let (q, done, s) =
      union_all_lem keys all fuel pairs u.root' u.depth' (suc bound) p u.forest
        (Union-reached keys all root bound pair p u r a) ks rest (omega (arith, h)) in
    (
      q,
      rw united done,
      record {
        root = s.root;
        depth = s.depth;
        bound = s.bound;
        enough = s.enough;
        forest = s.forest;
        joined = (s.coarser pair.source_id pair.target_id u.joined, s.joined);
        coarser = λ x y e. s.coarser x y (u.coarser x y e);
        reached = s.reached;
      },
    )

pub Connected-root :
    (pairs : List GraphPair) (root : ℕ → ℕ)
    → All (SameRoot root) pairs
    → {x y : ℕ} → Connected pairs x y
    → root x ≡ root y
Connected-root pairs root h (itself x) = refl
Connected-root pairs root h (back c) = sym (Connected-root pairs root h c)
Connected-root pairs root h (onward c d) =
    Connected-root pairs root h c ∙ Connected-root pairs root h d
Connected-root pairs root h (linked q m) = All-at (SameRoot root) q pairs h m

pub root-Connected :
    (pairs : List GraphPair) (root : ℕ → ℕ)
    → ((x : ℕ) → Connected pairs x (root x))
    → (x y : ℕ) → root x ≡ root y
    → Connected pairs x y
root-Connected pairs root r x y e =
    let there : Connected pairs x (root y) = rw e at (r x) in onward there (back (r y))

-- The union-find over pairs of keys ends in a forest whose roots decide what the pairs connect.
pub union_all-Connected :
    (keys : List ℕ) (pairs : List GraphPair)
    → All (Known keys) pairs
    → (q : ℕ → ℕ) × (union_all keys (suc (length pairs)) pairs (λ x. x) ≡ returned q)
      × (s : Roots keys pairs pairs (suc (length pairs)) (λ x. x) q) × ((x y : ℕ)
          → (s.root x ≡ s.root y) ↔ Connected pairs x y)
union_all-Connected keys pairs known =
    let (q, done, s) =
      union_all_lem keys pairs (suc (length pairs)) pairs (λ x. x) (λ x. 0) 0 (λ x. x)
        (singles keys) (λ x. itself x) known (All-Among pairs) (omega arith) in
    (
      q,
      done,
      s,
      λ x y. (root-Connected pairs s.root s.reached x y, Connected-root pairs s.root s.joined),
    )
