-- ===== src/Hygiene.antt =====
-- The duplicate clusters of hygiene.py: `_cluster_by_bucket` with its union-find, and
-- `_find_contradictions`. A dictionary from identifiers to identifiers is its keys and a function; a
-- look-up of a key that it does not have is a KeyError. A similarity is a number: only the order of
-- similarities counts. Each loop of `find` has fuel.
use Prim.Native.Char.{code}
use Prim.Native.String.{String}
use recallum_mcp.Prelude.{
  ℕ, zero, suc, min, max, Bool, true, false, not, ◌&&◌, ◌||◌, Option, none, some, List, [], ◌∷◌,
  ◌++◌, map, length, keep, mem, sort_by, ltb, ◌==◌, if◌then◌else◌,
}
use recallum_mcp.Model.{Memory, Scope}
use recallum_mcp.Visibility.{is_global, is_project, same_project}
mod Forest
mod Joined
mod Grouped
mod Gathered
mod Clustered
mod Whole
mod Exact
pub mod Contradictions
mod Examples

-- What a computation ends with.
pub data Run (A : Type 0) : Type 0 where
  returned : A → Run A
  key_error out_of_fuel : Run A

infixl 5 ◌>>=◌
abbrev pub ◌>>=◌ : {A B : Type 0} → Run A → (A → Run B) → Run B
returned a >>= f = f a
key_error >>= f = key_error
out_of_fuel >>= f = out_of_fuel

pub record GraphPair : Type 0 where
  pub source_id : ℕ
  pub target_id : ℕ
  pub similarity : ℕ

pub record Bucket : Type 0 where
  pub scope : Scope
  pub project : Option String

pub record DuplicateCluster : Type 0 where
  pub bucket : Bucket
  pub members : List Memory
  pub min_similarity : ℕ
  pub max_similarity : ℕ

abbrev pub bucket_of : Memory → Bucket
bucket_of memory = record { scope = memory.scope; project = memory.project }

-- `by_id.get(id)`: the last memory of the identifier.
abbrev pub by_id : ℕ → List Memory → Option Memory
by_id id [] = none
by_id id (m ∷ memories) =
    let rest = by_id id memories in
    elim rest [ some x ↦ some x | none ↦ if m.id == id then some m else none ]

abbrev pub ids_of : List Memory → List ℕ
ids_of = map (λ m. m.id)

abbrev pub same_bucket : Bucket → Bucket → Bool
same_bucket a b =
    (is_global a.scope && is_global b.scope || is_project a.scope && is_project b.scope)
    && same_project a.project b.project

-- `bucket_of.get(a) == bucket_of.get(b)`, where two identifiers that are not known are equal.
abbrev pub same_found : Option Memory → Option Memory → Bool
same_found none none = true
same_found (some a) (some b) = same_bucket (bucket_of a) (bucket_of b)
same_found _ _ = false

unfoldable pub same_bucket_pairs : List Memory → List GraphPair → List GraphPair
same_bucket_pairs memories =
    keep (λ pair. same_found (by_id pair.source_id memories) (by_id pair.target_id memories))

-- `parent[node] = value`
abbrev pub write : ℕ → ℕ → (ℕ → ℕ) → ℕ → ℕ
write node value parent x = if x == node then value else parent x

-- The loop with path halving. It returns the root and the dictionary that it leaves.
unfoldable pub find : List ℕ → ℕ → ℕ → (ℕ → ℕ) → Run (ℕ × (ℕ → ℕ))
find keys zero node parent = out_of_fuel
find keys (suc fuel) node parent =
    let halved = write node (parent (parent node)) parent in
    let rest = find keys fuel (halved node) halved in
    if not (mem node keys)
    then key_error
    else if parent node == node
    then returned (node, parent)
    else if not (mem (parent node) keys)
    then key_error
    else rest

unfoldable pub union : List ℕ → ℕ → ℕ → ℕ → (ℕ → ℕ) → Run (ℕ → ℕ)
union keys fuel a b parent = do
  root_a ← find keys fuel a parent
  root_b ← find keys fuel b root_a.1
  if root_a.0 == root_b.0 then returned root_b.1 else returned (write root_b.0 root_a.0 root_b.1)

unfoldable pub union_all : List ℕ → ℕ → List GraphPair → (ℕ → ℕ) → Run (ℕ → ℕ)
union_all keys fuel [] parent = returned parent
union_all keys fuel (pair ∷ pairs) parent =
    union keys fuel pair.source_id pair.target_id parent >>= union_all keys fuel pairs

-- `groups[root].append(id)`, in the order in which the roots come.
abbrev pub append_to : ℕ → ℕ → List (ℕ × List ℕ) → List (ℕ × List ℕ)
append_to root id [] = (root, id ∷ []) ∷ []
append_to root id ((r, ids) ∷ groups) =
    if r == root then (r, ids ++ (id ∷ [])) ∷ groups else (r, ids) ∷ append_to root id groups

-- The loop that groups the identifiers by their roots.
unfoldable pub group_all :
    List ℕ → ℕ → List ℕ → (ℕ → ℕ) → List (ℕ × List ℕ) → Run (List (ℕ × List ℕ))
group_all keys fuel [] parent groups = returned groups
group_all keys fuel (id ∷ ids) parent groups = do
  root ← find keys fuel id parent
  group_all keys fuel ids root.1 (append_to root.0 id groups)

-- `[by_id[i] for i in ids]`
unfoldable pub look_up : List Memory → List ℕ → Run (List Memory)
look_up memories [] = returned []
look_up memories (id ∷ ids) = elim (by_id id memories) [
  | none ↦ key_error
  | some m ↦ look_up memories ids >>= λ rest. returned (m ∷ rest)
]

abbrev pub sims_of : List ℕ → List GraphPair → List ℕ
sims_of ids pairs =
    map (λ (pair : GraphPair). pair.similarity)
      (keep (λ pair. mem pair.source_id ids && mem pair.target_id ids) pairs)

abbrev pub least : ℕ → List ℕ → ℕ
least s [] = s
least s (x ∷ sims) = min s (least x sims)

abbrev pub greatest : ℕ → List ℕ → ℕ
greatest s [] = s
greatest s (x ∷ sims) = max s (greatest x sims)

-- `sorted(…, key=lambda m: str(m.id))`
abbrev pub by_text_of_id : Memory → Memory → Bool
by_text_of_id a b = ltb a.id b.id

-- The cluster of the members that were looked up, of which the first gives the bucket.
unfoldable pub cluster_of : List Memory → List ℕ → List DuplicateCluster
cluster_of [] sims = []
cluster_of (m ∷ members) [] = []
cluster_of (m ∷ members) (s ∷ sims) =
    record {
      bucket = bucket_of m;
      members = sort_by by_text_of_id (m ∷ members);
      min_similarity = least s sims;
      max_similarity = greatest s sims;
    }
    ∷ []

-- The last loop, over the groups; a group of one and a group with no pair are left out.
unfoldable pub clusters_of :
    List Memory → List GraphPair → List (ℕ × List ℕ) → Run (List DuplicateCluster)
clusters_of memories pairs [] = returned []
clusters_of memories pairs ((root, ids) ∷ groups) = do
  rest ← clusters_of memories pairs groups
  if ltb (length ids) 2
      then returned rest
      else (look_up memories ids >>= λ members.
          returned (cluster_of members (sims_of ids pairs) ++ rest))

-- `<` of two texts, by their code points.
unfoldable pub text_before : String → String → Bool
text_before s String.[] = false
text_before String.[] (String.◌∷◌ d t) = true
text_before (String.◌∷◌ c s) (String.◌∷◌ d t) =
    ltb (code c) (code d) || (code c == code d && text_before s t)

abbrev pub project_or_empty : Option String → String
project_or_empty none = ""
project_or_empty (some p) = p

abbrev pub first_id : DuplicateCluster → ℕ
first_id c = elim c.members [ [] ↦ 0 | m ∷ _ ↦ m.id ]

-- The order of the clusters: the scope's text, the project, the text of the first member's id.
unfoldable pub cluster_before : DuplicateCluster → DuplicateCluster → Bool
unfolding text_before
cluster_before c d =
    let p = project_or_empty c.bucket.project in
    let q = project_or_empty d.bucket.project in
    is_global c.bucket.scope && is_project d.bucket.scope
    || ((is_global c.bucket.scope && is_global d.bucket.scope
          || is_project c.bucket.scope && is_project d.bucket.scope)
        && (text_before p q || (not (text_before q p) && ltb (first_id c) (first_id d))))

-- Fuel that is enough for each `find`: a union makes a path longer by one at most.
abbrev pub fuel_for : List GraphPair → ℕ
fuel_for pairs = suc (length pairs)

unfoldable pub cluster_by_bucket :
    List Memory → List GraphPair → Run (List DuplicateCluster × List GraphPair)
cluster_by_bucket memories all_pairs =
    let pairs = same_bucket_pairs memories all_pairs in
    let fuel = fuel_for pairs in
    let keys = ids_of memories in
    union_all keys fuel pairs (λ id. id) >>= λ parent.
    group_all keys fuel keys parent [] >>= λ groups.
    clusters_of memories pairs groups >>= λ clusters.
    returned (sort_by cluster_before clusters, pairs)
