-- ===== src/Hygiene/Contradictions.antt =====
-- `_find_contradictions` and `build_hygiene_report` of hygiene.py. The cues that a content has are a
-- parameter: the numbers of the cues that a regular expression finds, in the order of their texts.
use recallum_mcp.Prelude.{
  Among, ℕ, ◌≤◌, ◌≡◌, ◌⊎◌, refl, ◌∙◌, ap, inl, inr, Bool, true, false, not, ◌&&◌, ◌||◌, Option,
  none, some, List, [], ◌∷◌, ◌++◌, All, All-append, keep, mem, any_of, any_of-append,
  any_of-sort_by, sort_by, sort_by-All, length, ltb, ◌==◌, ==_iff, if◌then◌else◌, Bool-cases,
  Option-cases, List-cases, arith,
}
use recallum_mcp.Model.{Memory}
use recallum_mcp.Hygiene.{
  GraphPair, DuplicateCluster, Run, returned, ◌>>=◌, by_id, least, cluster_by_bucket,
}
use recallum_mcp.Hygiene.Clustered.{least-le}
pub mod Cues

pub record ContradictionCandidate : Type 0 where
  pub with_cue : Memory
  pub without_cue : Memory
  pub similarity : ℕ
  pub cue : ℕ

-- `GraphSnapshot`, less the number of its edges, which the report does not read; and the report.
pub record GraphSnapshot : Type 0 where
  pub memories : List Memory
  pub total : ℕ
  pub pairs : List GraphPair
  pub model_mismatch : Bool

pub record HygieneReport : Type 0 where
  pub clusters : List DuplicateCluster
  pub contradictions : List ContradictionCandidate
  pub scanned : ℕ
  pub capped : Bool
  pub cap : ℕ
  pub model_mismatch : Bool

-- `a - b` for sets of cues
abbrev pub minus : List ℕ → List ℕ → List ℕ
minus a b = keep (λ c. not (mem c b)) a

abbrev pub earlier : ContradictionCandidate → ContradictionCandidate → Bool
earlier c d =
    ltb d.similarity c.similarity
    || (c.similarity == d.similarity
        && (ltb c.with_cue.id d.with_cue.id
            || (c.with_cue.id == d.with_cue.id && ltb c.without_cue.id d.without_cue.id)))

-- `sorted(only)[0]`, with the memory that has the cue and the one that does not.
abbrev pub candidate : ℕ → Memory → Memory → ℕ → List ℕ → ContradictionCandidate
candidate similarity m n cue cues = record {
  with_cue = m;
  without_cue = n;
  similarity = similarity;
  cue = least cue cues;
}

-- The candidate of a pair by the cues that only its source has and those that only its target has.
abbrev pub candidate_by : ℕ → Memory → Memory → List ℕ → List ℕ → List ContradictionCandidate
candidate_by similarity s t (cue ∷ cues) only_target = candidate similarity s t cue cues ∷ []
candidate_by similarity s t [] (cue ∷ cues) = candidate similarity t s cue cues ∷ []
candidate_by similarity s t [] [] = []

module _ (cues_in : List ℕ → List ℕ) where
  unfoldable pub candidate_of : ℕ → Option Memory → Option Memory → List ContradictionCandidate
  candidate_of similarity (some s) (some t) =
      candidate_by similarity s t (minus (cues_in s.content) (cues_in t.content))
        (minus (cues_in t.content) (cues_in s.content))
  candidate_of similarity _ _ = []

  unfoldable pub candidates_of : List Memory → List GraphPair → List ContradictionCandidate
  candidates_of memories [] = []
  candidates_of memories (pair ∷ pairs) =
      candidate_of pair.similarity (by_id pair.source_id memories) (by_id pair.target_id memories)
      ++ candidates_of memories pairs

  unfoldable pub find_contradictions : List Memory → List GraphPair → List ContradictionCandidate
  find_contradictions memories pairs = sort_by earlier (candidates_of memories pairs)

  unfoldable pub build_hygiene_report : GraphSnapshot → ℕ → Run HygieneReport
  build_hygiene_report snapshot limit =
      cluster_by_bucket snapshot.memories snapshot.pairs >>= λ found. returned (record {
        clusters = found.0;
        contradictions = find_contradictions snapshot.memories found.1;
        scanned = length snapshot.memories;
        capped = ltb (length snapshot.memories) snapshot.total;
        cap = limit;
        model_mismatch = snapshot.model_mismatch;
      })

  -- The cue is one that the first content has and the second has not, and no other such comes before.
  pub record Sets (c : ContradictionCandidate) : Type 0 where
    pub has : mem c.cue (cues_in c.with_cue.content) ≡ true
    pub lacks : mem c.cue (cues_in c.without_cue.content) ≡ false
    pub first :
        (x : ℕ)
        → mem x (cues_in c.with_cue.content) ≡ true
        → mem x (cues_in c.without_cue.content) ≡ false
        → c.cue ≤ x

-- The candidate is of these two memories, either way around.
abbrev pub is_of : ℕ → ℕ → ContradictionCandidate → Bool
is_of s t c =
    (c.with_cue.id == s && c.without_cue.id == t) || (c.with_cue.id == t && c.without_cue.id == s)
