-- ===== src/Hygiene/Contradictions/Cues.antt =====
-- What `_find_contradictions` finds: the cues that tell two memories apart.
use recallum_mcp.Prelude.{
  Among, ℕ, ◌≡◌, ◌⊎◌, refl, ◌∙◌, ap, inl, inr, true, false, not, ◌&&◌, Option, none, some, List, [],
  ◌∷◌, All, All-append, mem, any_of, any_of-append, any_of-sort_by, sort_by-All, ltb, ◌==◌, ==_iff,
  Bool-cases, List-cases, arith,
}
use recallum_mcp.Model.{Memory}
use recallum_mcp.Hygiene.{GraphPair, by_id, least}
use recallum_mcp.Hygiene.Clustered.{least-le}
use recallum_mcp.Hygiene.Contradictions.{
  minus, candidate, candidate_of, candidates_of, earlier, find_contradictions, Sets, is_of,
}

mem-minus : (x : ℕ) (a b : List ℕ) → mem x (minus a b) ≡ mem x a && not (mem x b)
mem-minus x [] b = refl
mem-minus x (c ∷ a) b =
    let rest = mem-minus x a b in
    elim (Bool-cases (c == x)) [
      | inl e ↦
          let same : mem c b ≡ mem x b = ap (λ (k : ℕ). mem k b) ((==_iff c x).0 e) in
          ground (arith, e, rest, same)
      | inr e ↦ ground (arith, e, rest)
    ]

mem-least : (c : ℕ) (cues : List ℕ) → mem (least c cues) (c ∷ cues) ≡ true
mem-least c [] = ground (arith, ==_iff c c)
mem-least c (d ∷ cues) = elim (Bool-cases (ltb (least d cues) c)) [
  | inl e ↦
      let at : least c (d ∷ cues) ≡ least d cues = ground (arith, e) in
      ap (λ (k : ℕ). mem k (c ∷ d ∷ cues)) at ∙ ground (arith, mem-least d cues)
  | inr e ↦
      let at : least c (d ∷ cues) ≡ c = ground (arith, e) in
      ap (λ (k : ℕ). mem k (c ∷ d ∷ cues)) at ∙ ground (arith, ==_iff c c)
]

mem→Among : (x : ℕ) (xs : List ℕ) → mem x xs ≡ true → Among x xs
mem→Among x [] h = cc
mem→Among x (y ∷ xs) h = elim (Bool-cases (y == x)) [
  | inl e ↦ inl (ground (arith, e, ==_iff y x))
  | inr e ↦ inr (mem→Among x xs (ground (arith, h, e)))
]

module _ (cues_in : List ℕ → List ℕ) where
  candidate-Sets :
      (similarity : ℕ) (m n : Memory) (cue : ℕ) (cues : List ℕ)
      → minus (cues_in m.content) (cues_in n.content) ≡ cue ∷ cues
      → Sets cues_in (candidate similarity m n cue cues)
  candidate-Sets similarity m n cue cues e =
      let at = mem-minus (least cue cues) (cues_in m.content) (cues_in n.content) in
      let there : mem (least cue cues) (minus (cues_in m.content) (cues_in n.content)) ≡ true =
        rw e (mem-least cue cues) in
      record {
        has = ground (arith, at, there);
        lacks = ground (arith, at, there);
        first = λ x h l.
            let at_x = mem-minus x (cues_in m.content) (cues_in n.content) in
            let both : mem x (minus (cues_in m.content) (cues_in n.content)) ≡ true =
              at_x ∙ rw (h, l) refl in
            let within : Among x (cue ∷ cues) = mem→Among x (cue ∷ cues) (rw e at both) in
            least-le cue x cues within;
      }

  candidate_of-Sets :
      (similarity : ℕ) (s t : Option Memory)
      → All (Sets cues_in) (candidate_of cues_in similarity s t)
  unfolding candidate_of
  candidate_of-Sets similarity none none = tt
  candidate_of-Sets similarity none (some t) = tt
  candidate_of-Sets similarity (some s) none = tt
  candidate_of-Sets similarity (some s) (some t) =
      elim (List-cases (minus (cues_in s.content) (cues_in t.content))) [
        | inr (cue, cues, e) ↦ rw e (candidate-Sets similarity s t cue cues e, tt)
        | inl e ↦ elim (List-cases (minus (cues_in t.content) (cues_in s.content))) [
          | inr (cue, cues, f) ↦ rw (e, f) (candidate-Sets similarity t s cue cues f, tt)
          | inl f ↦ rw (e, f) tt
        ]
      ]

  candidates_of-Sets :
      (memories : List Memory) (pairs : List GraphPair)
      → All (Sets cues_in) (candidates_of cues_in memories pairs)
  unfolding candidates_of
  candidates_of-Sets memories [] = tt
  candidates_of-Sets memories (p ∷ pairs) =
      All-append (Sets cues_in)
        (candidate_of cues_in p.similarity (by_id p.source_id memories)
          (by_id p.target_id memories))
        (candidates_of cues_in memories pairs)
        (candidate_of-Sets p.similarity (by_id p.source_id memories) (by_id p.target_id memories))
        (candidates_of-Sets memories pairs)

  -- Some cue is in one content only.
  abbrev pub Differ : Memory → Memory → Type 0
  Differ s t =
      (x : ℕ) × (((mem x (cues_in s.content) ≡ true) × (mem x (cues_in t.content) ≡ false))
        ⊎ ((mem x (cues_in t.content) ≡ true) × (mem x (cues_in s.content) ≡ false)))

  candidate_of-found :
      (similarity : ℕ) (s t : Memory)
      → Differ s t
      → any_of
          (λ c. c.similarity == similarity && is_of s.id t.id c)
          (candidate_of cues_in similarity (some s) (some t))
        ≡ true
  unfolding candidate_of
  candidate_of-found similarity s t (x, d) =
      let same = (==_iff similarity similarity).1 refl in
      let same_s = (==_iff s.id s.id).1 refl in
      let same_t = (==_iff t.id t.id).1 refl in
      elim (List-cases (minus (cues_in s.content) (cues_in t.content))) [
        | inr (cue, cues, e) ↦ rw (e, same, same_s, same_t) refl
        | inl e ↦ elim (List-cases (minus (cues_in t.content) (cues_in s.content))) [
          | inr (cue, cues, f) ↦ rw (e, f) (ground (arith, same, same_s, same_t))
          | inl f ↦
              let at_s = mem-minus x (cues_in s.content) (cues_in t.content) in
              let at_t = mem-minus x (cues_in t.content) (cues_in s.content) in
              let empty_s : mem x []
                  ≡ mem x (cues_in s.content) && not (mem x (cues_in t.content)) =
                rw e at at_s in
              let empty_t : mem x []
                  ≡ mem x (cues_in t.content) && not (mem x (cues_in s.content)) =
                rw f at at_t in
              elim d [
                | inl (h, l) ↦ absurd (ground (arith, empty_s, h, l))
                | inr (h, l) ↦ absurd (ground (arith, empty_t, h, l))
              ]
        ]
      ]

  candidates_of-found :
      (memories : List Memory) (q : GraphPair) (s t : Memory) (pairs : List GraphPair)
      → Among q pairs
      → by_id q.source_id memories ≡ some s
      → by_id q.target_id memories ≡ some t
      → Differ s t
      → any_of
          (λ c. c.similarity == q.similarity && is_of s.id t.id c)
          (candidates_of cues_in memories pairs)
        ≡ true
  unfolding candidates_of
  candidates_of-found memories q s t [] m hs ht d = elim m [ ]
  candidates_of-found memories q s t (p ∷ pairs) (inl e) hs ht d =
      let hs' : by_id p.source_id memories ≡ some s = rw e at hs in
      let ht' : by_id p.target_id memories ≡ some t = rw e at ht in
      let own : any_of (λ c. c.similarity == p.similarity && is_of s.id t.id c)
            (candidate_of cues_in p.similarity (by_id p.source_id memories)
              (by_id p.target_id memories))
          ≡ true =
        rw (hs', ht') (candidate_of-found p.similarity s t d) in
      rw e (
        any_of-append (λ c. c.similarity == p.similarity && is_of s.id t.id c)
          (candidate_of cues_in p.similarity (by_id p.source_id memories)
            (by_id p.target_id memories))
          (candidates_of cues_in memories pairs)
        ∙ rw own refl)
  candidates_of-found memories q s t (p ∷ pairs) (inr m) hs ht d =
      let rest = candidates_of-found memories q s t pairs m hs ht d in
      any_of-append (λ c. c.similarity == q.similarity && is_of s.id t.id c)
        (candidate_of cues_in p.similarity (by_id p.source_id memories)
          (by_id p.target_id memories))
        (candidates_of cues_in memories pairs)
      ∙ ground (arith, rest)

  -- Each candidate tells two memories apart by a cue that only one of them has, the first such cue.
  pub find_contradictions-Sets :
      (memories : List Memory) (pairs : List GraphPair)
      → All (Sets cues_in) (find_contradictions cues_in memories pairs)
  unfolding find_contradictions
  find_contradictions-Sets memories pairs =
      sort_by-All earlier (Sets cues_in) (candidates_of cues_in memories pairs)
        (candidates_of-Sets memories pairs)

  -- A pair of known memories of which one has a cue that the other has not gives a candidate of
  -- these two memories, with the pair's similarity.
  pub find_contradictions-found :
      (memories : List Memory) (q : GraphPair) (s t : Memory) (pairs : List GraphPair)
      → Among q pairs
      → by_id q.source_id memories ≡ some s
      → by_id q.target_id memories ≡ some t
      → Differ s t
      → any_of
          (λ c. c.similarity == q.similarity && is_of s.id t.id c)
          (find_contradictions cues_in memories pairs)
        ≡ true
  unfolding find_contradictions
  find_contradictions-found memories q s t pairs m hs ht d =
      any_of-sort_by earlier (λ c. c.similarity == q.similarity && is_of s.id t.id c)
        (candidates_of cues_in memories pairs)
      ∙ candidates_of-found memories q s t pairs m hs ht d
