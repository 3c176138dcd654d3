-- ===== src/Budget/Sorted.antt =====
-- To sort enumerated items by priority and position is to collect them by priority.
use recallum_mcp.Prelude.{
  ℕ, zero, suc, ◌+◌, ◌≤◌, ◌<◌, ◌≡◌, ◌∙◌, sym, ap, refl, inl, inr, Bool, true, false, List, [], ◌∷◌,
  ◌++◌, map, keep, All, All-append, ◌==◌, ==_iff, Bool-cases, sort_by, insert_by, arith,
}
use recallum_mcp.Budget.{enumerate, goes_first}

module _ {ℓ} {T : Type ℓ} (priority : T → ℕ) where
  abbrev pub has_priority : ℕ → ℕ × T → Bool
  has_priority k pair = priority pair.1 == k

  -- The pairs of each priority from one on, in their order.
  abbrev pub buckets : ℕ → ℕ → List (ℕ × T) → List (ℕ × T)
  buckets low zero pairs = []
  buckets low (suc n) pairs = keep (has_priority low) pairs ++ buckets (suc low) n pairs

  insert_by-front :
      (x : ℕ × T) (pairs : List (ℕ × T))
      → All (λ y. goes_first priority y x ≡ false) pairs
      → insert_by (goes_first priority) x pairs ≡ x ∷ pairs
  unfolding insert_by
  insert_by-front x [] h = refl
  insert_by-front x (y ∷ pairs) (p, h) = rw p refl

  insert_by-behind :
      (x : ℕ × T) (first pairs : List (ℕ × T))
      → All (λ y. goes_first priority y x ≡ true) first
      → insert_by (goes_first priority) x (first ++ pairs)
        ≡ first ++ insert_by (goes_first priority) x pairs
  unfolding insert_by
  insert_by-behind x [] pairs h = refl
  insert_by-behind x (y ∷ first) pairs (p, h) = rw p (ap (◌∷◌ y) (insert_by-behind x first pairs h))

  -- A pair goes behind those of a lower priority, and before the later ones of no lower priority.
  lower_first :
      (x : ℕ × T) (k : ℕ) (pairs : List (ℕ × T))
      → k < priority x.1
      → All (λ y. goes_first priority y x ≡ true) (keep (has_priority k) pairs)
  lower_first x k [] h = tt
  lower_first x k (y ∷ pairs) h =
      let rest = lower_first x k pairs h in
      elim (Bool-cases (priority y.1 == k)) [
        | inl e ↦ rw e (ground (arith, e, h), rest)
        | inr e ↦ rw e rest
      ]

  later_behind :
      (x : ℕ × T) (k : ℕ) (pairs : List (ℕ × T))
      → priority x.1 ≤ k
      → All (λ (y : ℕ × T). x.0 < y.0) pairs
      → All (λ y. goes_first priority y x ≡ false) (keep (has_priority k) pairs)
  later_behind x k [] h l = tt
  later_behind x k (y ∷ pairs) h (p, l) =
      let rest = later_behind x k pairs h l in
      elim (Bool-cases (priority y.1 == k)) [
        | inl e ↦ rw e (ground (arith, e, h, p), rest)
        | inr e ↦ rw e rest
      ]

  buckets-behind :
      (x : ℕ × T) (low n : ℕ) (pairs : List (ℕ × T))
      → priority x.1 ≤ low
      → All (λ (y : ℕ × T). x.0 < y.0) pairs
      → All (λ y. goes_first priority y x ≡ false) (buckets low n pairs)
  buckets-behind x low zero pairs h l = tt
  buckets-behind x low (suc n) pairs h l =
      All-append (λ y. goes_first priority y x ≡ false) (keep (has_priority low) pairs)
        (buckets (suc low) n pairs) (later_behind x low pairs h l)
        (buckets-behind x (suc low) n pairs (omega (arith, h)) l)

  buckets-above :
      (x : ℕ × T) (low n : ℕ) (pairs : List (ℕ × T))
      → priority x.1 < low
      → buckets low n (x ∷ pairs) ≡ buckets low n pairs
  buckets-above x low zero pairs h = refl
  buckets-above x low (suc n) pairs h =
      let rest = buckets-above x (suc low) n pairs (omega (arith, h)) in
      let away : (priority x.1 == low) ≡ false = ground (arith, h) in rw (away, rest) refl

  -- A pair before the others goes to the front of its bucket.
  insert_by-buckets :
      (x : ℕ × T) (low n : ℕ) (pairs : List (ℕ × T))
      → low ≤ priority x.1
      → priority x.1 < low + n
      → All (λ (y : ℕ × T). x.0 < y.0) pairs
      → insert_by (goes_first priority) x (buckets low n pairs) ≡ buckets low n (x ∷ pairs)
  insert_by-buckets x low zero pairs h k l = absurd (omega (arith, h, k))
  insert_by-buckets x low (suc n) pairs h k l = elim (Bool-cases (priority x.1 == low)) [
    | inl e ↦
        let same : priority x.1 ≡ low = (==_iff (priority x.1) low).0 e in
        let front =
          insert_by-front x (buckets low (suc n) pairs)
            (buckets-behind x low (suc n) pairs (omega (arith, same)) l) in
        let above = buckets-above x (suc low) n pairs (omega (arith, same)) in
        let at : buckets low (suc n) (x ∷ pairs) ≡ x ∷ buckets low (suc n) pairs =
          rw (e, above) refl in
        front ∙ sym at
    | inr e ↦
        let more : low < priority x.1 = ground (arith, h, e) in
        let behind =
          insert_by-behind x (keep (has_priority low) pairs) (buckets (suc low) n pairs)
            (lower_first x low pairs more) in
        let rest = insert_by-buckets x (suc low) n pairs more (omega (arith, k)) l in
        let at : buckets low (suc n) (x ∷ pairs)
            ≡ keep (has_priority low) pairs ++ buckets (suc low) n (x ∷ pairs) =
          rw e refl in
        behind ∙ ap (◌++◌ (keep (has_priority low) pairs)) rest ∙ sym at
  ]

  enumerate-later :
      (i j : ℕ) (items : List T) → i < j → All (λ (y : ℕ × T). i < y.0) (enumerate j items)
  enumerate-later i j [] h = tt
  enumerate-later i j (item ∷ items) h = (h, enumerate-later i (j + 1) items (omega (arith, h)))

  -- To sort the enumerated items is to collect them by priority.
  pub sort_by-buckets :
      (n i : ℕ) (items : List T)
      → ((item : T) → priority item < n)
      → sort_by (goes_first priority) (enumerate i items) ≡ buckets 0 n (enumerate i items)
  unfolding sort_by
  sort_by-buckets n i [] h = sym (nothing 0 n)
    where
      nothing : (low n : ℕ) → buckets low n [] ≡ []
      nothing low zero = refl
      nothing low (suc n) = nothing (suc low) n
  sort_by-buckets n i (item ∷ items) h =
      let rest = sort_by-buckets n (i + 1) items h in
      rw rest (
        insert_by-buckets (i, item) 0 n (enumerate (i + 1) items) (omega arith)
          (omega (arith, h item)) (enumerate-later i (i + 1) items (omega arith)))

  pub kept_items :
      (k i : ℕ) (items : List T)
      → map (λ (pair : ℕ × T). pair.1) (keep (has_priority k) (enumerate i items))
        ≡ keep (λ item. priority item == k) items
  kept_items k i [] = refl
  kept_items k i (item ∷ items) =
      let rest = kept_items k (i + 1) items in
      elim (Bool-cases (priority item == k)) [
        | inl e ↦ rw e (ap (◌∷◌ item) rest)
        | inr e ↦ rw e rest
      ]
