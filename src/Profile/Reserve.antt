-- ===== src/Profile/Reserve.antt =====
-- `apply_profile_budget`: the share of a context call that the profile may take.
use recallum_mcp.Prelude.{
  ℕ, ◌+◌, ◌-◌, ◌≤◌, ◌≡◌, refl, inl, inr, Bool, true, false, ◌||◌, some, List, [], ◌∷◌, length, leb,
  Bool-cases, Option-cases, arith,
}
use recallum_mcp.Profile.{ProfileItem, clip_content, take_items, apply_profile_budget}
use recallum_mcp.Profile.Served.{chars, length-cut, clip_content-cases}

clip-fits :
    (content : List ℕ) (r : ℕ) {c : List ℕ} {t : Bool}
    → clip_content content r ≡ some (c, t)
    → (length c ≤ r) × (1 ≤ r)
clip-fits content r h = elim (clip_content-cases content r) [
  | inl (e, one, fits) ↦ ground arith
  | inr (inl (e, two, long)) ↦ ground (arith, length-cut r content)
  | inr (inr (e, _, _)) ↦ cc
]

clip-whole :
    (content : List ℕ) (r : ℕ)
    → length content ≤ r
    → 1 ≤ r
    → clip_content content r ≡ some (content, false)
unfolding clip_content
clip-whole content r h k = ground arith

or-false : (b : Bool) → (b || false) ≡ b
or-false true = refl
or-false false = refl

module _ (max_items max_chars : ℕ) where
  -- What one pass leaves in the two counters.
  record IsCounted (n used : ℕ) (r : List ProfileItem × ℕ × ℕ) : Type 0 where
    items : r.1 ≡ n + length r.0
    characters : r.2 ≡ used + chars r.0
    few : n ≤ max_items → r.1 ≤ max_items
    small : used ≤ max_chars → r.2 ≤ max_chars

  take_items-IsCounted :
      (source : List ProfileItem) (n used : ℕ)
      → IsCounted n used (take_items max_items max_chars source n used)
  unfolding take_items
  take_items-IsCounted [] n used = omega arith
  take_items-IsCounted (item ∷ source) n used =
      elim (Option-cases (clip_content item.content (max_chars - used))) [
        | inl e ↦ ground arith
        | inr ((content, clipped), e) ↦ ground (
          arith,
          clip-fits item.content (max_chars - used) e,
          take_items-IsCounted source (n + 1) (used + length content),
        )
      ]

  -- A second pass over what the first one took takes all of it again.
  take_items-again :
      (source : List ProfileItem) (n used : ℕ)
      → take_items max_items max_chars (take_items max_items max_chars source n used).0 n used
        ≡ take_items max_items max_chars source n used
  unfolding take_items
  take_items-again [] n used = refl
  take_items-again (item ∷ source) n used = elim (Bool-cases (leb max_items n)) [
    | inl stop ↦ rw stop refl
    | inr more ↦ elim (Bool-cases (leb (max_chars - used) 0)) [
      | inl stop ↦ rw (more, stop) refl
      | inr room ↦ elim (Option-cases (clip_content item.content (max_chars - used))) [
        | inl e ↦ rw (more, room, e) refl
        | inr ((content, clipped), e) ↦
            let (fits, one) = clip-fits item.content (max_chars - used) e in
            rw (
              more,
              room,
              e,
              more,
              room,
              clip-whole content (max_chars - used) fits one,
              or-false (item.content_truncated || clipped),
              take_items-again source (n + 1) (used + length content),
            )
      ]
    ]
  ]

  module _ (static dynamic : List ProfileItem) where
    -- The two slices together have at most `max_items` items and `max_chars` characters; and to
    -- apply the same budget to the result changes nothing more.
    pub apply_profile_budget-bounds :
        (length (apply_profile_budget max_items max_chars static dynamic).0
            + length (apply_profile_budget max_items max_chars static dynamic).1
          ≤ max_items)
        × (chars (apply_profile_budget max_items max_chars static dynamic).0
              + chars (apply_profile_budget max_items max_chars static dynamic).1
            ≤ max_chars)
        × (apply_profile_budget max_items max_chars
              (apply_profile_budget max_items max_chars static dynamic).0
              (apply_profile_budget max_items max_chars static dynamic).1
            ≡ apply_profile_budget max_items max_chars static dynamic)
    unfolding apply_profile_budget
    apply_profile_budget-bounds =
        let first = take_items max_items max_chars static 0 0 in
        let one = take_items-IsCounted static 0 0 in
        let two = take_items-IsCounted dynamic first.1 first.2 in
        (
          omega (arith, one.few, two.few),
          omega (arith, one.small, two.small),
          rw (take_items-again static 0 0, take_items-again dynamic first.1 first.2),
        )
