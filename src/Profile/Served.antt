-- ===== src/Profile/Served.antt =====
-- `_clip_content` and `_budget_items`: which memories a slice serves, and how much of each.
use native.Mathlib.Decide.{dec_lt}
use recallum_mcp.Prelude.{
  ℕ, ◌+◌, ◌-◌, ◌≤◌, ◌<◌, ◌≡◌, refl, ◌⊎◌, inl, inr, true, false, none, some, List, [], ◌∷◌, ◌++◌,
  length, take, sum_of, leb, ltb, Bool-cases, Option-cases, length-append, length-take, All, arith,
}
use recallum_mcp.Model.{Memory, Category}
use recallum_mcp.Profile.{ProfileItem, ellipsis, clip_content, item_of, budget_from, budget_items}

-- The content with its end cut off, one mark in its place.
abbrev pub cut : ℕ → List ℕ → List ℕ
cut r content = take (r - 1) content ++ ellipsis ∷ []

pub length-cut :
    (r : ℕ) (content : List ℕ) → 1 ≤ r → r ≤ length content → length (cut r content) ≡ r
length-cut r content h k =
    omega (arith, length-append (take (r - 1) content) (ellipsis ∷ []), length-take (r - 1) content)

-- A clip leaves a content that fits as it is, and cuts a longer one to exactly the room that there
-- is; it fails only where there is room for one character at most, too little for the content.
pub clip_content-cases :
    (content : List ℕ) (r : ℕ)
    → ((clip_content content r ≡ some (content, false)) × (1 ≤ r) × (length content ≤ r))
      ⊎ (((clip_content content r ≡ some (cut r content, true)) × (2 ≤ r) × (r < length content))
          ⊎ ((clip_content content r ≡ none) × (r ≤ 1) × ((r ≡ 0) ⊎ (r < length content))))
unfolding clip_content
clip_content-cases content r = elim (Bool-cases (leb r 0)) [
  | inl empty ↦ inr (inr (rw empty, ground arith, inl (ground arith)))
  | inr room ↦ elim (Bool-cases (leb (length content) r)) [
    | inl fits ↦ inl (rw (room, fits), ground arith, ground arith)
    | inr long ↦ elim (Bool-cases (ltb r 2)) [
      | inl one ↦ inr (inr (rw (room, long, one), ground arith, inr (ground arith)))
      | inr more ↦ inr (inl (rw (room, long, more), ground arith, ground arith))
    ]
  ]
]

-- The items are the first memories, in order, each whole while it fits in what is left of `r`
-- characters; the last one alone may be cut, to exactly what is left.
abbrev pub IsServed : ℕ → List Memory → List ProfileItem → Type 0
IsServed r [] [] = Unit
IsServed r (m ∷ ms) [] = Unit
IsServed r [] (item ∷ items) = ⊥
IsServed r (m ∷ ms) (item ∷ items) =
    ((item ≡ item_of m m.content false)
      × (length m.content ≤ r)
      × IsServed (r - length m.content) ms items)
    ⊎ ((item ≡ item_of m (cut r m.content) true) × (2 ≤ r) × (r < length m.content) × (items ≡ []))

abbrev pub chars : List ProfileItem → ℕ
chars = sum_of (λ item. length item.content)

module _ (max_items max_chars : ℕ) where
  budget_from-full :
      (n used : ℕ) (ms : List Memory)
      → max_chars ≤ used
      → budget_from max_items max_chars n used ms ≡ []
  unfolding budget_from
  budget_from-full n used [] h = refl
  budget_from-full n used (m ∷ ms) h = ground arith

  budget_from-IsServed :
      (n used : ℕ) (ms : List Memory)
      → IsServed (max_chars - used) ms (budget_from max_items max_chars n used ms)
  unfolding budget_from
  budget_from-IsServed n used [] = tt
  budget_from-IsServed n used (m ∷ ms) = elim (Bool-cases (leb max_items n)) [
    | inl stop ↦ rw stop tt
    | inr more ↦ elim (Bool-cases (leb (max_chars - used) 0)) [
      | inl stop ↦ rw (more, stop) tt
      | inr room ↦ elim (clip_content-cases m.content (max_chars - used)) [
        | inl (e, _, fits) ↦
            let after : max_chars - (used + length m.content)
                ≡ max_chars - used - length m.content =
              omega arith in
            rw (more, room, e)
              (inl (
                refl,
                fits,
                rw after at (budget_from-IsServed (n + 1) (used + length m.content) ms),
              ))
        | inr (inl (e, two, long)) ↦
            rw (more, room, e)
              (inr (
                refl,
                two,
                long,
                budget_from-full (n + 1) _ ms
                    (omega (arith, length-cut (max_chars - used) m.content)),
              ))
        | inr (inr (e, _, _)) ↦ rw (more, room, e) tt
      ]
    ]
  ]

  budget_from-length :
      (n used : ℕ) (ms : List Memory)
      → n ≤ max_items
      → n + length (budget_from max_items max_chars n used ms) ≤ max_items
  unfolding budget_from
  budget_from-length n used [] h = omega arith
  budget_from-length n used (m ∷ ms) h =
      elim (Option-cases (clip_content m.content (max_chars - used))) [
        | inl e ↦ ground arith
        | inr ((content, cut_off), e) ↦
            ground (arith, budget_from-length (n + 1) (used + length content) ms)
      ]

  budget_from-IsFull :
      (n used : ℕ) (ms : List Memory)
      → used ≤ max_chars
      → length (budget_from max_items max_chars n used ms) < length ms
      → (max_items ≤ n + length (budget_from max_items max_chars n used ms))
        ⊎ (max_chars ≤ used + chars (budget_from max_items max_chars n used ms) + 1)
  unfolding budget_from
  budget_from-IsFull n used [] h k = absurd (omega arith)
  budget_from-IsFull n used (m ∷ ms) h k = elim (clip_content-cases m.content (max_chars - used)) [
    | inl (e, _, fits) ↦ ground (arith, budget_from-IsFull (n + 1) (used + length m.content) ms)
    | inr (inl (e, two, long)) ↦ ground (
      arith,
      length-cut (max_chars - used) m.content,
      budget_from-full (n + 1) (used + length (cut (max_chars - used) m.content)) ms,
    )
    | inr (inr (e, one, _)) ↦ ground arith
  ]

pub IsServed-chars :
    (r : ℕ) (ms : List Memory) (items : List ProfileItem) → IsServed r ms items → chars items ≤ r
IsServed-chars r ms [] h = omega arith
IsServed-chars r [] (item ∷ items) h = absurd h
IsServed-chars r (m ∷ ms) (item ∷ items) (inl (e, fits, rest)) =
    rw e (omega (arith, IsServed-chars (r - length m.content) ms items rest))
IsServed-chars r (m ∷ ms) (item ∷ items) (inr (e, two, long, last)) =
    rw (e, last) (omega (arith, length-cut r m.content))

-- What holds of every memory's identifier and category holds of every item's.
pub IsServed-All {κ} :
    (P : ℕ → Category → Type κ) (r : ℕ) (ms : List Memory) (items : List ProfileItem)
    → IsServed r ms items
    → All (λ m. P m.id m.category) ms
    → All (λ item. P item.id item.category) items
IsServed-All P r ms [] h a = tt
IsServed-All P r [] (item ∷ items) h a = absurd h
IsServed-All P r (m ∷ ms) (item ∷ items) (inl (e, _, rest)) (p, a) =
    (rw e p, IsServed-All P (r - length m.content) ms items rest a)
IsServed-All P r (m ∷ ms) (item ∷ items) (inr (e, _, _, last)) (p, a) = rw (e, last) (p, tt)

module _ (ms : List Memory) (max_items max_chars : ℕ) where
  -- A budgeted slice serves a prefix of the memories, whole but for a cut last item; it has at most
  -- `max_items` items and `max_chars` characters; and it leaves a memory out only if it has
  -- `max_items` items, or has at most one character of room.
  pub budget_items-IsServed :
      IsServed max_chars ms (budget_items ms max_items max_chars)
      × (length (budget_items ms max_items max_chars) ≤ max_items)
      × (chars (budget_items ms max_items max_chars) ≤ max_chars)
      × ((length ms ≤ length (budget_items ms max_items max_chars))
          ⊎ ((max_items ≤ length (budget_items ms max_items max_chars))
              ⊎ (max_chars ≤ chars (budget_items ms max_items max_chars) + 1)))
  unfolding budget_items
  budget_items-IsServed =
      let all : max_chars - 0 ≡ max_chars = omega arith in
      let served : IsServed max_chars ms (budget_from max_items max_chars 0 0 ms) =
        rw all at (budget_from-IsServed max_items max_chars 0 0 ms) in
      let few = budget_from-length max_items max_chars 0 0 ms (omega arith) in
      (
        served,
        omega arith,
        IsServed-chars max_chars ms _ served,
        elim (dec_lt (length (budget_from max_items max_chars 0 0 ms)) (length ms)) [
          | yes p ↦
              inr (omega (arith, budget_from-IsFull max_items max_chars 0 0 ms (omega arith) p))
          | no p ↦ inl (omega arith)
        ],
      )
