-- ===== src/Profile/Examples.antt =====
-- Tests and instances of the profile slices.
use recallum_mcp.Prelude.{
  ℕ, ◌≡◌, refl, ◌⊎◌, ◌+◌, ◌≤◌, true, false, sort_by, none, some, List, [], ◌∷◌, length, map,
}
use recallum_mcp.Model.{Memory}
use recallum_mcp.Limits.{MemoryLimits, defaults}
use recallum_mcp.Samples.{tabs, dark, no_force_push, port}
use recallum_mcp.Profile.{
  Payload, ProfileItem, ellipsis, clip_content, item_of, budget_items, static_candidates,
  select_profile_slices, apply_profile_budget,
}
use recallum_mcp.Profile.Served.{IsServed, chars, budget_items-IsServed}
use recallum_mcp.Profile.Slices.{IsSelected, select_profile_slices-IsSelected}
use recallum_mcp.Profile.Reserve.{apply_profile_budget-bounds}

abbrev memories : List Memory
memories = tabs ∷ port ∷ no_force_push ∷ dark ∷ []

abbrev limits : MemoryLimits ℕ
unfolding defaults
limits = record (defaults (λ n. n)) { profile_static_max_chars = 8 }

clipped :
    (clip_content dark.content 3 ≡ some (b'd' ∷ b'a' ∷ ellipsis ∷ [], true))
    × (clip_content dark.content 1 ≡ none)
unfolding clip_content
clipped = (refl, refl)

-- A stand-in for the digest.
abbrev digest : Payload → ℕ
digest p = length p.static

-- The constraint is the most important; the last preference is cut to the two characters left.
static_slice :
    (select_profile_slices (λ t. t) digest memories limits 1000).static
    ≡ item_of no_force_push no_force_push.content false
      ∷ item_of dark dark.content false
      ∷ item_of tabs (b't' ∷ ellipsis ∷ []) true
      ∷ []
unfolding select_profile_slices static_candidates budget_items clip_content defaults sort_by
static_slice = refl

budget_items-IsServed_sample :
    IsServed 5 memories (budget_items memories 3 5)
    × (length (budget_items memories 3 5) ≤ 3)
    × (chars (budget_items memories 3 5) ≤ 5)
    × ((length memories ≤ length (budget_items memories 3 5))
        ⊎ ((3 ≤ length (budget_items memories 3 5)) ⊎ (5 ≤ chars (budget_items memories 3 5) + 1)))
budget_items-IsServed_sample = budget_items-IsServed memories 3 5

select_profile_slices-IsSelected_example :
    IsSelected
      (λ t. t)
      digest
      memories
      limits
      1000
      (select_profile_slices (λ t. t) digest memories limits 1000)
select_profile_slices-IsSelected_example =
    select_profile_slices-IsSelected (λ t. t) digest memories limits 1000

abbrev shown : List ProfileItem
shown = map (λ m. item_of m m.content false) memories

apply_profile_budget-bounds_example :
    (length (apply_profile_budget 3 9 shown shown).0
        + length (apply_profile_budget 3 9 shown shown).1
      ≤ 3)
    × (chars (apply_profile_budget 3 9 shown shown).0
          + chars (apply_profile_budget 3 9 shown shown).1
        ≤ 9)
    × (apply_profile_budget 3 9
          (apply_profile_budget 3 9 shown shown).0
          (apply_profile_budget 3 9 shown shown).1
        ≡ apply_profile_budget 3 9 shown shown)
apply_profile_budget-bounds_example = apply_profile_budget-bounds 3 9 shown shown
