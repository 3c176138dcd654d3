-- ===== src/Budget/Pack.antt =====
-- What `pack_by_token_budget` keeps.
use recallum_mcp.Prelude.{
  ℕ, suc, ◌+◌, ◌≤◌, ◌≡◌, refl, ap, ◌⊎◌, inl, inr, true, false, ◌||◌, Option, none, some, List, [],
  ◌∷◌, ◌++◌, length, sum_of, leb, Bool-cases, arith,
}
use native.Mathlib.Nat.{add-zero}
use recallum_mcp.Budget.{estimate_tokens, exceeds, pack_from, pack_by_token_budget}

abbrev pub Within : Option ℕ → ℕ → Type 0
Within none n = Unit
Within (some most) n = n ≤ most

pub Within-zero : (most : Option ℕ) → Within most 0
Within-zero none = tt
Within-zero (some m) = omega arith

exceeds-true : (most : Option ℕ) (n : ℕ) → exceeds most n ≡ true → ¬ Within most n
exceeds-true none n h = cc
exceeds-true (some m) n h = ground arith

pub exceeds-false : (most : Option ℕ) (n : ℕ) → exceeds most n ≡ false → Within most n
exceeds-false none n h = tt
exceeds-false (some m) n h = ground arith

module _ {ℓ} {T : Type ℓ} (max_items : ℕ) (max_tokens : Option ℕ) (content_of : T → List ℕ) where
  -- The next item, if one is left out, does not fit behind `n` items of `used` tokens.
  abbrev pub NoRoom : ℕ → ℕ → List T → Type 0
  NoRoom n used [] = Unit
  NoRoom n used (item ∷ _) =
      (max_items ≤ n) ⊎ (¬ Within max_tokens (used + estimate_tokens (content_of item)))

  abbrev pub cost_of : List T → ℕ
  cost_of = sum_of (λ item. estimate_tokens (content_of item))

  -- A packed list against what it was packed from; `n` items with `used` tokens were kept before.
  record IsPackedFrom (n used : ℕ) (items packed : List T) : Type ℓ where
    left : List T
    is_prefix : items ≡ packed ++ left
    few : n ≤ max_items → n + length packed ≤ max_items
    cheap : Within max_tokens used → Within max_tokens (used + cost_of packed)
    full : NoRoom (n + length packed) (used + cost_of packed) left

  cannot_go_on :
      (n used : ℕ) (item : T) (items : List T)
      → (leb max_items n || exceeds max_tokens (used + estimate_tokens (content_of item))) ≡ true
      → NoRoom n used (item ∷ items)
  cannot_go_on n used item items h = elim (Bool-cases (leb max_items n)) [
    | inl e ↦ inl (ground arith)
    | inr e ↦ inr (exceeds-true max_tokens _ (rw e at h))
  ]

  within :
      (n used : ℕ) (item : T)
      → (leb max_items n || exceeds max_tokens (used + estimate_tokens (content_of item))) ≡ false
      → Within max_tokens (used + estimate_tokens (content_of item))
  within n used item h = exceeds-false max_tokens _ (ground arith)

  keep_one :
      (n used : ℕ) (item : T) (items packed : List T)
      → (leb max_items n || exceeds max_tokens (used + estimate_tokens (content_of item))) ≡ false
      → IsPackedFrom (n + 1) (used + estimate_tokens (content_of item)) items packed
      → IsPackedFrom n used (item ∷ items) (item ∷ packed)
  keep_one n used item items packed h p =
      let cost = estimate_tokens (content_of item) in
      let counted : n + 1 + length packed ≡ n + suc (length packed) = omega arith in
      let spent : used + cost + cost_of packed ≡ used + (cost + cost_of packed) = omega arith in
      record {
        left = p.left;
        is_prefix = ap (◌∷◌ item) p.is_prefix;
        few = λ k. ground (arith, p.few);
        cheap = λ k. rw (← spent) (p.cheap (within n used item h));
        full = rw (← counted, ← spent) p.full;
      }

  pack_from-IsPackedFrom :
      (n used : ℕ) (items : List T)
      → IsPackedFrom n used items (pack_from max_items max_tokens content_of n used items)
  unfolding pack_from
  pack_from-IsPackedFrom n used [] = record {
    left = [];
    is_prefix = refl;
    few = λ h. omega arith;
    cheap = λ h. rw add-zero h;
    full = tt;
  }
  pack_from-IsPackedFrom n used (item ∷ items) =
      let cost = estimate_tokens (content_of item) in
      elim (Bool-cases (leb max_items n || exceeds max_tokens (used + cost))) [
        | inl stop ↦ rw stop (record {
          left = item ∷ items;
          is_prefix = refl;
          few = λ h. omega arith;
          cheap = λ h. rw add-zero h;
          full = rw (add-zero, add-zero) (cannot_go_on n used item items stop);
        })
        | inr more ↦
            rw more (
              keep_one n used item items _ more
                (pack_from-IsPackedFrom (n + 1) (used + cost) items))
      ]

  -- A packed list against what it was packed from.
  pub record IsPacked (items packed : List T) : Type ℓ where
    pub left : List T
    pub is_prefix : items ≡ packed ++ left
    pub few : length packed ≤ max_items
    pub cheap : Within max_tokens (cost_of packed)
    pub full : NoRoom (length packed) (cost_of packed) left

  -- A prefix is kept, whole items only: at most `max_items` of them, whose estimates sum to at
  -- most `max_tokens` if it is set; and the next item, if there is one, was left out because the
  -- item limit is reached or because its estimate exceeds what is left of the tokens.
  pub pack_by_token_budget-IsPacked :
      (items : List T) → IsPacked items (pack_by_token_budget items max_items max_tokens content_of)
  unfolding pack_by_token_budget
  pack_by_token_budget-IsPacked items =
      let packed = pack_from max_items max_tokens content_of 0 0 items in
      let p : IsPackedFrom 0 0 items packed = pack_from-IsPackedFrom 0 0 items in
      let counted : 0 + length packed ≡ length packed = omega arith in
      let spent : 0 + cost_of packed ≡ cost_of packed = omega arith in
      record {
        left = p.left;
        is_prefix = p.is_prefix;
        few = omega (arith, p.few (omega arith));
        cheap = rw spent at (p.cheap (Within-zero max_tokens));
        full = rw (counted, spent) at p.full;
      }
