-- ===== src/Context/Fill.antt =====
-- One category of a snapshot: what the inner loop keeps, within the three budgets.
use recallum_mcp.Prelude.{
  ℕ, zero, suc, ◌+◌, ◌-◌, ◌≤◌, ◌<◌, ◌≡◌, refl, ap, ◌⊎◌, inl, inr, true, List, [], ◌∷◌, length, take,
  sum_of, leb, ltb, Bool-cases, length-append, length-take, arith,
}
use recallum_mcp.Budget.{estimate_tokens, exceeds}
use recallum_mcp.Budget.Pack.{Within, exceeds-false}
use recallum_mcp.Profile.{ellipsis}
use recallum_mcp.Context.{SessionContextBudget, ContextItem, Counters, clip, fill_items}

abbrev pub chars : List ContextItem → ℕ
chars = sum_of (λ item. length item.content)

abbrev pub tokens : List ContextItem → ℕ
tokens = sum_of (λ item. estimate_tokens item.content)

length-clip :
    (item : ContextItem) (r : ℕ)
    → 1 ≤ r
    → r < length item.content
    → length (clip item r).content ≡ r
length-clip item zero h k = absurd (omega arith)
length-clip item (suc r) h k =
    omega (arith, length-append (take r item.content) (ellipsis ∷ []), length-take r item.content)

estimate_mono : (xs ys : List ℕ) → length xs ≤ length ys → estimate_tokens xs ≤ estimate_tokens ys
unfolding estimate_tokens
estimate_mono xs ys h = omega arith

module _ (b : SessionContextBudget) where
  -- The kept items are the first candidates, each whole while it fits in `r` characters; the last
  -- one alone may be clipped to exactly `r`, where `r` is at least the floor.
  abbrev pub IsTaken : ℕ → List ContextItem → List ContextItem → Type 0
  IsTaken r [] [] = Unit
  IsTaken r (c ∷ cs) [] = Unit
  IsTaken r [] (item ∷ items) = ⊥
  IsTaken r (c ∷ cs) (item ∷ items) =
      ((item ≡ c) × (length c.content ≤ r) × IsTaken (r - length c.content) cs items)
      ⊎ ((item ≡ clip c r) × (b.truncate_floor ≤ r) × (r < length c.content) × (items ≡ []))

  -- The counters after a loop against those before it and the kept items.
  pub record IsFilled (candidates : List ContextItem) (c : Counters) (kept : List ContextItem)
      (d : Counters) : Type 0 where
    pub counted : d.total_items ≡ c.total_items + length kept
    pub few : d.total_items ≤ b.max_items
    pub measured : d.used_chars ≡ c.used_chars + chars kept
    pub small : d.used_chars ≤ b.max_chars
    pub paid : c.used_tokens + tokens kept ≤ d.used_tokens
    pub cheap : Within b.max_tokens d.used_tokens
    pub taken : IsTaken (b.max_chars - c.used_chars) candidates kept
    pub whole :
        (d.exhausted ≡ true)
        ⊎ ((kept ≡ candidates) × (chars candidates ≤ b.max_chars - c.used_chars))

  pub record IsWithin (c : Counters) : Type 0 where
    pub few : c.total_items ≤ b.max_items
    pub small : c.used_chars ≤ b.max_chars
    pub cheap : Within b.max_tokens c.used_tokens

  IsTaken-nil : (r : ℕ) (cs : List ContextItem) → IsTaken r cs []
  IsTaken-nil r [] = tt
  IsTaken-nil r (x ∷ cs) = tt

  nothing :
      (cs : List ContextItem) (c : Counters)
      → IsWithin c
      → IsFilled cs c [] (record c { exhausted = true })
  nothing cs c w = record {
    counted = omega arith;
    few = w.few;
    measured = omega arith;
    small = w.small;
    paid = omega arith;
    cheap = w.cheap;
    taken = IsTaken-nil _ cs;
    whole = inl refl;
  }

  module _ (floored : 1 ≤ b.truncate_floor) (item : ContextItem) (items : List ContextItem)
      (c : Counters) (w : IsWithin c) (room : c.total_items < b.max_items)
      (paid : Within b.max_tokens (c.used_tokens + estimate_tokens item.content)) where
    clipped :
        b.max_chars - c.used_chars < length item.content
        → b.truncate_floor ≤ b.max_chars - c.used_chars
        → IsFilled (item ∷ items) c (clip item (b.max_chars - c.used_chars) ∷ []) (record c {
          total_items = c.total_items + 1;
          used_chars = b.max_chars;
          used_tokens = c.used_tokens + estimate_tokens item.content;
          exhausted = true;
        })
    clipped long fits =
        let r = b.max_chars - c.used_chars in
        let exact = length-clip item r (omega arith) long in
        record {
          counted = omega arith;
          few = omega arith;
          measured = omega (arith, exact, w.small);
          small = omega arith;
          paid =
              omega
                (arith, estimate_mono (clip item r).content item.content (omega (arith, exact)));
          cheap = paid;
          taken = inr (refl, fits, long, refl);
          whole = inl refl;
        }

    next : Counters
    next = record c {
      total_items = c.total_items + 1;
      used_chars = c.used_chars + length item.content;
      used_tokens = c.used_tokens + estimate_tokens item.content;
    }

    next-IsWithin : length item.content ≤ b.max_chars - c.used_chars → IsWithin next
    unfolding next
    next-IsWithin fits = record { few = omega arith; small = omega (arith, w.small); cheap = paid }

    kept_whole :
        (kept : List ContextItem) (d : Counters)
        → length item.content ≤ b.max_chars - c.used_chars
        → IsFilled items next kept d
        → IsFilled (item ∷ items) c (item ∷ kept) d
    unfolding next
    kept_whole kept d fits f =
        let after : b.max_chars - (c.used_chars + length item.content)
            ≡ b.max_chars - c.used_chars - length item.content =
          omega arith in
        record {
          counted = omega (arith, f.counted);
          few = f.few;
          measured = omega (arith, f.measured);
          small = f.small;
          paid = omega (arith, f.paid);
          cheap = f.cheap;
          taken = inl (refl, fits, rw after at f.taken);
          whole = elim f.whole [ inl e ↦ inl e | inr (e, k) ↦ inr (ap (◌∷◌ item) e, omega arith) ];
        }

  module _ (floored : 1 ≤ b.truncate_floor) where
    pub fill_items-IsFilled :
        (items : List ContextItem) (c : Counters)
        → IsWithin c
        → IsFilled items c (fill_items b items c).0 (fill_items b items c).1
    unfolding fill_items next
    fill_items-IsFilled [] c w = record {
      counted = omega arith;
      few = w.few;
      measured = omega arith;
      small = w.small;
      paid = omega arith;
      cheap = w.cheap;
      taken = tt;
      whole = inr (refl, omega arith);
    }
    fill_items-IsFilled (item ∷ items) c w =
        let cost = estimate_tokens item.content in
        let remaining = b.max_chars - c.used_chars in
        elim (Bool-cases (leb b.max_items c.total_items)) [
          | inl stop ↦ rw stop (nothing (item ∷ items) c w)
          | inr room ↦ elim (Bool-cases (exceeds b.max_tokens (c.used_tokens + cost))) [
            | inl stop ↦ rw (room, stop) (nothing (item ∷ items) c w)
            | inr paid ↦
                let cheap = exceeds-false b.max_tokens (c.used_tokens + cost) paid in
                let more : c.total_items < b.max_items = ground arith in
                elim (Bool-cases (ltb remaining (length item.content))) [
                  | inl long ↦ elim (Bool-cases (leb b.truncate_floor remaining)) [
                    | inl clips ↦
                        rw (room, paid, long, clips)
                          (clipped floored item items c w more cheap (ground arith) (ground arith))
                    | inr stop ↦ rw (room, paid, long, stop) (nothing (item ∷ items) c w)
                  ]
                  | inr fits ↦
                      rw (room, paid, fits)
                        (kept_whole floored item items c w more cheap _ _ (ground arith) (
                          fill_items-IsFilled items (next floored item items c w more cheap)
                            (next-IsWithin floored item items c w more cheap (ground arith))))
                ]
          ]
        ]
