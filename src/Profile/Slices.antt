-- ===== src/Profile/Slices.antt =====
-- The static and the dynamic slice of a profile.
use recallum_mcp.Prelude.{
  ℕ, ◌-◌, ◌≤◌, ◌≡◌, refl, ◌⊎◌, inl, inr, Bool, true, false, List, [], ◌∷◌, ◌++◌, map, length, keep,
  mem, All, AllPairs, All-map, AllPairs-any, sort_by-All, Rising, Falling, sort_by-Rising,
  sort_by-Falling, Bool-cases, arith,
}
use mathlib.Core.List.{map-append}
use recallum_mcp.Model.{Memory, Category, preference, constraint}
use recallum_mcp.Limits.{MemoryLimits}
use recallum_mcp.Profile.{
  Payload, SelectedProfile, confirmed_at, is_static_eligible, is_dynamic_eligible, budget_items,
  days, static_candidates, dynamic_candidates, recalled_key, select_dynamic_slice,
  select_profile_slices,
}
use recallum_mcp.Profile.Served.{IsServed, IsServed-All, chars, budget_items-IsServed}

-- Every kept item passes the test.
All-keep_self {ℓ} : {A : Type ℓ} (p : A → Bool) (xs : List A) → All (λ x. p x ≡ true) (keep p xs)
All-keep_self p [] = tt
All-keep_self p (x ∷ xs) = elim (Bool-cases (p x)) [
  | inl e ↦ rw e (e, All-keep_self p xs)
  | inr e ↦ rw e (All-keep_self p xs)
]

abbrev pub Any {ℓ} : {A : Type ℓ} → A → A → Type 0
Any x y = Unit

module _ (ms : List Memory) (min_importance : ℕ) where
  -- The static candidates fall by importance, then by the last confirmation, and then rise by
  -- identifier.
  pub static_candidates-order :
      AllPairs
        (Falling (λ m. m.importance) (Falling confirmed_at (Rising (λ m. m.id) Any)))
        (static_candidates ms min_importance)
  unfolding static_candidates
  static_candidates-order =
      sort_by-Falling _ _ _ (sort_by-Falling _ _ _ (sort_by-Rising _ _ _ (AllPairs-any _)))

  static_candidates-All :
      All (λ m. is_static_eligible m min_importance ≡ true) (static_candidates ms min_importance)
  unfolding static_candidates
  static_candidates-All =
      sort_by-All _ _ _ (sort_by-All _ _ _ (sort_by-All _ _ _ (All-keep_self _ ms)))

module _ (far_past : ℕ → ℕ) (ms : List Memory) (since : ℕ) (exclude_ids : List ℕ) where
  dynamic_candidates-All :
      All
        (λ m. (mem m.id exclude_ids ≡ false) × (is_dynamic_eligible m since ≡ true))
        (dynamic_candidates far_past ms since exclude_ids)
  unfolding dynamic_candidates
  dynamic_candidates-All =
      All-map _ _ (λ m h. ground arith) _
        (sort_by-All _ _ _ (sort_by-All _ _ _ (sort_by-All _ _ _ (All-keep_self _ ms))))

  -- The dynamic candidates fall by the last recall, then by creation, and then rise by identifier.
  pub dynamic_candidates-order :
      AllPairs
        (Falling (recalled_key far_past) (Falling (λ m. m.created_at) (Rising (λ m. m.id) Any)))
        (dynamic_candidates far_past ms since exclude_ids)
  unfolding dynamic_candidates
  dynamic_candidates-order =
      sort_by-Falling _ _ _ (sort_by-Falling _ _ _ (sort_by-Rising _ _ _ (AllPairs-any _)))

abbrev pub IsStandingCategory : Category → Type 0
IsStandingCategory c = (c ≡ preference) ⊎ (c ≡ constraint)

eligible-standing :
    (m : Memory) (k : ℕ) → is_static_eligible m k ≡ true → IsStandingCategory m.category
eligible-standing m k h = ground arith

module _ {F D : Type 0} (far_past : ℕ → ℕ) (sha256 : Payload → D) (ms : List Memory)
    (limits : MemoryLimits F) (now : ℕ) where
  abbrev selected : SelectedProfile D
  selected = select_profile_slices far_past sha256 ms limits now

  -- What a selected profile is, against the candidates of the two slices.
  pub record IsSelected (p : SelectedProfile D) : Type 0 where
    pub static_served :
        IsServed limits.profile_static_max_chars
          (static_candidates ms limits.profile_static_min_importance)
          p.static
    pub static_standing : All (λ item. IsStandingCategory item.category) p.static
    pub static_few : length p.static ≤ limits.profile_static_max_items
    pub static_chars : chars p.static ≤ limits.profile_static_max_chars
    pub dynamic_served :
        IsServed limits.profile_dynamic_max_chars
          (dynamic_candidates far_past ms
            (now - days limits.profile_dynamic_window_days)
            (map (λ item. item.id) p.static))
          p.dynamic
    pub dynamic_apart :
        All (λ item. mem item.id (map (λ other. other.id) p.static) ≡ false) p.dynamic
    pub dynamic_few : length p.dynamic ≤ limits.profile_dynamic_max_items
    pub dynamic_chars : chars p.dynamic ≤ limits.profile_dynamic_max_chars
    pub sources :
        p.source_memory_ids ≡ map (λ item. item.id) p.static ++ map (λ item. item.id) p.dynamic
    pub digest : p.content_hash ≡ sha256 (record { static = p.static; dynamic = p.dynamic })

  -- The selection serves preferences and constraints alone in the static slice, and in the dynamic
  -- slice candidates that the static one does not show; each slice takes its candidates in their
  -- order, whole but for a cut last item, within its two limits; the source identifiers are those
  -- of the static slice and then the dynamic one; and the hash is that of the two slices.
  pub select_profile_slices-IsSelected : IsSelected selected
  unfolding select_profile_slices select_dynamic_slice
  select_profile_slices-IsSelected =
      let k = limits.profile_static_min_importance in
      let candidates = static_candidates ms k in
      let (served, few, small, _) =
        budget_items-IsServed candidates limits.profile_static_max_items
          limits.profile_static_max_chars in
      let ids =
        map (λ item. item.id)
          (budget_items candidates limits.profile_static_max_items
            limits.profile_static_max_chars) in
      let since = now - days limits.profile_dynamic_window_days in
      let recent = dynamic_candidates far_past ms since ids in
      let (served', few', small', _) =
        budget_items-IsServed recent limits.profile_dynamic_max_items
          limits.profile_dynamic_max_chars in
      record {
        static_served = served;
        static_standing =
            IsServed-All (λ _ c. IsStandingCategory c) _ candidates _ served
              (All-map _ _ (λ m h. eligible-standing m k h) candidates
                (static_candidates-All ms k));
        static_few = few;
        static_chars = small;
        dynamic_served = served';
        dynamic_apart =
            IsServed-All (λ i _. mem i ids ≡ false) _ recent _ served'
              (All-map _ _ (λ m h. h.0) recent (dynamic_candidates-All far_past ms since ids));
        dynamic_few = few';
        dynamic_chars = small';
        sources = map-append _ _ _;
        digest = refl;
      }
