-- ===== src/Hygiene/Grouped.antt =====
-- The loop that groups: each group holds all identifiers of its root, in their order.
use mathlib.Core.List.{append_assoc, append-nil}
use recallum_mcp.Prelude.{
  All, ℕ, ◌<◌, ◌≡◌, refl, sym, ◌∙◌, ap, inl, inr, Bool, true, false, ◌||◌, List, [], ◌∷◌, ◌++◌,
  keep, mem, ◌==◌, ==_iff, Bool-cases, arith,
}
use recallum_mcp.Hygiene.{returned, append_to, group_all}
use recallum_mcp.Hygiene.Forest.{Forest, find_lem}

abbrev pub Groups : Type 0
Groups = List (ℕ × List ℕ)

abbrev pub group_by : (ℕ → ℕ) → List ℕ → Groups → Groups
group_by root [] groups = groups
group_by root (id ∷ ids) groups = group_by root ids (append_to (root id) id groups)

-- The loop with its finds does what grouping by the roots does.
pub group_all_lem :
    (keys : List ℕ) (root depth : ℕ → ℕ) (bound fuel : ℕ) (ids : List ℕ) (parent : ℕ → ℕ)
    (groups : Groups)
    → Forest keys root depth bound parent
    → All (λ id. mem id keys ≡ true) ids
    → bound < fuel
    → group_all keys fuel ids parent groups ≡ returned (group_by root ids groups)
unfolding group_all
group_all_lem keys root depth bound fuel [] parent groups f k h = refl
group_all_lem keys root depth bound fuel (id ∷ ids) parent groups f (k, ks) h =
    let (p, found, g) =
      find_lem keys root depth bound fuel id parent f k (omega (arith, f.low id, h)) in
    rw found (group_all_lem keys root depth bound fuel ids p (append_to (root id) id groups) g ks h)

abbrev pub has_root : ℕ → Groups → Bool
has_root r [] = false
has_root r ((s, ids) ∷ groups) = s == r || has_root r groups

-- The identifiers of a root.
abbrev pub of_root : (ℕ → ℕ) → ℕ → List ℕ → List ℕ
of_root root r = keep (λ x. root x == r)

-- Each group is all of its root among the identifiers, and no two groups have one root.
abbrev pub Grouped : (ℕ → ℕ) → List ℕ → Groups → Type 0
Grouped root ids [] = Unit
Grouped root ids ((r, group) ∷ groups) =
    (group ≡ of_root root r ids) × (has_root r groups ≡ false) × Grouped root ids groups

module _ {ℓ} {A : Type ℓ} where
  pub keep-append : (p : A → Bool) (xs ys : List A) → keep p (xs ++ ys) ≡ keep p xs ++ keep p ys
  keep-append p [] ys = refl
  keep-append p (x ∷ xs) ys = elim (Bool-cases (p x)) [
    | inl e ↦ rw e (ap (◌∷◌ x) (keep-append p xs ys))
    | inr e ↦ rw e (keep-append p xs ys)
  ]

has_root-append_to :
    (x r id : ℕ) (groups : Groups)
    → has_root x (append_to r id groups) ≡ (r == x) || has_root x groups
has_root-append_to x r id [] = ground arith
has_root-append_to x r id ((s, ids) ∷ groups) = elim (Bool-cases (s == r)) [
  | inl e ↦ ground (arith, e, ==_iff s r)
  | inr e ↦ ground (arith, e, has_root-append_to x r id groups)
]

of_root-other :
    (root : ℕ → ℕ) (r id : ℕ) (seen : List ℕ)
    → (root id == r) ≡ false
    → of_root root r (seen ++ id ∷ []) ≡ of_root root r seen
of_root-other root r id seen e =
    keep-append (λ x. root x == r) seen (id ∷ []) ∙ rw e (append-nil (of_root root r seen))

of_root-own :
    (root : ℕ → ℕ) (id : ℕ) (seen : List ℕ)
    → of_root root (root id) (seen ++ id ∷ []) ≡ of_root root (root id) seen ++ id ∷ []
of_root-own root id seen =
    keep-append (λ x. root x == root id) seen (id ∷ [])
    ∙ rw ((==_iff (root id) (root id)).1 refl) refl

Grouped-others :
    (root : ℕ → ℕ) (id : ℕ) (seen : List ℕ) (groups : Groups)
    → Grouped root seen groups
    → has_root (root id) groups ≡ false
    → Grouped root (seen ++ id ∷ []) groups
Grouped-others root id seen [] g h = tt
Grouped-others root id seen ((r, group) ∷ groups) (e, d, g) h = (
  e ∙ sym (of_root-other root r id seen (ground (arith, h, ==_iff r (root id)))),
  d,
  Grouped-others root id seen groups g (ground (arith, h)),
)

Grouped-append_to :
    (root : ℕ → ℕ) (id : ℕ) (seen : List ℕ) (groups : Groups)
    → Grouped root seen groups
    → (has_root (root id) groups ≡ false → of_root root (root id) seen ≡ [])
    → Grouped root (seen ++ id ∷ []) (append_to (root id) id groups)
Grouped-append_to root id seen [] g none_yet =
    (sym (of_root-own root id seen ∙ rw (none_yet refl) refl), refl, tt)
Grouped-append_to root id seen ((r, group) ∷ groups) (e, d, g) none_yet =
    elim (Bool-cases (r == root id)) [
      | inl q ↦
          let at : r ≡ root id = (==_iff r (root id)).0 q in
          let away : has_root (root id) groups ≡ false = rw at at d in
          let own : group ≡ of_root root (root id) seen =
            e ∙ ap (λ (k : ℕ). of_root root k seen) at in
          rw q (
            rw at (
              ap (λ (l : List ℕ). l ++ id ∷ []) own ∙ sym (of_root-own root id seen),
              away,
              Grouped-others root id seen groups g away,
            ))
      | inr q ↦ rw q (
        e ∙ sym (of_root-other root r id seen (ground (arith, q, ==_iff r (root id)))),
        has_root-append_to r (root id) id groups ∙ ground (arith, q, d, ==_iff r (root id)),
        Grouped-append_to root id seen groups g (λ h. none_yet (ground (arith, h, q))),
      )
    ]

-- A root with no group has no identifier.
abbrev Complete : (ℕ → ℕ) → List ℕ → Groups → Type 0
Complete root ids groups = (r : ℕ) → has_root r groups ≡ false → of_root root r ids ≡ []

Complete-append_to :
    (root : ℕ → ℕ) (id : ℕ) (seen : List ℕ) (groups : Groups)
    → Complete root seen groups
    → Complete root (seen ++ id ∷ []) (append_to (root id) id groups)
Complete-append_to root id seen groups c r h =
    let both : ((root id == r) || has_root r groups) ≡ false =
      sym (has_root-append_to r (root id) id groups) ∙ h in
    of_root-other root r id seen (ground (arith, both)) ∙ c r (ground (arith, both))

group_by-from :
    (root : ℕ → ℕ) (ids seen : List ℕ) (groups : Groups)
    → Grouped root seen groups
    → Complete root seen groups
    → Grouped root (seen ++ ids) (group_by root ids groups)
      × Complete root (seen ++ ids) (group_by root ids groups)
group_by-from root [] seen groups g c = rw (append-nil seen) (g, c)
group_by-from root (id ∷ ids) seen groups g c =
    let same : (seen ++ id ∷ []) ++ ids ≡ seen ++ id ∷ ids = append_assoc seen (id ∷ []) ids in
    rw same at (
      group_by-from root ids (seen ++ id ∷ []) (append_to (root id) id groups)
        (Grouped-append_to root id seen groups g (c (root id)))
        (Complete-append_to root id seen groups c))

-- The groups by root: each is all identifiers of its root, and each root of one has its group.
pub group_by-Grouped :
    (root : ℕ → ℕ) (ids : List ℕ)
    → Grouped root ids (group_by root ids [])
      × ((r : ℕ) → has_root r (group_by root ids []) ≡ false → of_root root r ids ≡ [])
group_by-Grouped root ids = group_by-from root ids [] [] tt (λ r h. refl)
