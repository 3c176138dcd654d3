-- ===== src/Prelude/Sort.antt =====
-- `list.sort(key=…, reverse=…)`: a stable sort. `before x y` tells that x must come before y.
use Prim.Native.Nat.{ℕ, suc, ◌<◌}
use native.Mathlib.Decide.{dec_lt}
use mathlib.Core.Path.{◌≡◌, refl}
use mathlib.Core.Logic.{◌⊎◌, inl, inr}
use mathlib.Core.Bool.{Bool, true, false, ◌||◌}
use mathlib.Core.List.{List, [], ◌∷◌, Perm}
use mathlib.Core.List.Perm
use native.Mathlib.Omega.{arith}
use recallum_mcp.Prelude.Tests.{if◌then◌else◌, ltb, Bool-cases}
use recallum_mcp.Prelude.Lists.{any_of, length, All, AllPairs, AllPairs-map}

module _ {ℓ} {A : Type ℓ} where
  -- The new item goes before the items that are not strictly before it.
  abbrev pub insert_by : (A → A → Bool) → A → List A → List A
  insert_by before x [] = x ∷ []
  insert_by before x (y ∷ ys) = if before y x then y ∷ insert_by before x ys else x ∷ y ∷ ys

  unfoldable pub sort_by : (A → A → Bool) → List A → List A
  sort_by before [] = []
  sort_by before (x ∷ xs) = insert_by before x (sort_by before xs)

  module _ (before : A → A → Bool) where
    insert_by-perm : (x : A) (ys : List A) → Perm (insert_by before x ys) (x ∷ ys)
    insert_by-perm x [] = Perm.refl (x ∷ [])
    insert_by-perm x (y ∷ ys) = elim (Bool-cases (before y x)) [
      | inl e ↦ rw e (Perm.trans (Perm.cons y (insert_by-perm x ys)) (Perm.swap x y ys))
      | inr e ↦ rw e (Perm.refl (x ∷ y ∷ ys))
    ]

    -- Sorting loses and repeats nothing.
    pub sort_by-perm : (xs : List A) → Perm (sort_by before xs) xs
    unfolding sort_by
    sort_by-perm [] = Perm.refl []
    sort_by-perm (x ∷ xs) =
        Perm.trans (insert_by-perm x (sort_by before xs)) (Perm.cons x (sort_by-perm xs))

  module _ (before : A → A → Bool) where
    any_of-insert_by :
        (p : A → Bool) (x : A) (ys : List A) → any_of p (insert_by before x ys) ≡ p x || any_of p ys
    any_of-insert_by p x [] = refl
    any_of-insert_by p x (y ∷ ys) = ground (arith, any_of-insert_by p x ys)

    pub any_of-sort_by : (p : A → Bool) (xs : List A) → any_of p (sort_by before xs) ≡ any_of p xs
    unfolding sort_by
    any_of-sort_by p [] = refl
    any_of-sort_by p (x ∷ xs) =
        ground (arith, any_of-insert_by p x (sort_by before xs), any_of-sort_by p xs)

    length-insert_by : (x : A) (ys : List A) → length (insert_by before x ys) ≡ suc (length ys)
    length-insert_by x [] = refl
    length-insert_by x (y ∷ ys) = ground (arith, length-insert_by x ys)

    pub length-sort_by : (xs : List A) → length (sort_by before xs) ≡ length xs
    unfolding sort_by
    length-sort_by [] = refl
    length-sort_by (x ∷ xs) =
        ground (arith, length-insert_by x (sort_by before xs), length-sort_by xs)

  module _ {κ} (before : A → A → Bool) (P : A → Type κ) where
    insert_by-All : (x : A) (ys : List A) → P x → All P ys → All P (insert_by before x ys)
    insert_by-All x [] p h = (p, tt)
    insert_by-All x (y ∷ ys) p (q, h) = elim (Bool-cases (before y x)) [
      | inl e ↦ rw e (q, insert_by-All x ys p h)
      | inr e ↦ rw e (p, (q, h))
    ]

    pub sort_by-All : (xs : List A) → All P xs → All P (sort_by before xs)
    unfolding sort_by
    sort_by-All [] h = tt
    sort_by-All (x ∷ xs) (p, h) = insert_by-All x (sort_by before xs) p (sort_by-All xs h)

module _ {ℓ} {A : Type ℓ} where
  -- `key=…` and `key=…, reverse=True`
  abbrev pub ascending : (A → ℕ) → A → A → Bool
  ascending key x y = ltb (key x) (key y)

  abbrev pub descending : (A → ℕ) → A → A → Bool
  descending key x y = ltb (key y) (key x)

  -- The order of `before`, and where it does not tell two items apart the relation `R`.
  abbrev pub Then {κ} : (A → A → Bool) → (A → A → Type κ) → A → A → Type κ
  Then before R x y = (before x y ≡ true) ⊎ ((before y x ≡ false) × R x y)

module _ {ℓ κ} {A : Type ℓ} (before : A → A → Bool) (R : A → A → Type κ)
    (asym : (x y : A) → before x y ≡ true → before y x ≡ false)
    (weak : (x y z : A) → before y x ≡ false → before z y ≡ false → before z x ≡ false) where
  not_before : (x y z : A) → before y x ≡ false → Then before R y z → before z x ≡ false
  not_before x y z h (inl b) = weak x y z h (asym y z b)
  not_before x y z h (inr (b, _)) = weak x y z h b

  Then-behind :
      (x y : A) (ys : List A)
      → before y x ≡ false
      → All (R x) ys
      → All (Then before R y) ys
      → All (Then before R x) ys
  Then-behind x y [] h r t = tt
  Then-behind x y (z ∷ ys) h (r, rs) (t, ts) =
      (inr (not_before x y z h t, r), Then-behind x y ys h rs ts)

  insert_by-AllPairs :
      (x : A) (ys : List A)
      → All (R x) ys
      → AllPairs (Then before R) ys
      → AllPairs (Then before R) (insert_by before x ys)
  insert_by-AllPairs x [] r h = (tt, tt)
  insert_by-AllPairs x (y ∷ ys) (r, rs) (t, ts) = elim (Bool-cases (before y x)) [
    | inl e ↦
        rw e (insert_by-All before (Then before R y) x ys (inl e) t, insert_by-AllPairs x ys rs ts)
    | inr e ↦ rw e ((inr (e, r), Then-behind x y ys e rs t), (t, ts))
  ]

  -- A stable sort orders by `before`, and keeps an order that the list has already where
  -- `before` does not decide.
  pub sort_by-AllPairs :
      (xs : List A) → AllPairs R xs → AllPairs (Then before R) (sort_by before xs)
  unfolding sort_by
  sort_by-AllPairs [] h = tt
  sort_by-AllPairs (x ∷ xs) (r, h) =
      insert_by-AllPairs x (sort_by before xs) (sort_by-All before (R x) xs r)
        (sort_by-AllPairs xs h)

module _ {ℓ κ} {A : Type ℓ} (key : A → ℕ) (R : A → A → Type κ) where
  -- The key rises, or falls, from x to y, or is equal and R holds.
  abbrev pub Rising : A → A → Type κ
  Rising x y = (key x < key y) ⊎ ((key x ≡ key y) × R x y)

  abbrev pub Falling : A → A → Type κ
  Falling x y = (key y < key x) ⊎ ((key x ≡ key y) × R x y)

  rising : (x y : A) → Then (ascending key) R x y → Rising x y
  rising x y (inl h) = inl (ground arith)
  rising x y (inr (h, r)) = elim (dec_lt (key x) (key y)) [
    | yes p ↦ inl p
    | no p ↦ inr (ground arith, r)
  ]

  falling : (x y : A) → Then (descending key) R x y → Falling x y
  falling x y (inl h) = inl (ground arith)
  falling x y (inr (h, r)) = elim (dec_lt (key y) (key x)) [
    | yes p ↦ inl p
    | no p ↦ inr (ground arith, r)
  ]

  pub sort_by-Rising : (xs : List A) → AllPairs R xs → AllPairs Rising (sort_by (ascending key) xs)
  sort_by-Rising xs h =
      AllPairs-map (Then (ascending key) R) Rising rising (sort_by (ascending key) xs) (
        sort_by-AllPairs (ascending key) R (λ x y e. ground arith) (λ x y z e f. ground arith) xs h)

  pub sort_by-Falling :
      (xs : List A) → AllPairs R xs → AllPairs Falling (sort_by (descending key) xs)
  sort_by-Falling xs h =
      AllPairs-map (Then (descending key) R) Falling falling (sort_by (descending key) xs) (
        sort_by-AllPairs (descending key) R (λ x y e. ground arith) (λ x y z e f. ground arith) xs
          h)

-- The relation that always holds: where a first sort starts.
pub AllPairs-any {ℓ} : {A : Type ℓ} (xs : List A) → AllPairs (λ _ _. Unit {0}) xs
AllPairs-any {A} xs = go xs
  where
    all : (ys : List A) → All (λ _. Unit {0}) ys
    all [] = tt
    all (y ∷ ys) = (tt, all ys)

    go : (ys : List A) → AllPairs (λ _ _. Unit {0}) ys
    go [] = tt
    go (y ∷ ys) = (all ys, go ys)
