-- ===== src/Validate/Text.antt =====
-- Normalized texts.
use recallum_mcp.Prelude.{
  ℕ, ◌≤◌, ◌≡◌, ◌⊎◌, inl, inr, refl, Bool, true, false, [], ◌∷◌, length, Bool-cases, arith,
}
use recallum_mcp.Model.{ok}
use recallum_mcp.Validate.{
  Text, is_empty, collapse, lstrip, rstrip, normalize_text, normalize_content,
}

module _ (nfc : Text → Text) (is_space : ℕ → Bool) where
  -- Every whitespace is the space and stands behind a character that is not whitespace; the Boolean
  -- tells whether whitespace stands before the text.
  abbrev Squeezed : Bool → Text → Type 0
  Squeezed p [] = Unit
  Squeezed p (c ∷ cs) =
      ((is_space c ≡ false) × Squeezed false cs)
      ⊎ ((is_space c ≡ true) × (c ≡ 32) × (p ≡ false) × Squeezed true cs)

  -- The same, and the text ends with no whitespace.
  abbrev pub Tidy : Bool → Text → Type 0
  Tidy p [] = p ≡ false
  Tidy p (c ∷ cs) =
      ((is_space c ≡ false) × Tidy false cs)
      ⊎ ((is_space c ≡ true) × (c ≡ 32) × (p ≡ false) × Tidy true cs)

  module _ (space : is_space 32 ≡ true) where
    collapse-Squeezed : (p : Bool) (text : Text) → Squeezed p (collapse nfc is_space p text)
    unfolding collapse
    collapse-Squeezed p [] = tt
    collapse-Squeezed true (c ∷ cs) = elim (Bool-cases (is_space c)) [
      | inl e ↦
          let q : collapse nfc is_space true (c ∷ cs) ≡ collapse nfc is_space true cs =
            ground arith in
          rw q (collapse-Squeezed true cs)
      | inr e ↦
          let q : collapse nfc is_space true (c ∷ cs) ≡ c ∷ collapse nfc is_space false cs =
            ground arith in
          rw q (inl (e, collapse-Squeezed false cs))
    ]
    collapse-Squeezed false (c ∷ cs) = elim (Bool-cases (is_space c)) [
      | inl e ↦
          let q : collapse nfc is_space false (c ∷ cs) ≡ 32 ∷ collapse nfc is_space true cs =
            ground arith in
          rw q (inr (space, refl, refl, collapse-Squeezed true cs))
      | inr e ↦
          let q : collapse nfc is_space false (c ∷ cs) ≡ c ∷ collapse nfc is_space false cs =
            ground arith in
          rw q (inl (e, collapse-Squeezed false cs))
    ]

  lstrip-Squeezed :
      (p : Bool) (text : Text) → Squeezed p text → Squeezed true (lstrip nfc is_space text)
  unfolding lstrip
  lstrip-Squeezed p [] h = tt
  lstrip-Squeezed p (c ∷ cs) (inl (e, h)) =
      let q : lstrip nfc is_space (c ∷ cs) ≡ c ∷ cs = ground arith in rw q (inl (e, h))
  lstrip-Squeezed p (c ∷ cs) (inr (e, _, _, h)) =
      let q : lstrip nfc is_space (c ∷ cs) ≡ lstrip nfc is_space cs = ground arith in
      rw q (lstrip-Squeezed true cs h)

  Tidy-not_empty : (text : Text) → Tidy true text → is_empty text ≡ false
  Tidy-not_empty [] h = cc
  Tidy-not_empty (c ∷ cs) h = refl

  -- Stripping the end leaves nothing or a tidy text.
  rstrip-Tidy :
      (p : Bool) (text : Text)
      → Squeezed p text
      → (rstrip nfc is_space text ≡ []) ⊎ Tidy p (rstrip nfc is_space text)
  unfolding rstrip
  rstrip-Tidy p [] h = inl refl
  rstrip-Tidy p (c ∷ cs) (inl (e, h)) =
      let q : rstrip nfc is_space (c ∷ cs) ≡ c ∷ rstrip nfc is_space cs = ground arith in
      elim (rstrip-Tidy false cs h) [
        | inl z ↦ rw (q, z) (inr (inl (e, refl)))
        | inr t ↦ rw q (inr (inl (e, t)))
      ]
  rstrip-Tidy p (c ∷ cs) (inr (e, s, b, h)) = elim (rstrip-Tidy true cs h) [
    | inl z ↦ let q : rstrip nfc is_space (c ∷ cs) ≡ [] = ground (arith, z) in inl q
    | inr t ↦
        let n = Tidy-not_empty (rstrip nfc is_space cs) t in
        let q : rstrip nfc is_space (c ∷ cs) ≡ c ∷ rstrip nfc is_space cs = ground (arith, n) in
        rw q (inr (inr (e, s, b, t)))
  ]

  -- The text that normalization gives is empty, or it begins and ends with no whitespace and its
  -- whitespace is single spaces.
  pub normalize_text-Tidy :
      is_space 32 ≡ true
      → (text : Text)
      → (normalize_text nfc is_space text ≡ []) ⊎ Tidy true (normalize_text nfc is_space text)
  unfolding normalize_text
  normalize_text-Tidy space text =
      rstrip-Tidy true _ (lstrip-Squeezed false _ (collapse-Squeezed space false (nfc text)))

  long : (text : Text) → is_empty text ≡ false → 1 ≤ length text
  long [] h = absurd (ground arith)
  long (c ∷ cs) h = omega arith

  -- Where the space is whitespace, accepted content is a normalized text: not empty and at most the
  -- limit long, it begins and ends with no whitespace, and its whitespace is single spaces.
  pub normalize_content-Tidy :
      (most : ℕ) (content normalized : Text)
      → is_space 32 ≡ true
      → normalize_content nfc is_space most content ≡ ok normalized
      → Tidy true normalized × (1 ≤ length normalized) × (length normalized ≤ most)
  unfolding normalize_content
  normalize_content-Tidy most content normalized space h =
      elim (normalize_text-Tidy space content) [
        | inl z ↦ absurd (ground (arith, z))
        | inr t ↦
            let n = Tidy-not_empty (normalize_text nfc is_space content) t in
            let q : normalized ≡ normalize_text nfc is_space content = ground (arith, n) in
            let l : length normalized ≤ most = ground (arith, n, q) in
            (rw q t, long normalized (rw q n), l)
      ]
