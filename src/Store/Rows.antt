-- ===== src/Store/Rows.antt =====
-- Sound rows, rows that stand apart, and what an update or an insert keeps of them.
use recallum_mcp.Prelude.{
  ℕ, ◌≡◌, ◌↔◌, refl, ◌⊎◌, inl, inr, Bool, true, false, not, ◌&&◌, ◌||◌, List, [], ◌∷◌, All,
  AllPairs, All-map, Bool-cases, ◌==◌, if◌then◌else◌, arith,
}
use recallum_mcp.Model.{Scope}
use recallum_mcp.Store.{
  Row, RepositoryError, Outcome, done, failed, is_none, is_todo, same_scope, is_active, same_key,
  clashes, insert_row, update_where,
}

pub same_scope_iff : (a b : Scope) → (same_scope a b ≡ true) ↔ (a ≡ b)
same_scope_iff Scope.global Scope.global = ground arith
same_scope_iff Scope.global Scope.project = ground arith
same_scope_iff Scope.project Scope.global = ground arith
same_scope_iff Scope.project Scope.project = ground arith

pub Outcome-cases :
    {A : Type 0} (o : Outcome A)
    → ((e : RepositoryError) × (o ≡ failed e)) ⊎ ((a : A) × (o ≡ done a))
Outcome-cases (failed e) = inl (e, refl)
Outcome-cases (done a) = inr (a, refl)

module _ {V M : Type 0} where
  -- The table's constraint on the scope and the project; a todo expires; a replaced row is retired.
  pub record IsSound (r : Row V M) : Type 0 where
    pub scoped : same_scope r.scope Scope.project ≡ not (is_none r.project)
    pub timed : (is_todo r.kind && is_none r.expires_at) ≡ false
    pub linked : (is_none r.superseded_by || not (is_active r)) ≡ true

  -- Different identifiers, and different keys where both are active.
  pub record Apart (r s : Row V M) : Type 0 where
    pub ids : (r.id == s.id) ≡ false
    pub keys : (is_active r && is_active s && same_key r s) ≡ false

  pub record IsValid (rows : List (Row V M)) : Type 0 where
    pub sound : All IsSound rows
    pub apart : AllPairs Apart rows

  -- The identifier and the key are the same, and a retired row stays retired.
  pub record Keeps (r s : Row V M) : Type 0 where
    pub id : s.id ≡ r.id
    pub user_id : s.user_id ≡ r.user_id
    pub scope : s.scope ≡ r.scope
    pub project : s.project ≡ r.project
    pub content_hash : s.content_hash ≡ r.content_hash
    pub retired : (is_active r || not (is_active s)) ≡ true

  pub Keeps-self : (r : Row V M) → Keeps r r
  Keeps-self r = record {
    id = refl;
    user_id = refl;
    scope = refl;
    project = refl;
    content_hash = refl;
    retired = ground arith;
  }

  same_key-Keeps : (r r' s s' : Row V M) → Keeps r r' → Keeps s s' → same_key r' s' ≡ same_key r s
  unfolding same_key
  same_key-Keeps r r' s s' h k =
      cc (
        h.user_id, h.scope, h.project, h.content_hash, k.user_id, k.scope, k.project,
        k.content_hash,
      )

  Apart-Keeps : (r r' s s' : Row V M) → Keeps r r' → Keeps s s' → Apart r s → Apart r' s'
  Apart-Keeps r r' s s' h k a = record {
    ids = ground (arith, h.id, k.id, a.ids);
    keys = ground (arith, same_key-Keeps r r' s s' h k, a.keys, h.retired, k.retired);
  }

  module _ (p : Row V M → Bool) (f : Row V M → Row V M)
      (keeps : (r : Row V M) → Keeps r (f r)) where
    where-Keeps : (r : Row V M) → Keeps r (if p r then f r else r)
    where-Keeps r = elim (Bool-cases (p r)) [ inl e ↦ rw e (keeps r) | inr e ↦ rw e (Keeps-self r) ]

    -- The written rows are sound.
    abbrev pub Sounds : List (Row V M) → Type 0
    Sounds = All (λ r. (p r ≡ false) ⊎ IsSound (f r))

    update_where-IsSound :
        (rows : List (Row V M))
        → All IsSound rows
        → Sounds rows
        → All IsSound (update_where p f rows)
    update_where-IsSound [] a b = tt
    update_where-IsSound (r ∷ rows) (s, a) (t, b) = elim (Bool-cases (p r)) [
      | inl e ↦ elim t [
        | inl n ↦ absurd (ground (arith, e, n))
        | inr q ↦ rw e (q, update_where-IsSound rows a b)
      ]
      | inr e ↦ rw e (s, update_where-IsSound rows a b)
    ]

    pub always_sound :
        ((r : Row V M) → IsSound r → IsSound (f r))
        → (rows : List (Row V M)) → All IsSound rows
        → Sounds rows
    always_sound g rows a =
        All-map IsSound (λ r. (p r ≡ false) ⊎ IsSound (f r)) (λ r s. inr (g r s)) rows a

    Apart-all :
        (r : Row V M) (rows : List (Row V M))
        → All (Apart r) rows
        → All (Apart (if p r then f r else r)) (update_where p f rows)
    Apart-all r [] a = tt
    Apart-all r (s ∷ rows) (h, a) =
        (Apart-Keeps r _ s _ (where-Keeps r) (where-Keeps s) h, Apart-all r rows a)

    update_where-Apart :
        (rows : List (Row V M)) → AllPairs Apart rows → AllPairs Apart (update_where p f rows)
    update_where-Apart [] a = tt
    update_where-Apart (r ∷ rows) (h, a) = (Apart-all r rows h, update_where-Apart rows a)

    -- An update that keeps keys and soundness keeps the table valid.
    pub update_where-IsValid :
        (rows : List (Row V M)) → IsValid rows → Sounds rows → IsValid (update_where p f rows)
    update_where-IsValid rows v s = record {
      sound = update_where-IsSound rows v.sound s;
      apart = update_where-Apart rows v.apart;
    }

  -- No row has the identifier.
  abbrev pub IsFresh : ℕ → List (Row V M) → Type 0
  IsFresh id = All (λ r. (id == r.id) ≡ false)

  pub update_where-IsFresh :
      (p : Row V M → Bool) (f : Row V M → Row V M)
      → ((r : Row V M) → (f r).id ≡ r.id)
      → (id : ℕ) (rows : List (Row V M)) → IsFresh id rows
      → IsFresh id (update_where p f rows)
  update_where-IsFresh p f e id [] a = tt
  update_where-IsFresh p f e id (r ∷ rows) (h, a) =
      (ground (arith, e r), update_where-IsFresh p f e id rows a)

  clashes-Apart :
      (new : Row V M) (rows : List (Row V M))
      → clashes new rows ≡ false
      → IsFresh new.id rows
      → All (Apart new) rows
  unfolding clashes
  clashes-Apart new [] c h = tt
  clashes-Apart new (r ∷ rows) c (i, h) =
      (record { ids = i; keys = ground arith }, clashes-Apart new rows (ground arith) h)

  -- An insert under a new identifier fails or leaves a valid table.
  pub insert_row-IsValid :
      (new : Row V M) (rows after : List (Row V M))
      → IsValid rows
      → IsSound new
      → IsFresh new.id rows
      → insert_row new rows ≡ done after
      → IsValid after × (after ≡ new ∷ rows)
  unfolding insert_row
  insert_row-IsValid new rows after v s f h =
      let c : clashes new rows ≡ false = ground arith in
      let e : after ≡ new ∷ rows = ground (arith, c) in
      (rw e (record { sound = (s, v.sound); apart = (clashes-Apart new rows c f, v.apart) }), e)
