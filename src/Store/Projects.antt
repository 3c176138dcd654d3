-- ===== src/Store/Projects.antt =====
-- Which rows stand in a project, and which have the same key.
use Prim.Native.String.{String}
use text.Mathlib.TextEquality.{eq_iff}
use recallum_mcp.Prelude.{
  ℕ, ◌≡◌, sym, ◌⊎◌, inl, inr, true, false, List, [], ◌∷◌, mem, All, All-map, Bool-cases,
  Option-cases, ==_iff, arith,
}
use recallum_mcp.Model.{Scope}
use recallum_mcp.Store.{Row, project_text, is_active, same_key}
use recallum_mcp.Store.Bulk.{in_project, target_hashes}
use recallum_mcp.Store.Rows.{same_scope_iff, IsSound, Apart}

module _ {V M : Type 0} where
  -- The hashes hold that of every row in the project.
  abbrev pub Targeted : ℕ → String → List ℕ → Row V M → Type 0
  Targeted user to hashes r = (in_project user to r ≡ false) ⊎ (mem r.content_hash hashes ≡ true)

  pub Targeted-along :
      (user : ℕ) (to : String) (hashes others : List ℕ) (rows : List (Row V M))
      → hashes ≡ others
      → All (Targeted user to others) rows
      → All (Targeted user to hashes) rows
  Targeted-along user to hashes others rows e a = rw e a

  pub target_hashes-Targeted :
      (user : ℕ) (to : String) (rows : List (Row V M))
      → All (Targeted user to (target_hashes user to rows)) rows
  unfolding target_hashes
  target_hashes-Targeted user to [] = tt
  target_hashes-Targeted user to (r ∷ rows) =
      let rest = target_hashes-Targeted user to rows in
      elim (Bool-cases (in_project user to r)) [
        | inl e ↦
            Targeted-along user to _ (r.content_hash ∷ target_hashes user to rows) (r ∷ rows)
              (ground (arith, e))
              (
                inr (ground (arith, ==_iff r.content_hash r.content_hash)),
                All-map (Targeted user to (target_hashes user to rows))
                    (Targeted user to (r.content_hash ∷ target_hashes user to rows))
                    (λ s t. elim t [ inl n ↦ inl n | inr m ↦ inr (ground (arith, m)) ]) rows rest,
              )
        | inr e ↦
            Targeted-along user to _ (target_hashes user to rows) (r ∷ rows) (ground (arith, e))
              (inl e, rest)
      ]

  -- What equal keys are.
  pub record SameKey (r s : Row V M) : Type 0 where
    pub user_id : r.user_id ≡ s.user_id
    pub scope : r.scope ≡ s.scope
    pub project : project_text r.project ≡ project_text s.project
    pub content_hash : r.content_hash ≡ s.content_hash

  pub same_key-SameKey : (r s : Row V M) → same_key r s ≡ true → SameKey r s
  unfolding same_key
  same_key-SameKey r s h = record {
    user_id = ground (arith, ==_iff r.user_id s.user_id);
    scope = ground (arith, same_scope_iff r.scope s.scope);
    project = ground (arith, eq_iff (project_text r.project) (project_text s.project));
    content_hash = ground (arith, ==_iff r.content_hash s.content_hash);
  }

  pub SameKey-same_key : (r s : Row V M) → SameKey r s → same_key r s ≡ true
  unfolding same_key
  SameKey-same_key r s k = ground (
    arith,
    k.user_id,
    k.scope,
    k.project,
    k.content_hash,
    ==_iff r.user_id s.user_id,
    same_scope_iff r.scope s.scope,
    eq_iff (project_text r.project) (project_text s.project),
    ==_iff r.content_hash s.content_hash,
  )

  pub same_key_sym : (r s : Row V M) → same_key r s ≡ true → same_key s r ≡ true
  same_key_sym r s h =
      let k = same_key-SameKey r s h in
      SameKey-same_key s r (record {
        user_id = sym k.user_id;
        scope = sym k.scope;
        project = sym k.project;
        content_hash = sym k.content_hash;
      })

  pub Apart-sym : (r s : Row V M) → Apart r s → Apart s r
  Apart-sym r s a = record {
    ids = ground (arith, a.ids, ==_iff r.id s.id, ==_iff s.id r.id);
    keys = ground (arith, a.keys, Bool-cases (same_key s r), same_key_sym s r);
  }

  -- What the rows of a user's project are.
  pub record InProject (user : ℕ) (name : String) (r : Row V M) : Type 0 where
    pub user_id : r.user_id ≡ user
    pub active : is_active r ≡ true
    pub scope : r.scope ≡ Scope.project
    pub project : project_text r.project ≡ name

  pub in_project-InProject :
      (user : ℕ) (project : String) (r : Row V M)
      → in_project user project r ≡ true
      → InProject user project r
  in_project-InProject user project r h = elim (Option-cases r.project) [
    | inl e ↦ absurd (ground (arith, e))
    | inr (p, e) ↦ record {
      user_id = ground (arith, e, ==_iff r.user_id user);
      active = ground (arith, e);
      scope = ground (arith, e, same_scope_iff r.scope Scope.project);
      project = ground (arith, e, eq_iff p project);
    }
  ]

  pub InProject-in_project :
      (user : ℕ) (project : String) (r : Row V M)
      → IsSound r
      → InProject user project r
      → in_project user project r ≡ true
  InProject-in_project user project r s h =
      let scoped = s.scoped in
      elim (Option-cases r.project) [
        | inl e ↦ absurd (ground (arith, e, h.scope, scoped, same_scope_iff r.scope Scope.project))
        | inr (p, e) ↦ ground (
          arith,
          e,
          h.user_id,
          h.active,
          h.scope,
          h.project,
          ==_iff r.user_id user,
          same_scope_iff r.scope Scope.project,
          eq_iff p project,
        )
      ]
