-- ===== src/Store/Valid.antt =====
-- Every write of the repository keeps the table valid.
use recallum_mcp.Prelude.{ℕ, ◌≡◌, refl, inl, inr, Bool, false, not, ◌&&◌, List, arith}
use recallum_mcp.Model.{Scope}
use recallum_mcp.Store.{
  Row, Db, done, Values, is_none, is_todo, same_scope, update_where, retire, link, new_row,
  insert_row, expired_key, create_memory,
}
use recallum_mcp.Store.Edit.{replace_rows}
use recallum_mcp.Store.Rows.{
  IsSound, IsValid, Keeps, IsFresh, update_where-IsValid, always_sound, Outcome-cases,
  update_where-IsFresh, insert_row-IsValid,
}

module _ {V M : Type 0} where
  -- What the service checks of the values of a new memory.
  pub record IsAllowed (v : Values V M) : Type 0 where
    pub scoped : same_scope v.scope Scope.project ≡ not (is_none v.project)
    pub timed : (is_todo v.kind && is_none v.expires_at) ≡ false

  new_row-IsSound :
      (id user now : ℕ) (v : Values V M) → IsAllowed v → IsSound (new_row id user now v)
  unfolding new_row
  new_row-IsSound id user now v a = record { scoped = a.scoped; timed = a.timed; linked = refl }

  pub retire-Keeps : (now : ℕ) (r : Row V M) → Keeps r (retire now r)
  retire-Keeps now r = record {
    id = refl;
    user_id = refl;
    scope = refl;
    project = refl;
    content_hash = refl;
    retired = ground arith;
  }

  pub retire-IsSound : (now : ℕ) (r : Row V M) → IsSound r → IsSound (retire now r)
  retire-IsSound now r s = record { scoped = s.scoped; timed = s.timed; linked = ground arith }

  replaced-Keeps : (next now : ℕ) (r : Row V M) → Keeps r (link next (retire now r))
  replaced-Keeps next now r = record {
    id = refl;
    user_id = refl;
    scope = refl;
    project = refl;
    content_hash = refl;
    retired = ground arith;
  }

  replaced-IsSound : (next now : ℕ) (r : Row V M) → IsSound r → IsSound (link next (retire now r))
  replaced-IsSound next now r s = record {
    scoped = s.scoped;
    timed = s.timed;
    linked = ground arith;
  }

  module _ (id user now : ℕ) (v : Values V M) (db : Db V M) (w : IsValid db.rows) (a : IsAllowed v)
      (f : IsFresh id db.rows) where
    -- An insert behind an update that retires rows.
    inserted-IsValid :
        (p : Row V M → Bool) (g : Row V M → Row V M)
        → ((r : Row V M) → Keeps r (g r))
        → ((r : Row V M) → IsSound r → IsSound (g r))
        → (after : List (Row V M))
        → insert_row (new_row id user now v) (update_where p g db.rows) ≡ done after
        → IsValid after
    unfolding new_row
    inserted-IsValid p g keeps sound after h =
        (insert_row-IsValid (new_row id user now v) (update_where p g db.rows) after
          (update_where-IsValid p g keeps db.rows w (always_sound p g keeps sound db.rows w.sound))
          (new_row-IsSound id user now v a)
          (update_where-IsFresh p g (λ r. (keeps r).id) id db.rows f) h).0

    -- A new memory under a new identifier, with allowed values, keeps the table valid.
    pub create_memory-IsValid :
        (r : Row V M × Db V M) → create_memory id user now v db ≡ done r → IsValid r.1.rows
    unfolding create_memory
    create_memory-IsValid r h =
        let p = expired_key now user v in
        elim (Outcome-cases
          (insert_row (new_row id user now v) (update_where p (retire now) db.rows))) [
            | inl (e, q) ↦ absurd (ground (arith, q))
            | inr (rows, q) ↦
                let same : r.1.rows ≡ rows = ground (arith, q) in
                rw same
                  (inserted-IsValid p (retire now) (retire-Keeps now) (retire-IsSound now) rows q)
          ]

    pub replace_rows-IsValid :
        (replaced : Row V M → Bool) (r : Row V M × Db V M)
        → replace_rows replaced id user now v db ≡ done r
        → IsValid r.1.rows
    unfolding replace_rows
    replace_rows-IsValid replaced r h =
        elim (Outcome-cases (
          insert_row (new_row id user now v)
            (update_where replaced (λ r. link id (retire now r)) db.rows))) [
              | inl (e, q) ↦ absurd (ground (arith, q))
              | inr (rows, q) ↦
                  let same : r.1.rows ≡ rows = ground (arith, q) in
                  rw same (
                    inserted-IsValid replaced (λ r. link id (retire now r)) (replaced-Keeps id now)
                      (replaced-IsSound id now) rows q)
            ]
